-- ===== src/Economics/AnchorPool/Tests.antt =====
-- The theorems on a pool of two offers.
use kray_node.Base.{◌≡◌, ◌≢◌, refl, false, some, List, [], ◌∷◌, arith}
use kray_node.Base.Text.{Text, js, text_eq}
use kray_node.Base.Map.{text_key, get, set, member, Distinct}
use kray_node.Economics.Raffle.{is_beacon}
use kray_node.Economics.AnchorPool.{
  AnchorJob, AnchorPool, default_reward, empty_pool, offer, advance, advance_to, draw, mark_failed,
  Act, offer_act, advance_act, fail_act, settle_act, apply, replay,
}
use kray_node.Economics.AnchorPool.Draw.{draw-some, draw-mark_failed}
use kray_node.Economics.AnchorPool.Ledger.{IsNumbered, empty_pool-IsNumbered, replay-IsNumbered}

abbrev target : Text
target = js "00112233445566778899aabbccddeeff00112233445566778899aabbccddeeff"

abbrev volunteers : List Act
volunteers = offer_act (js "ana") 500 ∷ offer_act (js "bo") 700 ∷ advance_act target 8 ∷ []

abbrev pool : AnchorPool
pool = replay volunteers empty_pool

abbrev the_job : AnchorJob
the_job = record { job_id = 0; root = target; height = 8; failed = [] }

pending : pool.job ≡ some the_job
unfolding replay apply offer advance advance_to is_beacon
pending = refl

ana_offers : get (js "ana") pool.offers ≡ some (record { sats = 500; seq = 0 })
unfolding replay apply offer advance advance_to is_beacon get set text_eq
ana_offers = refl

none_failed : member (js "ana") the_job.failed ≡ false
unfolding member
none_failed = refl

draw-some_example : (payer : Text) × (draw (λ t. t) (js "b") 400 pool ≡ some payer)
draw-some_example =
    draw-some (λ t. t) (js "b") 400 pool the_job (js "ana") (record { sats = 500; seq = 0 }) pending
      ana_offers (omega arith) none_failed

abbrev more : List Act
more = offer_act (js "ana") 900 ∷ fail_act (js "cy") ∷ []

more-Distinct : Distinct (replay more (mark_failed (js "ana") pool)).offers
unfolding replay apply offer advance advance_to is_beacon get set text_eq mark_failed member
more-Distinct = (refl, (refl, tt))

draw-mark_failed_example :
    draw (λ t. t) (js "b") 400 (replay more (mark_failed (js "ana") pool)) ≢ some (js "ana")
draw-mark_failed_example =
    draw-mark_failed (λ t. t) (js "b") 400 pool the_job (js "ana") more pending (tt, (tt, tt))
      more-Distinct

replay-IsNumbered_example :
    IsNumbered (
      replay
        (settle_act (js "ana") target 9 target default_reward ∷ advance_act target 9 ∷ [])
        pool)
replay-IsNumbered_example =
    replay-IsNumbered
      (settle_act (js "ana") target 9 target default_reward ∷ advance_act target 9 ∷ []) pool
      (replay-IsNumbered volunteers empty_pool empty_pool-IsNumbered)
