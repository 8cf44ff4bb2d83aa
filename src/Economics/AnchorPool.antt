-- ===== src/Economics/AnchorPool.antt =====
-- The pool of those who pay anchors, `class AnchorPool` (economics/anchor-pool.ts). The hash is a
-- parameter. Sats are natural numbers: a negative offer is refused before anything else.
use kray_node.Base.{
  ℕ, zero, suc, ◌+◌, ◌-◌, ◌*◌, ◌%◌, Bool, true, false, not, ◌&&◌, ◌||◌, Option, none, some, List,
  [], ◌∷◌, ◌++◌, map, filter, sum_by, length, get_elem?, ltb, leb, ◌==◌, if◌then◌else◌,
}
use kray_node.Base.Text.{Text, js, text_eq, text_lt}
use kray_node.Base.Decimal.{decimal}
use kray_node.Base.Map.{text_key, Map, get, set, delete, member}
use kray_node.Base.Result.{Result, ok, err, Action, ◌>>=◌, ◌>>◌, raise_if, gets, modify, or_raise}
use kray_node.Base.Sort.{sort}
use kray_node.Economics.Raffle.{lower, is_beacon, hex_value}
pub mod Draw
pub mod Ledger
mod Tests

pub data Refusal : Type 0 where
  bad_root no_pending wrong_root no_fee bad_txid : Refusal

pub record Offer : Type 0 where
  pub sats : ℕ
  pub seq : ℕ

pub record AnchorJob : Type 0 where
  pub job_id : ℕ
  pub root : Text
  pub height : ℕ
  pub failed : List Text

pub record Settlement : Type 0 where
  pub job_id : ℕ
  pub payer : Text
  pub txid : Text
  pub sats : ℕ
  pub reward : ℕ
  pub root : Text
  pub height : ℕ

pub record RewardPolicy : Type 0 where
  pub per_anchor : ℕ
  pub max_fee_sats : ℕ

abbrev pub default_reward : RewardPolicy
default_reward = record { per_anchor = 100000; max_fee_sats = 1000000 }

unfoldable pub reward_for : ℕ → RewardPolicy → ℕ
reward_for sats p = if sats == 0 then 0 else (if ltb p.max_fee_sats sats then 0 else p.per_anchor)

pub record AnchorPool : Type 0 where
  pub offers : Map Text Offer
  pub job : Option AnchorJob
  pub settled : List Settlement
  pub next_job_id : ℕ
  pub seq : ℕ

abbrev pub Method : Type 0
Method = Action AnchorPool Refusal (Unit {0})

abbrev pub empty_pool : AnchorPool
empty_pool = record { offers = []; job = none; settled = []; next_job_id = 0; seq = 0 }

unfoldable pub offer : Text → ℕ → AnchorPool → AnchorPool
offer address sats b =
    if sats == 0 then record b { offers = delete address b.offers } else record b {
      offers = set address (record { sats = sats; seq = b.seq }) b.offers;
      seq = b.seq + 1;
    }

abbrev pub failed_of : Option AnchorJob → List Text
failed_of none = []
failed_of (some j) = j.failed

abbrev pub is_ready : ℕ → List Text → Text × Offer → Bool
is_ready min_fee failed (a, o) = leb min_fee o.sats && not (member a failed)

abbrev pub address_of : Text × Offer → Text
address_of (a, o) = a

unfoldable pub candidates : ℕ → AnchorPool → List Text
candidates min_fee b =
    sort text_lt (map address_of (filter (is_ready min_fee (failed_of b.job)) b.offers))

-- A new target, or the newest root for the target that is pending.
unfoldable pub advance_to : Text → ℕ → AnchorPool → AnchorPool
advance_to root height b = elim b.job [
  | none ↦ record b {
    job =
        some
          (record { job_id = b.next_job_id; root = map lower root; height = height; failed = [] });
    next_job_id = b.next_job_id + 1;
  }
  | some j ↦ record b { job = some (record j { root = map lower root; height = height }) }
]

unfoldable pub advance : Text → ℕ → Method
advance root height = do raise_if (not (is_beacon root)) bad_root; modify (advance_to root height)

-- `join(',')`
abbrev pub join_comma : List Text → Text
join_comma [] = []
join_comma (x ∷ []) = x
join_comma (x ∷ y ∷ xs) = x ++ (b',' ∷ join_comma (y ∷ xs))

abbrev pub first_letters : ℕ → Text → Text
first_letters zero t = []
first_letters (suc n) [] = []
first_letters (suc n) (c ∷ t) = c ∷ first_letters n t

unfoldable pub draw_text : Text → ℕ → Text → List Text → Text
draw_text beacon job_id root sorted =
    js "kray-anchor-draw|"
    ++ (beacon ++ (b'|' ∷ (decimal job_id ++ (b'|' ∷ (root ++ (b'|' ∷ join_comma sorted))))))

module _ (hash_of : Text → Text) where
  unfoldable pub pick : Text → ℕ → Text → List Text → Option Text
  pick beacon job_id root [] = none
  pick beacon job_id root (c ∷ cands) =
      let h = hash_of (draw_text beacon job_id root (c ∷ cands)) in
      get_elem? (c ∷ cands) (hex_value (first_letters 16 h) % length (c ∷ cands))

  unfoldable pub draw : Text → ℕ → AnchorPool → Option Text
  draw beacon min_fee b = elim b.job [
    | none ↦ none
    | some j ↦ pick beacon j.job_id j.root (candidates min_fee b)
  ]

abbrev pub with_failed : Text → AnchorJob → AnchorJob
with_failed payer j =
    if member payer j.failed then j else record j { failed = j.failed ++ (payer ∷ []) }

unfoldable pub mark_failed : Text → AnchorPool → AnchorPool
mark_failed payer b = elim b.job [
  | none ↦ b
  | some j ↦ record b { job = some (with_failed payer j) }
]

abbrev pub is_root_of : Text → Option AnchorJob → Bool
is_root_of root none = false
is_root_of root (some j) = text_eq (map lower root) j.root

unfoldable pub satisfied : Text → AnchorPool → AnchorPool
satisfied root b = if is_root_of root b.job then record b { job = none } else b

unfoldable pub settlement : AnchorJob → Text → Text → ℕ → RewardPolicy → Settlement
settlement j payer txid sats policy = record {
  job_id = j.job_id;
  payer = payer;
  txid = map lower txid;
  sats = sats;
  reward = reward_for sats policy;
  root = j.root;
  height = j.height;
}

unfoldable pub settle : Text → Text → ℕ → Text → RewardPolicy → Method
settle payer txid sats root policy = do
  j ← or_raise (← gets (λ b. b.job)) no_pending
  raise_if (not (text_eq (map lower root) j.root)) wrong_root
  raise_if (sats == 0) no_fee
  raise_if (not (is_beacon txid)) bad_txid
  modify (λ b. record b {
    settled = b.settled ++ (settlement j payer txid sats policy ∷ []);
    job = none;
  })

unfoldable pub total_rewarded : AnchorPool → ℕ
total_rewarded b = sum_by (λ s. s.reward) b.settled

pub data Act : Type 0 where
  offer_act : Text → ℕ → Act
  advance_act : Text → ℕ → Act
  fail_act : Text → Act
  satisfied_act : Text → Act
  settle_act : Text → Text → ℕ → Text → RewardPolicy → Act

unfoldable pub apply : Act → AnchorPool → AnchorPool
apply (offer_act address sats) b = offer address sats b
apply (advance_act root height) b = (advance root height b).1
apply (fail_act payer) b = mark_failed payer b
apply (satisfied_act root) b = satisfied root b
apply (settle_act payer txid sats root policy) b = (settle payer txid sats root policy b).1

unfoldable pub replay : List Act → AnchorPool → AnchorPool
replay [] b = b
replay (act ∷ acts) b = replay acts (apply act b)
