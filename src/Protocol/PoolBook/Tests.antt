-- ===== src/Protocol/PoolBook/Tests.antt =====
-- The theorems on standing pools at concrete pools.
use kray_node.Base.{◌≡◌, refl, List, [], ◌∷◌}
use kray_node.Base.Text.{Text, js, text_eq}
use kray_node.Base.Map.{text_key, get, set, delete}
use kray_node.Protocol.PoolBook.{
  Pool, Pools, pool_key, fund, commit, put_back, paid_out, uncommit, drain, Act, fund_act,
  commit_act, pay_act, drain_act, apply, replay,
}
use kray_node.Protocol.PoolBook.Covered.{IsCovered, replay-IsCovered}

abbrev kray : Text
kray = js "kray"

abbrev ann : Text
ann = js "ann"

-- Ann pours 50 in, draws a season of 30, of which 10 are paid, and fails to drain 45.
abbrev season : List Act
season =
    fund_act kray kray ann 50 900
    ∷ commit_act kray kray ann 30
    ∷ pay_act kray kray ann 10
    ∷ drain_act kray kray ann 45
    ∷ []

replayed : Pools
unfolding replay apply fund commit put_back paid_out uncommit drain get set delete text_eq pool_key
replayed = replay season []

ends :
    replay season []
    ≡ (
      pool_key kray kray ann,
      record { owner = ann; lane = kray; asset = kray; held = 40; committed = 20; expires = 900 },
    )
      ∷ []
unfolding replayed
ends = refl

replay-IsCovered_example : IsCovered (replay season [])
replay-IsCovered_example = replay-IsCovered season [] none_there
  where
    none_there : IsCovered []
    none_there = unfold IsCovered in tt

abbrev anns_pool : Pool
anns_pool = record {
  owner = ann;
  lane = kray;
  asset = kray;
  held = 40;
  committed = 20;
  expires = 900;
}
