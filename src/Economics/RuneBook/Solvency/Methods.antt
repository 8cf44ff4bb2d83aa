-- ===== src/Economics/RuneBook/Solvency/Methods.antt =====
-- The methods of the rune book keep every rune solvent, whether they succeed or refuse.
use kray_node.Base.{ℕ, ◌-◌, Bool, false, Option, none, arith, inl, inr, Option-cases}
use kray_node.Base.Text.{Text}
use kray_node.Base.Map.{text_key}
use kray_node.Protocol.Runestone.Artifact.{RuneId}
use kray_node.Economics.RuneKey.{rune_key}
use kray_node.Economics.RuneBook.NestedMap.{at}
use kray_node.Economics.RuneBook.State.{
  RuneBook, PendingExit, personal_at, reach_locks, reach_balances, reach_personal,
}
use kray_node.Economics.RuneBook.Moves.{credit, deposit, rehomed, rehome, rehome_take, move, send}
use kray_node.Economics.RuneBook.Exits.{
  lock_up, relock, request_exit, arm, arm_exit, give_back, cancel_exit, mark_settled, burn,
  settle_exit, delivery,
}
use kray_node.Economics.RuneBook.Solvency.{
  IsSolvent, KeepsSolvent, credit-IsSolvent, assert_solvent-IsSolvent, reach_balances-IsSolvent,
  reach_locks-IsSolvent, move-IsSolvent, reach_personal-IsSolvent, rehomed-IsSolvent,
  lock_up-IsSolvent, relock-IsSolvent, amount-arm, give_back-IsSolvent, lock-le-reserve,
  settled-IsSolvent, reserve_at-mark_settled,
}

pub deposit-KeepsSolvent :
    (rune : RuneId) (o to : Text) (n : ℕ) (pool : Bool) (b : RuneBook)
    → IsSolvent b
    → KeepsSolvent (deposit rune o n to pool b)
unfolding deposit
deposit-KeepsSolvent rune o to n pool b h =
    let c = credit (rune_key rune) o n to pool b in
    let v = credit-IsSolvent (rune_key rune) o to n pool b h in
    ground (arith, v, h, assert_solvent-IsSolvent (rune_key rune) c v)

pub send-KeepsSolvent :
    (rune : RuneId) (from to : Text) (n : ℕ) (b : RuneBook)
    → IsSolvent b
    → KeepsSolvent (send rune from to n b)
unfolding send
send-KeepsSolvent rune from to n b h =
    let k = rune_key rune in
    let b1 = reach_balances k b in
    let h1 = reach_balances-IsSolvent k b h in
    ground (
      arith,
      h,
      h1,
      move-IsSolvent k from to n b1,
      assert_solvent-IsSolvent k (move k from to n b1),
    )

pub rehome-KeepsSolvent :
    (rune : RuneId) (a : Text) (n : Option ℕ) (b : RuneBook)
    → IsSolvent b
    → KeepsSolvent (rehome rune a n b)
unfolding rehome IsSolvent
rehome-KeepsSolvent rune a n b h =
    let k = rune_key rune in
    let b1 = reach_personal k b in
    let had = personal_at k a b1 in
    let b2 = rehomed k a (had - rehome_take had n) b1 in
    ground (
      arith,
      reach_personal-IsSolvent k b h,
      assert_solvent-IsSolvent k b2 (rehomed-IsSolvent k a _ b1 h),
      rehomed-IsSolvent k a (had - rehome_take had n) b1,
    )

pub request_exit-KeepsSolvent :
    (rune : RuneId) (from : Text) (n : ℕ) (l1 : Text) (when : ℕ) (b : RuneBook)
    → IsSolvent b
    → KeepsSolvent (request_exit rune from n l1 when b)
unfolding request_exit
request_exit-KeepsSolvent rune from n l1 when b h =
    let k = rune_key rune in
    let b1 = reach_locks k b in
    let h1 = reach_locks-IsSolvent k b h in
    let b2 = reach_balances k b1 in
    let h2 = reach_balances-IsSolvent k b1 h1 in
    let p : PendingExit = record {
      address = from;
      amount = n;
      l1_address = l1;
      placed_at = when;
      armed = false;
      bound_vault = none;
    } in
    ground (arith, h, h1, h2, lock_up-IsSolvent k p b2, assert_solvent-IsSolvent k (lock_up k p b2))

pub arm_exit-KeepsSolvent :
    (rune : RuneId) (from : Text) (vault : Option Text) (b : RuneBook)
    → IsSolvent b
    → KeepsSolvent (arm_exit rune from vault b)
unfolding arm_exit
arm_exit-KeepsSolvent rune from vault b h =
    let k = rune_key rune in
    let b1 = reach_locks k b in
    let h1 = reach_locks-IsSolvent k b h in
    elim (Option-cases (at k from b1.locks)) [
      | inl e ↦ ground (arith, h1)
      | inr (p, e) ↦ ground (
        arith,
        h1,
        relock-IsSolvent k from (arm p vault) p b1 e (amount-arm p vault) h1,
        assert_solvent-IsSolvent k (relock k from (arm p vault) b1),
      )
    ]

pub cancel_exit-KeepsSolvent :
    (rune : RuneId) (from : Text) (b : RuneBook)
    → IsSolvent b
    → KeepsSolvent (cancel_exit rune from b)
unfolding cancel_exit
cancel_exit-KeepsSolvent rune from b h =
    let k = rune_key rune in
    let b1 = reach_locks k b in
    let h1 = reach_locks-IsSolvent k b h in
    elim (Option-cases (at k from b1.locks)) [
      | inl e ↦ ground (arith, h1)
      | inr (p, e) ↦ ground (
        arith,
        h1,
        give_back-IsSolvent k from p b1 e h1,
        assert_solvent-IsSolvent k (give_back k from p.amount b1),
      )
    ]

pub settle_exit-KeepsSolvent :
    (rune : RuneId) (from : Text) (n : ℕ) (l1 key : Text) (b : RuneBook)
    → IsSolvent b
    → KeepsSolvent (settle_exit rune from n l1 key b)
unfolding settle_exit
settle_exit-KeepsSolvent rune from n l1 key b h =
    let k = rune_key rune in
    let dk = delivery key l1 in
    let b1 = reach_locks k b in
    let h1 = reach_locks-IsSolvent k b h in
    elim (Option-cases (at k from b1.locks)) [
      | inl e ↦ ground (arith, h1)
      | inr (p, e) ↦ ground (
        arith,
        h1,
        lock-le-reserve k from p b1 e h1,
        reserve_at-mark_settled k from dk l1 b1,
        settled-IsSolvent k from dk l1 p b1 e h1,
        assert_solvent-IsSolvent k (burn k from n (mark_settled k from dk l1 b1)),
      )
    ]
