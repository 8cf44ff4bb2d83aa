-- ===== src/Economics/RuneBook/Outcomes/Exits.antt =====
-- The exits of the rune book are all or nothing too.
use kray_node.Base.{ℕ, ◌≡◌, false, Option, none, some, arith, not, ◌&&◌}
use kray_node.Base.Text.{Text, text_eq}
use kray_node.Base.Map.{text_key, member}
use kray_node.Base.Result.{ok, err}
use kray_node.Protocol.Runestone.Artifact.{RuneId}
use kray_node.Economics.RuneKey.{rune_key}
use kray_node.Economics.RuneBook.NestedMap.{at}
use kray_node.Economics.RuneBook.State.{RuneBook, PendingExit, no_exit, reach_locks}
use kray_node.Economics.RuneBook.Exits.{
  relock, arm, arm_exit, give_back, cancel_exit, mark_settled, burn, settle_exit, delivery,
}
use kray_node.Economics.RuneBook.Solvency.{
  IsSolvent, assert_solvent-IsSolvent, reach_locks-IsSolvent, relock-IsSolvent, amount-arm,
  give_back-IsSolvent, lock-le-reserve, settled-IsSolvent, reserve_at-mark_settled,
}
use kray_node.Economics.RuneBook.Outcomes.{Outcome, reach_locks-SameView}

module _ (rune : RuneId) (from : Text) (b : RuneBook) where
  abbrev pub open_exit : Option PendingExit
  open_exit = at (rune_key rune) from (reach_locks (rune_key rune) b).locks

  -- With no open exit, every method of an exit refuses.
  pub arm_exit_closed :
      (vault : Option Text)
      → open_exit ≡ none
      → arm_exit rune from vault b ≡ (err no_exit, reach_locks (rune_key rune) b)
  unfolding arm_exit
  arm_exit_closed vault e = ground arith

  pub cancel_exit_closed :
      open_exit ≡ none → cancel_exit rune from b ≡ (err no_exit, reach_locks (rune_key rune) b)
  unfolding cancel_exit
  cancel_exit_closed e = ground arith

  pub settle_exit_closed :
      (n : ℕ) (l1 key : Text)
      → open_exit ≡ none
      → settle_exit rune from n l1 key b ≡ (err no_exit, reach_locks (rune_key rune) b)
  unfolding settle_exit
  settle_exit_closed n l1 key e = ground arith

module _ (rune : RuneId) (from : Text) (b : RuneBook) (h : IsSolvent b) (p : PendingExit) where
  pub arm_exit_outcome :
      (vault : Option Text)
      → open_exit rune from b ≡ some p
      → let k = rune_key rune in
        Outcome
          (arm_exit rune from vault b)
          b
          tt
          (relock k from (arm p vault) (reach_locks k b))
          (p.armed ≡ false)
  unfolding arm_exit
  arm_exit_outcome vault e =
      let k = rune_key rune in
      let b1 = reach_locks k b in
      let h1 = reach_locks-IsSolvent k b h in
      ground (
        arith,
        reach_locks-SameView k b,
        relock-IsSolvent k from (arm p vault) p b1 e (amount-arm p vault) h1,
        assert_solvent-IsSolvent k (relock k from (arm p vault) b1),
      )

  pub cancel_exit_outcome :
      open_exit rune from b ≡ some p
      → let k = rune_key rune in
        Outcome
          (cancel_exit rune from b)
          b
          tt
          (give_back k from p.amount (reach_locks k b))
          (p.armed ≡ false)
  unfolding cancel_exit
  cancel_exit_outcome e =
      let k = rune_key rune in
      let b1 = reach_locks k b in
      ground (
        arith,
        reach_locks-SameView k b,
        give_back-IsSolvent k from p b1 e (reach_locks-IsSolvent k b h),
        assert_solvent-IsSolvent k (give_back k from p.amount b1),
      )

  -- An exit that is not armed can always be cancelled.
  pub cancel_exit_unarmed :
      open_exit rune from b ≡ some p
      → p.armed ≡ false
      → let k = rune_key rune in
        cancel_exit rune from b ≡ (ok tt, give_back k from p.amount (reach_locks k b))
  unfolding cancel_exit
  cancel_exit_unarmed e free =
      let k = rune_key rune in
      let b1 = reach_locks k b in
      ground (
        arith,
        give_back-IsSolvent k from p b1 e (reach_locks-IsSolvent k b h),
        assert_solvent-IsSolvent k (give_back k from p.amount b1),
      )

  -- The reserve is tested behind the first writes; in a solvent book that test always passes.
  pub settle_exit_outcome :
      (n : ℕ) (l1 key : Text)
      → open_exit rune from b ≡ some p
      → let k = rune_key rune in
        let dk = delivery key l1 in
        Outcome
          (settle_exit rune from n l1 key b)
          b
          tt
          (burn k from n (mark_settled k from dk l1 (reach_locks k b)))
          ((p.amount ≡ n)
            × (member dk b.settled ≡ false)
            × ((not (text_eq dk l1) && member l1 b.settled) ≡ false)
            × ((text_eq dk l1 && member l1 b.delivered_tx) ≡ false))
  unfolding settle_exit
  settle_exit_outcome n l1 key e =
      let k = rune_key rune in
      let dk = delivery key l1 in
      let b1 = reach_locks k b in
      let h1 = reach_locks-IsSolvent k b h in
      ground (
        arith,
        reach_locks-SameView k b,
        lock-le-reserve k from p b1 e h1,
        reserve_at-mark_settled k from dk l1 b1,
        settled-IsSolvent k from dk l1 p b1 e h1,
        assert_solvent-IsSolvent k (burn k from n (mark_settled k from dk l1 b1)),
      )
