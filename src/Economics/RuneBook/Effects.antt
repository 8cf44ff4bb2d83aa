-- ===== src/Economics/RuneBook/Effects.antt =====
-- What a transfer and a settlement do to each balance, lock and reserve (rune-book.ts).
use kray_node.Base.{◌<◌, ◌&&◌, ℕ, ◌+◌, ◌-◌, ◌≤◌, ◌≡◌, false, none, some, arith, if◌then◌else◌}
use kray_node.Base.Text.{Text, text_eq, text_eq_iff, text_eq_refl}
use kray_node.Base.Map.{text_key, get-set}
use kray_node.Base.Result.{ok}
use kray_node.Protocol.Runestone.Artifact.{RuneId}
use kray_node.Economics.RuneKey.{rune_key}
use kray_node.Economics.RuneBook.NestedMap.{
  at-drop_self, put, at-put, at-touch, touch-IsTidyMap, at,
}
use kray_node.Economics.RuneBook.State.{
  RuneBook, PendingExit, reserve_at, balance_at, personal_at, reach_locks, reach_balances,
}
use kray_node.Economics.RuneBook.Moves.{move, send}
use kray_node.Economics.RuneBook.Exits.{mark_settled, burn, settle_exit}
use kray_node.Economics.RuneBook.Solvency.{
  IsSolvent, assert_solvent-IsSolvent, reach_balances-IsSolvent, move-IsSolvent, lock-le-reserve,
  reach_locks-IsSolvent,
}
use kray_node.Economics.RuneBook.Outcomes.Exits.{open_exit, settle_exit_outcome}
use kray_node.Economics.RuneBook.Tidy.{IsTidy}

-- In a solvent book a positive transfer between two addresses that the sender's balance covers
-- succeeds; it takes the amount from the sender, gives it to the recipient, and moves no other balance.
pub send_lem :
    (rune : RuneId) (from to : Text) (n : ℕ) (b : RuneBook) (j c : Text)
    → IsSolvent b
    → 0 < n
    → text_eq from to ≡ false
    → n ≤ balance_at (rune_key rune) from b
    → let k = rune_key rune in
      let (r, b') = send rune from to n b in
      (r ≡ ok tt)
      × (balance_at j c b' ≡ (
          if text_eq k j && text_eq from c
          then balance_at j c b - n
          else if text_eq k j && text_eq to c
          then balance_at j c b + n
          else balance_at j c b))
unfolding send move
send_lem rune from to n b j c s pos ne le =
    let k = rune_key rune in
    let b1 = reach_balances k b in
    let mm = put k from (balance_at k from b1 - n) b1.balances in
    ground (
      arith,
      assert_solvent-IsSolvent k (move k from to n b1),
      reach_balances-IsSolvent k b s,
      move-IsSolvent k from to n b1,
      text_eq_iff k j,
      text_eq_iff from c,
      text_eq_iff to c,
      text_eq_refl k,
      at-touch j k c b.balances,
      at-touch k k from b.balances,
      at-touch k k to b.balances,
      at-put k k from to (balance_at k from b1 - n) b1.balances,
      at-put j k from c (balance_at k from b1 - n) b1.balances,
      at-put j k to c (balance_at k to (record b1 { balances = mm }) + n) mm,
    )

-- A settlement that succeeds in a solvent and tidy book is of the amount of the open exit: that exit
-- is closed, the reserve falls by the amount, no spendable balance moves, and the personal box falls by
-- it, to nothing at least.
pub settle_exit_lem :
    (rune : RuneId) (from : Text) (n : ℕ) (l1 key : Text) (p : PendingExit) (b : RuneBook)
    → IsSolvent b
    → IsTidy b
    → open_exit rune from b ≡ some p
    → (settle_exit rune from n l1 key b).0 ≡ ok tt
    → let k = rune_key rune in
      let b' = (settle_exit rune from n l1 key b).1 in
      (p.amount ≡ n)
      × (at k from b'.locks ≡ none)
      × (reserve_at k b' + n ≡ reserve_at k b)
      × (b'.balances ≡ b.balances)
      × (personal_at k from b' ≡ personal_at k from b - n)
unfolding burn mark_settled IsTidy
settle_exit_lem rune from n l1 key p b s tidy o done =
    let k = rune_key rune in
    let b1 = reach_locks k b in
    let left = personal_at k from b - n in
    ground (
      arith,
      settle_exit_outcome rune from b s p n l1 key o,
      lock-le-reserve k from p b1 o (reach_locks-IsSolvent k b s),
      text_eq_refl k,
      text_eq_refl from,
      touch-IsTidyMap k b.locks tidy.0,
      at-drop_self k from b1.locks,
      at-drop_self k from b.personal tidy.1,
      at-touch k k from b.personal,
      at-put k k from from left b.personal,
      get-set k k (reserve_at k b - n) b.reserves,
    )
