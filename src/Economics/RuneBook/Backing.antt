-- ===== src/Economics/RuneBook/Backing.antt =====
-- The backing law: nobody holds fewer credits than their personal vault backs.
pub mod Law
use kray_node.Base.{
  ℕ, ◌+◌, ◌-◌, ◌≤◌, ◌≡◌, refl, ◌≢◌, Bool, true, false, Option, none, some, List, [], ◌∷◌, arith,
  inl, inr, Bool-cases, Option-cases, ltb, if◌then◌else◌,
}
use kray_node.Base.Text.{Text, text_eq, text_eq_iff, text_eq_refl}
use kray_node.Base.Map.{text_key, get, sum_values, set, get-set, member}
use kray_node.Base.Result.{Result, ok, err}
use kray_node.Protocol.Runestone.Artifact.{RuneId}
use kray_node.Economics.RuneKey.{rune_key}
use kray_node.Economics.RuneBook.NestedMap.{
  put, at-put, at-drop, at-drop_ne, at-touch, IsTidyMap, touch-IsTidyMap, put-IsTidyMap,
  drop-IsTidyMap, at,
}
use kray_node.Economics.RuneBook.State.{
  RuneBook, PendingExit, Refusal, insolvent, empty_book, credits, locked, solvent_for, reserve_at,
  balance_at, personal_at, set_personal, assert_solvent, reach_locks, reach_balances,
  reach_personal,
}
use kray_node.Economics.RuneBook.Moves.{credit, deposit, rehomed, rehome, rehome_take, move, send}
use kray_node.Economics.RuneBook.Exits.{
  lock_up, relock, request_exit, arm, arm_exit, give_back, cancel_exit, mark_settled, burn,
  settle_exit, delivery,
}
use kray_node.Economics.RuneBook.Journal.{
  Act, deposit_act, rehome_act, send_act, request_act, arm_act, cancel_act, settle_act, apply,
  replay, minted, burned, all_minted, all_burned,
}
use kray_node.Economics.RuneBook.Solvency.{
  IsSolvent, KeepsSolvent, lock-le-reserve, reach_locks-IsSolvent, reserve_at-mark_settled,
}
use kray_node.Economics.RuneBook.Outcomes.{
  SameView, Outcome, reach_locks-SameView, deposit_outcome, rehome_outcome, send_outcome,
  request_exit_outcome, new_exit,
}
use kray_node.Economics.RuneBook.Outcomes.Exits.{
  open_exit, arm_exit_closed, cancel_exit_closed, settle_exit_closed, arm_exit_outcome,
  cancel_exit_outcome, settle_exit_outcome,
}
use kray_node.Economics.RuneBook.Solvency.Methods.{
  deposit-KeepsSolvent, rehome-KeepsSolvent, send-KeepsSolvent, request_exit-KeepsSolvent,
  arm_exit-KeepsSolvent, cancel_exit-KeepsSolvent, settle_exit-KeepsSolvent,
}
use kray_node.Economics.RuneBook.Flows.{deposit_flow, settle_flow, apply-KeepsSolvent}
use kray_node.Economics.RuneBook.Views.{solvent, all_solvent}
use kray_node.Economics.RuneBook.Conservation.{replay-IsSolvent}
use kray_node.Base.Map.{add, member-add}
use kray_node.Economics.RuneBook.Tidy.{IsTidy, apply-IsTidy}
use kray_node.Economics.RuneBook.Views.{
  transferable_of, exit_amount, balance_of, locked_of, personal_of,
}

-- What the address holds, its open exit included, covers what its personal vault backs.
abbrev pub Backed : Text → Text → RuneBook → Type 0
Backed k a b = personal_at k a b ≤ balance_at k a b + exit_amount (at k a b.locks)

module _ (j c : Text) where
  pub SameView-Backed : (b b' : RuneBook) → SameView b b' → Backed j c b → Backed j c b'
  unfolding SameView
  SameView-Backed b b' v h = ground (arith, v.0 j c, v.1 j c, v.2 j c)

  pub credit-Backed :
      (k o to : Text) (n : ℕ) (pool : Bool) (b : RuneBook)
      → Backed j c b
      → Backed j c (credit k o n to pool b)
  unfolding credit
  credit-Backed k o to n pool b h = ground (
    arith,
    text_eq_iff k j,
    text_eq_iff to c,
    at-put j k to c (balance_at k to b + n) b.balances,
    at-put j k to c (personal_at k to b + n) b.personal,
  )

  -- A personal box that shrinks stays backed.
  pub shrink-Backed :
      (k a : Text) (left : ℕ) (b : RuneBook)
      → IsTidyMap b.personal
      → left ≤ personal_at k a b
      → Backed j c b
      → Backed j c (set_personal k a left b)
  shrink-Backed k a left b tidy le h = ground (
    arith,
    text_eq_iff k j,
    text_eq_iff a c,
    at-put j k a c left b.personal,
    at-drop j k a c b.personal tidy,
  )

  pub move-Backed :
      (k from to : Text) (n : ℕ) (b : RuneBook)
      → n ≤ balance_at k from b
      → personal_at k from b + n ≤ balance_at k from b + exit_amount (at k from b.locks)
      → Backed j c b
      → Backed j c (move k from to n b)
  unfolding move
  move-Backed k from to n b le gate h =
      let mm = put k from (balance_at k from b - n) b.balances in
      ground (
        arith,
        text_eq_iff k j,
        text_eq_iff from c,
        text_eq_iff to c,
        text_eq_iff from to,
        text_eq_refl k,
        at-put j k from c (balance_at k from b - n) b.balances,
        at-put k k from to (balance_at k from b - n) b.balances,
        at-put j k to c (balance_at k to (record b { balances = mm }) + n) mm,
      )

  pub lock_up-Backed :
      (k : Text) (p : PendingExit) (b : RuneBook)
      → at k p.address b.locks ≡ none
      → p.amount ≤ balance_at k p.address b
      → Backed j c b
      → Backed j c (lock_up k p b)
  unfolding lock_up
  lock_up-Backed k p b free le h = ground (
    arith,
    text_eq_iff k j,
    text_eq_iff p.address c,
    at-put j k p.address c (balance_at k p.address b - p.amount) b.balances,
    at-put j k p.address c p b.locks,
  )

  pub relock-Backed :
      (k a : Text) (p q : PendingExit) (b : RuneBook)
      → at k a b.locks ≡ some q
      → p.amount ≡ q.amount
      → Backed j c b
      → Backed j c (relock k a p b)
  relock-Backed k a p q b o e h =
      ground (arith, text_eq_iff k j, text_eq_iff a c, at-put j k a c p b.locks)

  pub give_back-Backed :
      (k a : Text) (p : PendingExit) (b : RuneBook)
      → at k a b.locks ≡ some p
      → Backed j c b
      → Backed j c (give_back k a p.amount b)
  unfolding give_back
  give_back-Backed k a p b o h = ground (
    arith,
    text_eq_iff k j,
    text_eq_iff a c,
    at-put j k a c (balance_at k a b + p.amount) b.balances,
    at-drop_ne j k a c b.locks,
  )

  pub settled-Backed :
      (k a dk l1 : Text) (p : PendingExit) (b : RuneBook)
      → IsTidyMap b.personal
      → at k a b.locks ≡ some p
      → Backed j c b
      → Backed j c (burn k a p.amount (mark_settled k a dk l1 b))
  unfolding burn mark_settled
  settled-Backed k a dk l1 p b tidy o h = ground (
    arith,
    text_eq_iff k j,
    text_eq_iff a c,
    at-drop_ne j k a c b.locks,
    at-touch j k c b.personal,
    at-put j k a c (personal_at k a b - p.amount) b.personal,
    at-drop j k a c b.personal tidy,
  )
