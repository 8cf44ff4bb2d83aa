-- ===== src/Economics/RuneBook/Solvency.antt =====
-- Every method of the rune book keeps credits plus locks equal to the reserve of every rune.
pub mod Methods
use kray_node.Base.{
  ℕ, ◌+◌, ◌-◌, ◌≤◌, ◌≡◌, refl, ◌≢◌, Bool, true, false, Option, none, some, arith, inl, inr,
  Bool-cases, Option-cases, ltb, if◌then◌else◌,
}
use kray_node.Base.Text.{Text, text_eq, text_eq_iff}
use kray_node.Base.Map.{text_key, set, get-set, member}
use kray_node.Base.Result.{Result, ok, err}
use kray_node.Protocol.Runestone.Artifact.{RuneId}
use kray_node.Economics.RuneKey.{rune_key}
use kray_node.Economics.RuneBook.NestedMap.{
  at, put, at-touch, at-put, total-touch, total-put, total-drop, amount_at-le-total,
}
use kray_node.Economics.RuneBook.State.{
  RuneBook, PendingExit, Refusal, insolvent, empty_book, same_amount, credits, locked, reserve_at,
  balance_at, personal_at, solvent_for, assert_solvent, reach_locks, reach_balances, reach_personal,
}
use kray_node.Economics.RuneBook.Moves.{credit, deposit, rehomed, rehome, rehome_take, move, send}
use kray_node.Economics.RuneBook.Exits.{
  lock_up, relock, request_exit, arm, arm_exit, give_back, cancel_exit, mark_settled, burn,
  settle_exit,
}

-- Credits and locks add up to the reserve, for every rune.
unfoldable pub IsSolvent : RuneBook → Type 0
IsSolvent b = (k : Text) → credits k b + locked k b ≡ reserve_at k b

abbrev pub lock_amount : PendingExit → ℕ
lock_amount p = p.amount

-- A call kept the book solvent, and its tripwire did not fire.
abbrev pub KeepsSolvent : {A : Type 0} → Result Refusal A × RuneBook → Type 0
KeepsSolvent (r, b) = IsSolvent b × (r ≢ err insolvent)

pub credit-IsSolvent :
    (k o to : Text) (n : ℕ) (pool : Bool) (b : RuneBook)
    → IsSolvent b
    → IsSolvent (credit k o n to pool b)
unfolding IsSolvent credit
credit-IsSolvent k o to n pool b h j = ground (
  arith,
  h j,
  text_eq_iff k j,
  total-put same_amount j k to (balance_at k to b + n) b.balances,
  get-set j k (reserve_at k b + n) b.reserves,
)

pub assert_solvent-IsSolvent :
    (k : Text) (b : RuneBook) → IsSolvent b → assert_solvent k b ≡ (ok tt, b)
unfolding IsSolvent assert_solvent solvent_for
assert_solvent-IsSolvent k b h = ground (arith, h k)

pub reach_balances-IsSolvent :
    (k : Text) (b : RuneBook) → IsSolvent b → IsSolvent (reach_balances k b)
unfolding IsSolvent
reach_balances-IsSolvent k b h j = ground (arith, h j, total-touch same_amount j k b.balances)

pub reach_locks-IsSolvent : (k : Text) (b : RuneBook) → IsSolvent b → IsSolvent (reach_locks k b)
unfolding IsSolvent
reach_locks-IsSolvent k b h j = ground (arith, h j, total-touch lock_amount j k b.locks)

pub move-IsSolvent :
    (k from to : Text) (n : ℕ) (b : RuneBook)
    → n ≤ balance_at k from b
    → IsSolvent b
    → IsSolvent (move k from to n b)
unfolding IsSolvent move
move-IsSolvent k from to n b le h j =
    let mm = put k from (balance_at k from b - n) b.balances in
    ground (
      arith,
      h j,
      text_eq_iff k j,
      total-put same_amount j k from (balance_at k from b - n) b.balances,
      total-put same_amount j k to (balance_at k to (record b { balances = mm }) + n) mm,
    )

pub reach_personal-IsSolvent :
    (k : Text) (b : RuneBook) → IsSolvent b → IsSolvent (reach_personal k b)
unfolding IsSolvent
reach_personal-IsSolvent k b h = h

pub rehomed-IsSolvent :
    (k a : Text) (left : ℕ) (b : RuneBook) → IsSolvent b → IsSolvent (rehomed k a left b)
unfolding IsSolvent rehomed
rehomed-IsSolvent k a left b h = h

pub lock_up-IsSolvent :
    (k : Text) (p : PendingExit) (b : RuneBook)
    → at k p.address b.locks ≡ none
    → p.amount ≤ balance_at k p.address b
    → IsSolvent b
    → IsSolvent (lock_up k p b)
unfolding IsSolvent lock_up
lock_up-IsSolvent k p b free le h j = ground (
  arith,
  h j,
  text_eq_iff k j,
  total-put same_amount j k p.address (balance_at k p.address b - p.amount) b.balances,
  total-put lock_amount j k p.address p b.locks,
)

pub relock-IsSolvent :
    (k a : Text) (p q : PendingExit) (b : RuneBook)
    → at k a b.locks ≡ some q
    → p.amount ≡ q.amount
    → IsSolvent b
    → IsSolvent (relock k a p b)
unfolding IsSolvent
relock-IsSolvent k a p q b open_exit e h j =
    ground (arith, h j, text_eq_iff k j, total-put lock_amount j k a p b.locks)

pub amount-arm : (p : PendingExit) (vault : Option Text) → (arm p vault).amount ≡ p.amount
unfolding arm
amount-arm p none = refl
amount-arm p (some v) = refl

pub give_back-IsSolvent :
    (k a : Text) (p : PendingExit) (b : RuneBook)
    → at k a b.locks ≡ some p
    → IsSolvent b
    → IsSolvent (give_back k a p.amount b)
unfolding IsSolvent give_back
give_back-IsSolvent k a p b open_exit h j = ground (
  arith,
  h j,
  text_eq_iff k j,
  total-put same_amount j k a (balance_at k a b + p.amount) b.balances,
  total-drop lock_amount j k a b.locks,
)

-- A solvent book's reserve covers every lock.
pub lock-le-reserve :
    (k a : Text) (p : PendingExit) (b : RuneBook)
    → at k a b.locks ≡ some p
    → IsSolvent b
    → p.amount ≤ reserve_at k b
unfolding IsSolvent
lock-le-reserve k a p b open_exit h =
    ground (arith, h k, amount_at-le-total lock_amount k a b.locks)

pub settled-IsSolvent :
    (k a dk l1 : Text) (p : PendingExit) (b : RuneBook)
    → at k a b.locks ≡ some p
    → IsSolvent b
    → IsSolvent (burn k a p.amount (mark_settled k a dk l1 b))
unfolding IsSolvent mark_settled burn
settled-IsSolvent k a dk l1 p b open_exit h j = ground (
  arith,
  h j,
  text_eq_iff k j,
  total-drop lock_amount j k a b.locks,
  get-set j k (reserve_at k b - p.amount) b.reserves,
  lock-le-reserve k a p b open_exit h,
)

-- Marking a delivery leaves the reserve alone.
pub reserve_at-mark_settled :
    (k a dk l1 : Text) (b : RuneBook) → reserve_at k (mark_settled k a dk l1 b) ≡ reserve_at k b
unfolding mark_settled
reserve_at-mark_settled k a dk l1 b = refl
