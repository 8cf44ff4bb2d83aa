-- ===== src/Economics/RuneBook/Tidy.antt =====
-- Every act keeps one entry for an address under a rune.
use kray_node.Base.{ℕ, ◌+◌, ◌-◌, ◌≡◌, refl, Bool, List, [], ◌∷◌, arith, inl, inr, Option-cases}
use kray_node.Base.Text.{Text}
use kray_node.Base.Map.{text_key, get}
use kray_node.Economics.RuneKey.{rune_key}
use kray_node.Economics.RuneBook.NestedMap.{
  IsTidyMap, touch-IsTidyMap, put-IsTidyMap, drop-IsTidyMap,
}
use kray_node.Economics.RuneBook.State.{
  RuneBook, PendingExit, empty_book, personal_at, set_personal, assert_solvent, reach_locks,
  reach_balances, reach_personal,
}
use kray_node.Economics.RuneBook.Moves.{credit, deposit, rehomed, rehome, rehome_take, move, send}
use kray_node.Economics.RuneBook.Exits.{
  lock_up, relock, request_exit, arm, arm_exit, give_back, cancel_exit, mark_settled, burn,
  settle_exit, delivery,
}
use kray_node.Economics.RuneBook.Journal.{
  Act, deposit_act, rehome_act, send_act, request_act, arm_act, cancel_act, settle_act, apply,
  replay,
}
use kray_node.Economics.RuneBook.Outcomes.{new_exit}
use kray_node.Economics.RuneBook.Outcomes.Exits.{open_exit}

-- The maps of a book have no double entries.
unfoldable pub IsTidy : RuneBook → Type 0
IsTidy b = IsTidyMap b.locks × IsTidyMap b.personal

credit-IsTidy :
    (k o to : Text) (n : ℕ) (pool : Bool) (b : RuneBook)
    → IsTidy b
    → IsTidy (credit k o n to pool b)
unfolding IsTidy credit
credit-IsTidy k o to n pool b h =
    ground (arith, put-IsTidyMap k to (personal_at k to b + n) b.personal)

set_personal-IsTidy :
    (k a : Text) (left : ℕ) (b : RuneBook) → IsTidy b → IsTidy (set_personal k a left b)
unfolding IsTidy
set_personal-IsTidy k a left b h =
    ground (arith, put-IsTidyMap k a left b.personal, drop-IsTidyMap k a b.personal)

pub reach_personal-IsTidy : (k : Text) (b : RuneBook) → IsTidy b → IsTidy (reach_personal k b)
unfolding IsTidy
reach_personal-IsTidy k b h = ground (arith, touch-IsTidyMap k b.personal)

reach_locks-IsTidy : (k : Text) (b : RuneBook) → IsTidy b → IsTidy (reach_locks k b)
unfolding IsTidy
reach_locks-IsTidy k b h = ground (arith, touch-IsTidyMap k b.locks)

reach_balances-IsTidy : (k : Text) (b : RuneBook) → IsTidy b → IsTidy (reach_balances k b)
unfolding IsTidy
reach_balances-IsTidy k b h = h

rehomed-IsTidy : (k a : Text) (left : ℕ) (b : RuneBook) → IsTidy b → IsTidy (rehomed k a left b)
unfolding rehomed IsTidy
rehomed-IsTidy k a left b h =
    ground (arith, put-IsTidyMap k a left b.personal, drop-IsTidyMap k a b.personal)

move-IsTidy : (k from to : Text) (n : ℕ) (b : RuneBook) → IsTidy b → IsTidy (move k from to n b)
unfolding IsTidy move
move-IsTidy k from to n b h = h

lock_up-IsTidy : (k : Text) (p : PendingExit) (b : RuneBook) → IsTidy b → IsTidy (lock_up k p b)
unfolding IsTidy lock_up
lock_up-IsTidy k p b h = ground (arith, put-IsTidyMap k p.address p b.locks)

relock-IsTidy : (k a : Text) (p : PendingExit) (b : RuneBook) → IsTidy b → IsTidy (relock k a p b)
unfolding IsTidy
relock-IsTidy k a p b h = ground (arith, put-IsTidyMap k a p b.locks)

give_back-IsTidy : (k a : Text) (n : ℕ) (b : RuneBook) → IsTidy b → IsTidy (give_back k a n b)
unfolding IsTidy give_back
give_back-IsTidy k a n b h = ground (arith, drop-IsTidyMap k a b.locks)

settled-IsTidy :
    (k a dk l1 : Text) (n : ℕ) (b : RuneBook)
    → IsTidy b
    → IsTidy (mark_settled k a dk l1 b) × IsTidy (burn k a n (mark_settled k a dk l1 b))
unfolding IsTidy burn mark_settled
settled-IsTidy k a dk l1 n b h = ground (
  arith,
  drop-IsTidyMap k a b.locks,
  touch-IsTidyMap k b.personal,
  put-IsTidyMap k a (personal_at k a b - n) b.personal,
  drop-IsTidyMap k a b.personal,
)

book-assert : (k : Text) (b : RuneBook) → (assert_solvent k b).1 ≡ b
unfolding assert_solvent
book-assert k b = refl

pub apply-IsTidy : (act : Act) (b : RuneBook) → IsTidy b → IsTidy (apply act b).1
unfolding apply deposit rehome send request_exit arm_exit cancel_exit settle_exit
apply-IsTidy (deposit_act rune o n to pool) b h =
    let k = rune_key rune in
    ground (arith, credit-IsTidy k o to n pool b h, book-assert k (credit k o n to pool b))
apply-IsTidy (rehome_act rune a n) b h =
    let k = rune_key rune in
    let b1 = reach_personal k b in
    let left = personal_at k a b1 - rehome_take (personal_at k a b1) n in
    ground (
      arith,
      reach_personal-IsTidy k b h,
      rehomed-IsTidy k a left b1,
      book-assert k (rehomed k a left b1),
    )
apply-IsTidy (send_act rune from to n) b h =
    let k = rune_key rune in
    let b1 = reach_balances k b in
    ground (
      arith,
      h,
      reach_balances-IsTidy k b h,
      move-IsTidy k from to n b1,
      book-assert k (move k from to n b1),
    )
apply-IsTidy (request_act rune from n l1 when) b h =
    let k = rune_key rune in
    let b1 = reach_locks k b in
    let b2 = reach_balances k b1 in
    let p = new_exit from n l1 when in
    ground (
      arith,
      h,
      reach_locks-IsTidy k b h,
      reach_balances-IsTidy k b1,
      lock_up-IsTidy k p b2,
      book-assert k (lock_up k p b2),
    )
apply-IsTidy (arm_act rune from vault) b h =
    let k = rune_key rune in
    let b1 = reach_locks k b in
    elim (Option-cases (open_exit rune from b)) [
      | inl c ↦ ground (arith, reach_locks-IsTidy k b h)
      | inr (p, o) ↦ ground (
        arith,
        reach_locks-IsTidy k b h,
        relock-IsTidy k from (arm p vault) b1,
        book-assert k (relock k from (arm p vault) b1),
      )
    ]
apply-IsTidy (cancel_act rune from) b h =
    let k = rune_key rune in
    let b1 = reach_locks k b in
    elim (Option-cases (open_exit rune from b)) [
      | inl c ↦ ground (arith, reach_locks-IsTidy k b h)
      | inr (p, o) ↦ ground (
        arith,
        reach_locks-IsTidy k b h,
        give_back-IsTidy k from p.amount b1,
        book-assert k (give_back k from p.amount b1),
      )
    ]
apply-IsTidy (settle_act rune from n l1 key) b h =
    let k = rune_key rune in
    let dk = delivery key l1 in
    let b1 = reach_locks k b in
    let c = burn k from n (mark_settled k from dk l1 b1) in
    elim (Option-cases (open_exit rune from b)) [
      | inl closed ↦ ground (arith, reach_locks-IsTidy k b h)
      | inr (p, o) ↦
          ground
            (arith, reach_locks-IsTidy k b h, settled-IsTidy k from dk l1 n b1, book-assert k c)
    ]

pub replay-IsTidy : (acts : List Act) (b : RuneBook) → IsTidy b → IsTidy (replay acts b)
unfolding replay
replay-IsTidy [] b h = h
replay-IsTidy (act ∷ acts) b h = replay-IsTidy acts (apply act b).1 (apply-IsTidy act b h)

pub empty-IsTidy : IsTidy empty_book
unfolding IsTidy IsTidyMap get
empty-IsTidy = (λ k. tt, λ k. tt)
