-- ===== src/Economics/RuneBook/Returns.antt =====
-- An exit that is cancelled gives everything back, and an armed one cannot be (rune-book.ts).
use kray_node.Base.{
  ◌&&◌, ℕ, ◌+◌, ◌-◌, ◌≤◌, ◌≡◌, refl, true, Option, none, some, arith, inl, inr, Option-cases,
  if◌then◌else◌,
}
use mathlib.Core.Path.{subst}
use kray_node.Base.Text.{Text, text_eq, text_eq_iff, text_eq_refl}
use kray_node.Base.Map.{text_key}
use kray_node.Base.Result.{ok, err}
use kray_node.Protocol.Runestone.Artifact.{RuneId}
use kray_node.Economics.RuneKey.{rune_key}
use kray_node.Economics.RuneBook.NestedMap.{
  touch, put, at-put, at-drop, at-touch, IsTidyMap, touch-IsTidyMap, at,
}
use kray_node.Economics.RuneBook.State.{
  RuneBook, PendingExit, armed_exit, balance_at, reach_locks, reach_balances,
}
use kray_node.Economics.RuneBook.Exits.{
  lock_up, relock, request_exit, arm, arm_exit, give_back, cancel_exit,
}
use kray_node.Economics.RuneBook.Journal.{request_act, apply}
use kray_node.Economics.RuneBook.Solvency.{IsSolvent}
use kray_node.Economics.RuneBook.Outcomes.{request_exit_outcome, new_exit}
use kray_node.Economics.RuneBook.Outcomes.Exits.{
  open_exit, arm_exit_closed, arm_exit_outcome, cancel_exit_unarmed,
}
use kray_node.Economics.RuneBook.Solvency.Methods.{request_exit-KeepsSolvent}
use kray_node.Economics.RuneBook.Tidy.{IsTidy, apply-IsTidy}

apply-request_act-IsTidy :
    (rune : RuneId) (from : Text) (n : ℕ) (l1 : Text) (when : ℕ) (b : RuneBook)
    → IsTidy b
    → IsTidy (request_exit rune from n l1 when b).1
unfolding apply
apply-request_act-IsTidy rune from n l1 when b t =
    apply-IsTidy (request_act rune from n l1 when) b t

-- The book after a request, as far as a cancellation sees it.
locked_up :
    (k j c : Text) (p : PendingExit) (b : RuneBook)
    → IsTidyMap b.locks
    → let b' = lock_up k p (reach_balances k (reach_locks k b)) in
      (at k p.address (touch k b'.locks) ≡ some p)
      × (at j c b'.locks ≡ (if text_eq k j && text_eq p.address c then some p else at j c b.locks))
      × (balance_at j c b' ≡ (
          if text_eq k j && text_eq p.address c
          then balance_at j c b - p.amount
          else balance_at j c b))
unfolding lock_up
locked_up k j c p b tidy =
    let b2 = reach_balances k (reach_locks k b) in
    ground (
      arith,
      text_eq_iff k j,
      text_eq_iff p.address c,
      text_eq_refl k,
      text_eq_refl p.address,
      at-touch j k c b.locks,
      at-touch k k p.address (put k p.address p b2.locks),
      at-put j k p.address c p b2.locks,
      at-put k k p.address p.address p b2.locks,
      at-touch j k c b.balances,
      at-touch k k p.address b.balances,
      at-put j k p.address c (balance_at k p.address b2 - p.amount) b2.balances,
    )

given_back :
    (k j c a : Text) (n : ℕ) (b : RuneBook)
    → IsTidyMap b.locks
    → let b' = give_back k a n (reach_locks k b) in
      (at j c b'.locks ≡ (if text_eq k j && text_eq a c then none else at j c b.locks))
      × (balance_at j c b'
          ≡ (if text_eq k j && text_eq a c then balance_at j c b + n else balance_at j c b))
unfolding give_back
given_back k j c a n b tidy = ground (
  arith,
  text_eq_iff k j,
  text_eq_iff a c,
  at-touch j k c b.locks,
  touch-IsTidyMap k b.locks tidy,
  at-drop j k a c (touch k b.locks),
  at-put j k a c (balance_at k a b + n) b.balances,
)

request_exit_done :
    (rune : RuneId) (from : Text) (n : ℕ) (l1 : Text) (when : ℕ) (b : RuneBook)
    → IsSolvent b
    → (request_exit rune from n l1 when b).0 ≡ ok tt
    → let k = rune_key rune in
      ((request_exit rune from n l1 when b).1
        ≡ lock_up k (new_exit from n l1 when) (reach_balances k (reach_locks k b)))
      × (at k from b.locks ≡ none)
      × (n ≤ balance_at k from b)
request_exit_done rune from n l1 when b s done =
    let k = rune_key rune in
    ground (
      arith,
      request_exit_outcome rune b s from n l1 when,
      at-touch k k from b.locks,
      at-touch k k from b.balances,
    )

locks_tidy : (b : RuneBook) → IsTidy b → IsTidyMap b.locks
unfolding IsTidy
locks_tidy b h = h.0

-- In a solvent and tidy book, an exit that is requested and then cancelled leaves every balance and
-- every open exit as before.
pub cancel_exit-request_exit :
    (rune : RuneId) (from : Text) (n : ℕ) (l1 : Text) (when : ℕ) (b : RuneBook) (j c : Text)
    → IsSolvent b
    → IsTidy b
    → (request_exit rune from n l1 when b).0 ≡ ok tt
    → let (r, b') = cancel_exit rune from (request_exit rune from n l1 when b).1 in
      (r ≡ ok tt) × (balance_at j c b' ≡ balance_at j c b) × (at j c b'.locks ≡ at j c b.locks)
cancel_exit-request_exit rune from n l1 when b j c s tidy done =
    let k = rune_key rune in
    let p = new_exit from n l1 when in
    let c1 = lock_up k p (reach_balances k (reach_locks k b)) in
    let (e, free, le) = request_exit_done rune from n l1 when b s done in
    let up = locked_up k j c p b (locks_tidy b tidy) in
    let s1 : IsSolvent c1 =
      subst IsSolvent e (request_exit-KeepsSolvent rune from n l1 when b s).0 in
    let t1 : IsTidy c1 = subst IsTidy e (apply-request_act-IsTidy rune from n l1 when b tidy) in
    rw e (
      ground (
        arith,
        up,
        free,
        le,
        text_eq_iff k j,
        text_eq_iff from c,
        given_back k j c from n c1 (locks_tidy c1 t1),
        cancel_exit_unarmed rune from c1 s1 p up.0 refl,
      ))

armed-arm : (p : PendingExit) (vault : Option Text) → (arm p vault).armed ≡ true
unfolding arm
armed-arm p none = refl
armed-arm p (some v) = refl

cancel_armed :
    (rune : RuneId) (from : Text) (q : PendingExit) (b : RuneBook)
    → q.armed ≡ true
    → (cancel_exit rune from (relock (rune_key rune) from q b)).0 ≡ err armed_exit
unfolding cancel_exit
cancel_armed rune from q b armed =
    let k = rune_key rune in
    ground (
      arith,
      text_eq_refl k,
      text_eq_refl from,
      at-put k k from from q b.locks,
      at-touch k k from (put k from q b.locks),
    )

-- In a solvent book, an exit that was just armed cannot be cancelled.
pub cancel_exit-arm_exit :
    (rune : RuneId) (from : Text) (vault : Option Text) (b : RuneBook)
    → IsSolvent b
    → (arm_exit rune from vault b).0 ≡ ok tt
    → (cancel_exit rune from (arm_exit rune from vault b).1).0 ≡ err armed_exit
cancel_exit-arm_exit rune from vault b s done =
    let k = rune_key rune in
    elim (Option-cases (open_exit rune from b)) [
      | inl closed ↦ ground (arith, arm_exit_closed rune from b vault closed)
      | inr (p, o) ↦ ground (
        arith,
        arm_exit_outcome rune from b s p vault o,
        cancel_armed rune from (arm p vault) (reach_locks k b) (armed-arm p vault),
      )
    ]
