-- ===== src/Economics/RuneBook/Outcomes.antt =====
-- Each method of the rune book is all or nothing: a refusal leaves every observation as it was, and a
-- success makes exactly the method's writes.
pub mod Exits
use kray_node.Base.{
  ℕ, ◌+◌, ◌-◌, ◌≤◌, ◌<◌, ◌≡◌, refl, ◌≢◌, Bool, true, false, Option, none, some, List, [], ◌∷◌,
  arith, inl, inr, Bool-cases, Option-cases, ltb, if◌then◌else◌, not, ◌&&◌,
}
use kray_node.Base.Text.{Text, text_eq, text_eq_iff, is_blank}
use kray_node.Base.Map.{text_key, set, get-set, member}
use kray_node.Base.Result.{Result, ok, err}
use kray_node.Protocol.Runestone.Artifact.{RuneId}
use kray_node.Economics.RuneKey.{rune_key}
use kray_node.Economics.RuneBook.NestedMap.{at, at-touch}
use kray_node.Economics.RuneBook.State.{
  RuneBook, PendingExit, Refusal, insolvent, empty_book, credits, locked, reserve_at, balance_at,
  personal_at, assert_solvent, reach_locks, reach_balances, reach_personal,
}
use kray_node.Economics.RuneBook.Moves.{credit, deposit, rehomed, rehome, rehome_take, move, send}
use kray_node.Economics.RuneBook.Exits.{
  lock_up, relock, request_exit, arm, arm_exit, give_back, cancel_exit, mark_settled, burn,
  settle_exit, delivery,
}
use kray_node.Economics.RuneBook.Solvency.{
  IsSolvent, credit-IsSolvent, assert_solvent-IsSolvent, reach_balances-IsSolvent,
  reach_locks-IsSolvent, move-IsSolvent, reach_personal-IsSolvent, rehomed-IsSolvent,
  lock_up-IsSolvent, relock-IsSolvent, amount-arm, give_back-IsSolvent, lock-le-reserve,
  settled-IsSolvent, reserve_at-mark_settled,
}

-- Two books that no reader can tell apart.
unfoldable pub SameView : RuneBook → RuneBook → Type 0
SameView b c =
    ((k a : Text) → at k a c.balances ≡ at k a b.balances)
    × ((k a : Text) → at k a c.locks ≡ at k a b.locks)
    × ((k a : Text) → at k a c.personal ≡ at k a b.personal)
    × (c.reserves ≡ b.reserves)
    × (c.credited ≡ b.credited)
    × (c.settled ≡ b.settled)
    × (c.delivered_tx ≡ b.delivered_tx)
    × (c.rehomed_runes ≡ b.rehomed_runes)

-- How a call that began at `b` ended: refused with nothing changed, or with the value `a` in the book
-- `c`, where `Facts` is what its guards have let through.
abbrev pub Outcome :
    {A : Type 0} → Result Refusal A × RuneBook → RuneBook → A → RuneBook → Type 0 → Type 0
Outcome (err e, b') b a c Facts = SameView b b'
Outcome (ok a', b') b a c Facts = (a' ≡ a) × (b' ≡ c) × Facts

pub SameView-refl : (b : RuneBook) → SameView b b
unfolding SameView
SameView-refl b = (λ k a. refl, λ k a. refl, λ k a. refl, refl, refl, refl, refl, refl)

reach_balances-SameView : (j : Text) (b : RuneBook) → SameView b (reach_balances j b)
unfolding SameView
reach_balances-SameView j b =
    (λ k a. at-touch k j a b.balances, λ k a. refl, λ k a. refl, refl, refl, refl, refl, refl)

pub reach_locks-SameView : (j : Text) (b : RuneBook) → SameView b (reach_locks j b)
unfolding SameView
reach_locks-SameView j b =
    (λ k a. refl, λ k a. at-touch k j a b.locks, λ k a. refl, refl, refl, refl, refl, refl)

reach_personal-SameView : (j : Text) (b : RuneBook) → SameView b (reach_personal j b)
unfolding SameView
reach_personal-SameView j b =
    (λ k a. refl, λ k a. refl, λ k a. at-touch k j a b.personal, refl, refl, refl, refl, refl)

reach_both-SameView : (j : Text) (b : RuneBook) → SameView b (reach_balances j (reach_locks j b))
unfolding SameView
reach_both-SameView j b = (
  λ k a. at-touch k j a b.balances,
  λ k a. at-touch k j a b.locks,
  λ k a. refl,
  refl,
  refl,
  refl,
  refl,
  refl,
)

abbrev pub new_exit : Text → ℕ → Text → ℕ → PendingExit
new_exit from n l1 when = record {
  address = from;
  amount = n;
  l1_address = l1;
  placed_at = when;
  armed = false;
  bound_vault = none;
}

module _ (rune : RuneId) (b : RuneBook) (h : IsSolvent b) where
  pub deposit_outcome :
      (o to : Text) (n : ℕ) (pool : Bool)
      → let k = rune_key rune in
        Outcome
          (deposit rune o n to pool b)
          b
          tt
          (credit k o n to pool b)
          ((0 < n) × (is_blank to ≡ false) × (member o b.credited ≡ false))
  unfolding deposit
  deposit_outcome o to n pool =
      let k = rune_key rune in
      let c = credit k o n to pool b in
      ground
        (arith, SameView-refl b, assert_solvent-IsSolvent k c (credit-IsSolvent k o to n pool b h))

  pub rehome_outcome :
      (a : Text) (n : Option ℕ)
      → let k = rune_key rune in
        let had = personal_at k a (reach_personal k b) in
        let take = rehome_take had n in
        Outcome
          (rehome rune a n b)
          b
          take
          (rehomed k a (had - take) (reach_personal k b))
          (0 < take)
  unfolding rehome IsSolvent
  rehome_outcome a n =
      let k = rune_key rune in
      let b1 = reach_personal k b in
      let had = personal_at k a b1 in
      let c = rehomed k a (had - rehome_take had n) b1 in
      ground (
        arith,
        reach_personal-SameView k b,
        assert_solvent-IsSolvent k c (rehomed-IsSolvent k a (had - rehome_take had n) b1 h),
      )

  pub send_outcome :
      (from to : Text) (n : ℕ)
      → let k = rune_key rune in
        let b1 = reach_balances k b in
        Outcome
          (send rune from to n b)
          b
          tt
          (move k from to n b1)
          ((0 < n) × (text_eq from to ≡ false) × (n ≤ balance_at k from b1))
  unfolding send
  send_outcome from to n =
      let k = rune_key rune in
      let b1 = reach_balances k b in
      ground (
        arith,
        SameView-refl b,
        reach_balances-SameView k b,
        reach_balances-IsSolvent k b h,
        move-IsSolvent k from to n b1,
        assert_solvent-IsSolvent k (move k from to n b1),
      )

  pub request_exit_outcome :
      (from : Text) (n : ℕ) (l1 : Text) (when : ℕ)
      → let k = rune_key rune in
        let b2 = reach_balances k (reach_locks k b) in
        Outcome
          (request_exit rune from n l1 when b)
          b
          tt
          (lock_up k (new_exit from n l1 when) b2)
          ((0 < n) × (at k from b2.locks ≡ none) × (n ≤ balance_at k from b2))
  unfolding request_exit
  request_exit_outcome from n l1 when =
      let k = rune_key rune in
      let b1 = reach_locks k b in
      let b2 = reach_balances k b1 in
      let h2 = reach_balances-IsSolvent k b1 (reach_locks-IsSolvent k b h) in
      ground (
        arith,
        SameView-refl b,
        reach_locks-SameView k b,
        reach_both-SameView k b,
        h2,
        lock_up-IsSolvent k (new_exit from n l1 when) b2,
        assert_solvent-IsSolvent k (lock_up k (new_exit from n l1 when) b2),
      )
