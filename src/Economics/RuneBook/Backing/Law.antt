-- ===== src/Economics/RuneBook/Backing/Law.antt =====
-- Every act that the reducer lets through keeps every holder backed.
use kray_node.Base.{ℕ, ◌+◌, ◌-◌, ◌≤◌, List, [], ◌∷◌, arith, inl, inr, Option-cases}
use kray_node.Base.Text.{Text}
use kray_node.Base.Map.{text_key, get}
use kray_node.Protocol.Runestone.Artifact.{RuneId}
use kray_node.Economics.RuneKey.{rune_key}
use kray_node.Economics.RuneBook.NestedMap.{at-touch, IsTidyMap, at}
use kray_node.Economics.RuneBook.State.{
  RuneBook, empty_book, balance_at, personal_at, reach_locks, reach_balances, reach_personal,
}
use kray_node.Economics.RuneBook.Moves.{deposit, rehomed, rehome, rehome_take, send}
use kray_node.Economics.RuneBook.Exits.{
  request_exit, arm, arm_exit, cancel_exit, settle_exit, delivery,
}
use kray_node.Economics.RuneBook.Journal.{
  Act, deposit_act, rehome_act, send_act, request_act, arm_act, cancel_act, settle_act, apply,
  replay,
}
use kray_node.Economics.RuneBook.Solvency.{IsSolvent, amount-arm}
use kray_node.Economics.RuneBook.Outcomes.{
  deposit_outcome, rehome_outcome, send_outcome, request_exit_outcome, new_exit,
}
use kray_node.Economics.RuneBook.Outcomes.Exits.{
  open_exit, arm_exit_closed, cancel_exit_closed, settle_exit_closed, arm_exit_outcome,
  cancel_exit_outcome, settle_exit_outcome,
}
use kray_node.Economics.RuneBook.Flows.{apply-KeepsSolvent}
use kray_node.Economics.RuneBook.Tidy.{IsTidy, apply-IsTidy, reach_personal-IsTidy}
use kray_node.Economics.RuneBook.Views.{transferable_of, exit_amount}
use kray_node.Economics.RuneBook.Conservation.{empty-IsSolvent}
use kray_node.Economics.RuneBook.Tidy.{empty-IsTidy}
use kray_node.Economics.RuneBook.Backing.{
  Backed, SameView-Backed, credit-Backed, shrink-Backed, move-Backed, lock_up-Backed, relock-Backed,
  give_back-Backed, settled-Backed,
}

unfoldable pub IsBacked : RuneBook → Type 0
IsBacked b = (k a : Text) → Backed k a b

-- The reducer's gate: a transfer hands out no more than is transferable.
abbrev pub IsGated : Act → RuneBook → Type 0
IsGated (send_act rune from to n) b = n ≤ transferable_of rune from b
IsGated (deposit_act rune o n to pool) b = Unit
IsGated (rehome_act rune a n) b = Unit
IsGated (request_act rune from n l1 when) b = Unit
IsGated (arm_act rune from vault) b = Unit
IsGated (cancel_act rune from) b = Unit
IsGated (settle_act rune from n l1 key) b = Unit

personal_tidy : (b : RuneBook) → IsTidy b → IsTidyMap b.personal
unfolding IsTidy
personal_tidy b h = h.1

rehomed-Backed :
    (j c k a : Text) (left : ℕ) (b : RuneBook)
    → IsTidy b
    → left ≤ personal_at k a b
    → Backed j c b
    → Backed j c (rehomed k a left b)
unfolding rehomed IsTidy
rehomed-Backed j c k a left b tidy le h = shrink-Backed j c k a left b tidy.1 le h

-- What the gate lets through leaves the sender's personal box covered.
gate_covers :
    (rune : RuneId) (a : Text) (n : ℕ) (b : RuneBook)
    → n ≤ transferable_of rune a b
    → Backed (rune_key rune) a b
    → personal_at (rune_key rune) a b + n
      ≤ balance_at (rune_key rune) a b + exit_amount (at (rune_key rune) a b.locks)
unfolding transferable_of
gate_covers rune a n b g h = ground arith

reach_balances-Backed :
    (j c k : Text) (b : RuneBook) → Backed j c b → Backed j c (reach_balances k b)
reach_balances-Backed j c k b h = ground (arith, at-touch j k c b.balances)

reach_locks-Backed : (j c k : Text) (b : RuneBook) → Backed j c b → Backed j c (reach_locks k b)
reach_locks-Backed j c k b h = ground (arith, at-touch j k c b.locks)

-- In a solvent, tidy book an act that passes the gate leaves every address holding, open exit
-- included, at least what its personal vault backs.
pub apply-IsBacked :
    (act : Act) (b : RuneBook)
    → IsSolvent b
    → IsTidy b
    → IsGated act b
    → IsBacked b
    → IsBacked (apply act b).1
unfolding apply IsBacked
apply-IsBacked (deposit_act rune o n to pool) b s tidy g h j c =
    let b' = (deposit rune o n to pool b).1 in
    ground (
      arith,
      deposit_outcome rune b s o to n pool,
      SameView-Backed j c b b',
      credit-Backed j c (rune_key rune) o to n pool b (h j c),
      h j c,
    )
apply-IsBacked (rehome_act rune a n) b s tidy g h j c =
    let k = rune_key rune in
    let b1 = reach_personal k b in
    let had = personal_at k a b1 in
    let b' = (rehome rune a n b).1 in
    ground (
      arith,
      rehome_outcome rune b s a n,
      SameView-Backed j c b b',
      at-touch j k c b.personal,
      reach_personal-IsTidy k b tidy,
      rehomed-Backed j c k a (had - rehome_take had n) b1,
      h j c,
    )
apply-IsBacked (send_act rune from to n) b s tidy g h j c =
    let k = rune_key rune in
    let b1 = reach_balances k b in
    let b' = (send rune from to n b).1 in
    ground (
      arith,
      send_outcome rune b s from to n,
      SameView-Backed j c b b',
      at-touch k k from b.balances,
      gate_covers rune from n b g (h k from),
      move-Backed j c k from to n b1,
      reach_balances-Backed j c k b (h j c),
      h j c,
    )
apply-IsBacked (request_act rune from n l1 when) b s tidy g h j c =
    let k = rune_key rune in
    let b1 = reach_locks k b in
    let b2 = reach_balances k b1 in
    let p = new_exit from n l1 when in
    let b' = (request_exit rune from n l1 when b).1 in
    ground (
      arith,
      request_exit_outcome rune b s from n l1 when,
      SameView-Backed j c b b',
      lock_up-Backed j c k p b2,
      reach_balances-Backed j c k b1,
      reach_locks-Backed j c k b (h j c),
      h j c,
    )
apply-IsBacked (arm_act rune from vault) b s tidy g h j c =
    let k = rune_key rune in
    let b' = (arm_exit rune from vault b).1 in
    elim (Option-cases (open_exit rune from b)) [
      | inl closed ↦
          ground
            (arith, arm_exit_closed rune from b vault closed, reach_locks-Backed j c k b (h j c))
      | inr (p, o) ↦ ground (
        arith,
        arm_exit_outcome rune from b s p vault o,
        SameView-Backed j c b b',
        amount-arm p vault,
        relock-Backed j c k from (arm p vault) p (reach_locks k b) o,
        reach_locks-Backed j c k b (h j c),
        h j c,
      )
    ]
apply-IsBacked (cancel_act rune from) b s tidy g h j c =
    let k = rune_key rune in
    let b' = (cancel_exit rune from b).1 in
    elim (Option-cases (open_exit rune from b)) [
      | inl closed ↦
          ground (arith, cancel_exit_closed rune from b closed, reach_locks-Backed j c k b (h j c))
      | inr (p, o) ↦ ground (
        arith,
        cancel_exit_outcome rune from b s p o,
        SameView-Backed j c b b',
        give_back-Backed j c k from p (reach_locks k b) o,
        reach_locks-Backed j c k b (h j c),
        h j c,
      )
    ]
apply-IsBacked (settle_act rune from n l1 key) b s tidy g h j c =
    let k = rune_key rune in
    let b' = (settle_exit rune from n l1 key b).1 in
    elim (Option-cases (open_exit rune from b)) [
      | inl closed ↦ ground (
        arith,
        settle_exit_closed rune from b n l1 key closed,
        reach_locks-Backed j c k b (h j c),
      )
      | inr (p, o) ↦ ground (
        arith,
        settle_exit_outcome rune from b s p n l1 key o,
        SameView-Backed j c b b',
        settled-Backed j c k from (delivery key l1) l1 p (reach_locks k b) (personal_tidy b tidy) o,
        reach_locks-Backed j c k b (h j c),
        h j c,
      )
    ]

-- Every act of the journal passes the gate where it is replayed.
abbrev pub AllGated : List Act → RuneBook → Type 0
AllGated [] b = Unit
AllGated (act ∷ acts) b = IsGated act b × AllGated acts (apply act b).1

replay-IsBacked :
    (acts : List Act) (b : RuneBook)
    → IsSolvent b
    → IsTidy b
    → IsBacked b
    → AllGated acts b
    → IsBacked (replay acts b)
unfolding replay
replay-IsBacked [] b s tidy h g = h
replay-IsBacked (act ∷ acts) b s tidy h g =
    replay-IsBacked acts (apply act b).1 (apply-KeepsSolvent act b s).0 (apply-IsTidy act b tidy)
      (apply-IsBacked act b s tidy g.0 h) g.1

-- Over a journal from the empty book in which every transfer keeps to what is transferable, each
-- address of each rune holds, its open exit included, at least what its personal vault backs: no
-- credit depends on another holder's key.
pub replay-Backed :
    (acts : List Act) (k a : Text) → AllGated acts empty_book → Backed k a (replay acts empty_book)
unfolding IsBacked at get
replay-Backed acts k a g =
    replay-IsBacked acts empty_book empty-IsSolvent empty-IsTidy (λ j c. omega arith) g k a
