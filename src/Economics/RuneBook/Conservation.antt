-- ===== src/Economics/RuneBook/Conservation.antt =====
-- The books of a rune balance over any journal.
use kray_node.Base.{ℕ, ◌+◌, ◌≡◌, refl, true, List, [], ◌∷◌, arith, inl, inr, Option-cases}
use kray_node.Base.Text.{Text}
use kray_node.Base.Map.{text_key, get, sum_values}
use kray_node.Economics.RuneBook.NestedMap.{total}
use kray_node.Economics.RuneBook.State.{
  RuneBook, empty_book, credits, locked, solvent_for, reserve_at,
}
use kray_node.Economics.RuneBook.Moves.{rehomed, move}
use kray_node.Economics.RuneBook.Exits.{lock_up, give_back}
use kray_node.Economics.RuneBook.Journal.{
  Act, deposit_act, rehome_act, send_act, request_act, arm_act, cancel_act, settle_act, apply,
  replay, minted, burned, all_minted, all_burned,
}
use kray_node.Economics.RuneBook.Solvency.{IsSolvent}
use kray_node.Economics.RuneBook.Outcomes.{
  SameView, rehome_outcome, send_outcome, request_exit_outcome,
}
use kray_node.Economics.RuneBook.Outcomes.Exits.{
  open_exit, arm_exit_closed, cancel_exit_closed, arm_exit_outcome, cancel_exit_outcome,
}
use kray_node.Economics.RuneBook.Flows.{deposit_flow, settle_flow, apply-KeepsSolvent}
use kray_node.Economics.RuneBook.Views.{solvent, all_solvent}

-- An act moves the reserve by what it mints or burns, and by nothing else.
apply_flow :
    (k : Text) (act : Act) (b : RuneBook)
    → IsSolvent b
    → reserve_at k (apply act b).1 + burned k act b ≡ reserve_at k b + minted k act b
unfolding apply minted burned SameView move rehomed lock_up give_back
apply_flow k (deposit_act rune o n to pool) b h =
    ground (arith, deposit_flow k rune o to n pool b h)
apply_flow k (rehome_act rune a n) b h = ground (arith, rehome_outcome rune b h a n)
apply_flow k (send_act rune from to n) b h = ground (arith, send_outcome rune b h from to n)
apply_flow k (request_act rune from n l1 when) b h =
    ground (arith, request_exit_outcome rune b h from n l1 when)
apply_flow k (arm_act rune from vault) b h = elim (Option-cases (open_exit rune from b)) [
  | inl c ↦ ground (arith, arm_exit_closed rune from b vault c)
  | inr (p, o) ↦ ground (arith, arm_exit_outcome rune from b h p vault o)
]
apply_flow k (cancel_act rune from) b h = elim (Option-cases (open_exit rune from b)) [
  | inl c ↦ ground (arith, cancel_exit_closed rune from b c)
  | inr (p, o) ↦ ground (arith, cancel_exit_outcome rune from b h p o)
]
apply_flow k (settle_act rune from n l1 key) b h =
    ground (arith, settle_flow k rune from n l1 key b h)

pub replay-IsSolvent : (acts : List Act) (b : RuneBook) → IsSolvent b → IsSolvent (replay acts b)
unfolding replay
replay-IsSolvent [] b h = h
replay-IsSolvent (act ∷ acts) b h =
    replay-IsSolvent acts (apply act b).1 (apply-KeepsSolvent act b h).0

replay_flow :
    (k : Text) (acts : List Act) (b : RuneBook)
    → IsSolvent b
    → reserve_at k (replay acts b) + all_burned k acts b ≡ reserve_at k b + all_minted k acts b
unfolding replay all_burned all_minted
replay_flow k [] b h = omega arith
replay_flow k (act ∷ acts) b h =
    let b' = (apply act b).1 in
    let h' = (apply-KeepsSolvent act b h).0 in
    omega (arith, apply_flow k act b h, replay_flow k acts b' h')

pub empty-IsSolvent : IsSolvent empty_book
unfolding IsSolvent total sum_values get
empty-IsSolvent k = refl

-- Whatever acts are replayed from the empty book, accepted or refused: what holders can spend, what
-- is locked for exits and what settlements burned add up to what deposits brought in, rune by rune.
pub replay_conserves :
    (k : Text) (acts : List Act)
    → let b = replay acts empty_book in
      credits k b + locked k b + all_burned k acts empty_book ≡ all_minted k acts empty_book
unfolding IsSolvent get
replay_conserves k acts = omega (
  arith,
  replay-IsSolvent acts empty_book empty-IsSolvent k,
  replay_flow k acts empty_book empty-IsSolvent,
)

all_solvent-IsSolvent : (m : List (Text × ℕ)) (b : RuneBook) → IsSolvent b → all_solvent m b ≡ true
unfolding all_solvent IsSolvent solvent_for
all_solvent-IsSolvent [] b h = refl
all_solvent-IsSolvent ((k, n) ∷ m) b h = ground (arith, h k, all_solvent-IsSolvent m b h)

-- After any journal the auditor's one call answers that every rune of the book is solvent.
pub solvent-replay : (acts : List Act) → solvent (replay acts empty_book) ≡ true
unfolding solvent
solvent-replay acts =
    let b = replay acts empty_book in
    all_solvent-IsSolvent b.reserves b (replay-IsSolvent acts empty_book empty-IsSolvent)
