-- ===== src/Protocol/Runestone/Allocation/Places.antt =====
-- Where the runes of an allocation land (runestone.ts).
use kray_node.Base.{
  ℕ, ◌+◌, ◌-◌, ◌≤◌, ◌<◌, ◌≡◌, false, Option, none, some, List, [], ◌∷◌, arith, ltb, if◌then◌else◌,
  length, get_elem?, All, Option-cases, inl, inr,
}
use kray_node.Base.Map.{nat_key, get_or, set}
use kray_node.Protocol.Runestone.Artifact.{RuneId, Artifact, runestone, cenotaph}
use kray_node.Protocol.Runestone.Allocation.{
  AllocationInput, rune_id_key, RuneBalance, Outputs, Allocation, add_balance, burn_all,
  is_op_return, give, spread_evenly, spread_clamped, sweep, finish, eligible_from,
  allocate_runestone, allocate,
}

-- The output is one of the transaction's, and it can be spent.
abbrev pub IsSpendable : List (List ℕ) → ℕ × List RuneBalance → Type 0
IsSpendable scripts (out, bs) = elim (get_elem? scripts out) [
  | none ↦ ⊥
  | some s ↦ is_op_return s ≡ false
]

sweep-IsSpendable :
    (scripts : List (List ℕ)) (o : Outputs) (a : Allocation)
    → sweep scripts o ≡ some a
    → All (IsSpendable scripts) a.outputs
unfolding sweep
sweep-IsSpendable scripts [] a h = ground (arith, h)
sweep-IsSpendable scripts ((out, bs) ∷ o) a h = elim (Option-cases (sweep scripts o)) [
  | inl e ↦ ground (arith, e, h)
  | inr (rest, e) ↦ elim (Option-cases (get_elem? scripts out)) [
    | inl f ↦ ground (arith, e, f, h)
    | inr (s, f) ↦ ground (arith, e, f, h, sweep-IsSpendable scripts o rest e)
  ]
]

finish-IsSpendable :
    (scripts : List (List ℕ)) (landed a : Allocation)
    → finish scripts landed ≡ some a
    → All (IsSpendable scripts) a.outputs
finish-IsSpendable scripts landed a h = elim (Option-cases (sweep scripts landed.outputs)) [
  | inl e ↦ ground (arith, e, h)
  | inr (rest, e) ↦ ground (arith, e, h, sweep-IsSpendable scripts landed.outputs rest e)
]

-- Every output that an allocation fills is one of the transaction's outputs and no OP_RETURN.
pub allocate-IsSpendable :
    (artifact : Option Artifact) (input : AllocationInput) (a : Allocation)
    → allocate artifact input ≡ some a
    → All (IsSpendable input.output_scripts) a.outputs
unfolding allocate allocate_runestone burn_all
allocate-IsSpendable none input a h = finish-IsSpendable input.output_scripts _ a h
allocate-IsSpendable (some (cenotaph c)) input a h = ground (arith, h)
allocate-IsSpendable (some (runestone r)) input a h = finish-IsSpendable input.output_scripts _ a h

-- Each output is below `n`.
abbrev pub IsPlaced : ℕ → ℕ × List RuneBalance → Type 0
IsPlaced n (out, bs) = out < n

set-IsPlaced :
    (n out : ℕ) (bs : List RuneBalance) (o : Outputs)
    → out < n
    → All (IsPlaced n) o
    → All (IsPlaced n) (set out bs o)
unfolding set
set-IsPlaced n out bs [] lt h = ground (arith, lt)
set-IsPlaced n out bs ((i, cs) ∷ o) lt h = ground (arith, lt, h, set-IsPlaced n out bs o lt)

pub give-IsPlaced :
    (n out : ℕ) (id : RuneId) (amount : ℕ) (o : Outputs)
    → out < n
    → All (IsPlaced n) o
    → All (IsPlaced n) (give out id amount o)
unfolding give
give-IsPlaced n out id amount o lt h =
    ground (arith, h, set-IsPlaced n out (add_balance id amount (get_or [] out o)) o lt h)

abbrev pub IsBelow : ℕ → ℕ → Type 0
IsBelow n i = i < n

pub eligible_from-IsBelow :
    (n i : ℕ) (scripts : List (List ℕ))
    → i + length scripts ≤ n
    → All (IsBelow n) (eligible_from i scripts)
unfolding eligible_from
eligible_from-IsBelow n i [] le = tt
eligible_from-IsBelow n i (s ∷ scripts) le =
    ground (arith, le, eligible_from-IsBelow n (i + 1) scripts)

pub spread_evenly-IsPlaced :
    (n : ℕ) (id : RuneId) (per rest : ℕ) (outs : List ℕ) (o : Outputs)
    → All (IsBelow n) outs
    → All (IsPlaced n) o
    → All (IsPlaced n) (spread_evenly id per rest outs o)
unfolding spread_evenly
spread_evenly-IsPlaced n id per rest [] o below h = h
spread_evenly-IsPlaced n id per rest (out ∷ outs) o (lt, below) h =
    let m = per + (if ltb 0 rest then 1 else 0) in
    spread_evenly-IsPlaced n id per (rest - 1) outs (give out id m o) below
      (give-IsPlaced n out id m o lt h)

pub spread_clamped-IsPlaced :
    (n : ℕ) (id : RuneId) (amount left : ℕ) (outs : List ℕ) (o : Outputs)
    → All (IsBelow n) outs
    → All (IsPlaced n) o
    → All (IsPlaced n) (spread_clamped id amount left outs o).0
unfolding spread_clamped
spread_clamped-IsPlaced n id amount left [] o below h = h
spread_clamped-IsPlaced n id amount left (out ∷ outs) o (lt, below) h =
    let m = if ltb amount left then amount else left in
    let o' = give out id m o in
    let here = give-IsPlaced n out id m o lt h in
    ground (arith, here, spread_clamped-IsPlaced n id amount (left - m) outs o' below here)
