-- ===== src/Protocol/Runestone/Allocation/Total.antt =====
-- `allocate` always returns on what `decipher` gives (runestone.ts).
use kray_node.Base.{
  ℕ, zero, suc, ◌-◌, ◌*◌, ◌/◌, ◌≤◌, ◌≡◌, ◌≢◌, Option, none, some, List, [], ◌∷◌, arith, ltb, ◌==◌,
  if◌then◌else◌, length, get_elem?, All, Option-cases, inl, inr,
}
use kray_node.Base.Map.{nat_key, get_or}
use kray_node.Protocol.Runestone.Artifact.{RuneId, Edict, Artifact, runestone, cenotaph, Runestone}
use kray_node.Protocol.Runestone.Allocation.{
  AllocationInput, rune_id_key, Outputs, Allocation, Pool, State, pour_all, pour_some, give,
  edict_id, move_edict, apply_for, apply_edicts, land, sweep, finish, first_of, target_of,
  premine_of, eligible_from, allocate_runestone, allocate,
}
use kray_node.Protocol.Runestone.Decipher.Bounds.{IsSound, IsSoundEdict, Below}
use kray_node.Protocol.Runestone.Decipher.Bounds.{decipher-IsSound}
use kray_node.Protocol.Runestone.Decipher.Artifacts.{decipher, found}
use kray_node.Protocol.Runestone.Allocation.Places.{
  IsPlaced, IsBelow, give-IsPlaced, eligible_from-IsBelow, spread_evenly-IsPlaced,
  spread_clamped-IsPlaced,
}

move_edict-IsPlaced :
    (n : ℕ) (outs : List ℕ) (id : RuneId) (have : ℕ) (e : Edict) (s : State)
    → e.output ≤ n
    → All (IsBelow n) outs
    → All (IsPlaced n) s.outputs
    → All (IsPlaced n) (move_edict n outs id have e s).outputs
unfolding move_edict
move_edict-IsPlaced n [] id have e s le below h =
    let amount = if e.amount == 0 then have else if ltb e.amount have then e.amount else have in
    ground (arith, le, h, give-IsPlaced n e.output id amount s.outputs)
move_edict-IsPlaced n (out ∷ outs) id have e s le below h =
    let amount = if e.amount == 0 then have else if ltb e.amount have then e.amount else have in
    let k = length (out ∷ outs) in
    let even =
      spread_evenly-IsPlaced n id (have / k) (have - have / k * k) (out ∷ outs) s.outputs below h in
    let clamped = spread_clamped-IsPlaced n id e.amount have (out ∷ outs) s.outputs below h in
    ground (arith, le, h, even, clamped, give-IsPlaced n e.output id amount s.outputs)

apply_for-IsPlaced :
    (n : ℕ) (outs : List ℕ) (id : Option RuneId) (e : Edict) (s : State)
    → e.output ≤ n
    → All (IsBelow n) outs
    → All (IsPlaced n) s.outputs
    → All (IsPlaced n) (apply_for n outs id e s).outputs
apply_for-IsPlaced n outs none e s le below h = h
apply_for-IsPlaced n outs (some id) e s le below h =
    move_edict-IsPlaced n outs id (get_or 0 id s.unallocated) e s le below h

apply_edicts-IsPlaced :
    (n : ℕ) (outs : List ℕ) (etched : Option RuneId) (es : List Edict) (s : State)
    → All (IsSoundEdict n) es
    → All (IsBelow n) outs
    → All (IsPlaced n) s.outputs
    → All (IsPlaced n) (apply_edicts n outs etched es s).outputs
unfolding apply_edicts
apply_edicts-IsPlaced n outs etched [] s sound below h = h
apply_edicts-IsPlaced n outs etched (e ∷ es) s (here, sound) below h =
    apply_edicts-IsPlaced n outs etched es (apply_for n outs (edict_id etched e) e s) sound below
      (apply_for-IsPlaced n outs (edict_id etched e) e s here.0 below h)

land-IsPlaced :
    (n : ℕ) (target : Option ℕ) (u : Pool) (o : Outputs)
    → Below n target
    → All (IsPlaced n) o
    → All (IsPlaced n) (land target u o).outputs
unfolding land
land-IsPlaced n target [] o lt h = h
land-IsPlaced n none ((id, m) ∷ u) o lt h = ground (arith, land-IsPlaced n none u o lt h)
land-IsPlaced n (some out) ((id, m) ∷ u) o lt h =
    land-IsPlaced n (some out) u (give out id m o) lt (give-IsPlaced n out id m o lt h)

first_of-Below : (n : ℕ) (outs : List ℕ) → All (IsBelow n) outs → Below n (first_of outs)
first_of-Below n [] h = tt
first_of-Below n (i ∷ is) h = h.0

target_of-Below :
    (n : ℕ) (p : Option ℕ) (outs : List ℕ)
    → Below n p
    → All (IsBelow n) outs
    → Below n (target_of p outs)
target_of-Below n none outs lt h = first_of-Below n outs h
target_of-Below n (some p) outs lt h = lt

get_elem?-none : {A : Type 0} (xs : List A) (n : ℕ) → get_elem? xs n ≡ none → length xs ≤ n
get_elem?-none [] n h = omega arith
get_elem?-none (x ∷ xs) zero h = cc
get_elem?-none (x ∷ xs) (suc n) h = omega (arith, get_elem?-none xs n h)

sweep_total :
    (scripts : List (List ℕ)) (o : Outputs)
    → All (IsPlaced (length scripts)) o
    → sweep scripts o ≢ none
unfolding sweep
sweep_total scripts [] h = λ e. cc
sweep_total scripts ((out, bs) ∷ o) (lt, h) = λ e. elim (Option-cases (sweep scripts o)) [
  | inl f ↦ sweep_total scripts o h f
  | inr (rest, f) ↦ elim (Option-cases (get_elem? scripts out)) [
    | inl g ↦ absurd (omega (arith, get_elem?-none scripts out g))
    | inr (s, g) ↦ ground (arith, e, f, g)
  ]
]

finish_total :
    (scripts : List (List ℕ)) (landed : Allocation)
    → All (IsPlaced (length scripts)) landed.outputs
    → finish scripts landed ≢ none
finish_total scripts landed h = λ e. elim (Option-cases (sweep scripts landed.outputs)) [
  | inl f ↦ sweep_total scripts landed.outputs h f
  | inr (rest, f) ↦ ground (arith, e, f)
]

allocate_sound :
    (r : Runestone) (input : AllocationInput)
    → IsSound (length input.output_scripts) r
    → allocate (some (runestone r)) input ≢ none
unfolding allocate allocate_runestone
allocate_sound r input sound =
    let n = length input.output_scripts in
    let outs = eligible_from 0 input.output_scripts in
    let below = eligible_from-IsBelow n 0 input.output_scripts (omega arith) in
    let minted = pour_some r.mint input.mint_amount (pour_all input.inputs []) in
    let start = pour_some input.etched_id (premine_of r.etching) minted in
    let s0 : State = record { outputs = []; unallocated = start } in
    let s = apply_edicts n outs input.etched_id r.edicts s0 in
    let placed =
      apply_edicts-IsPlaced n outs input.etched_id r.edicts s0 sound.edicts_sound below tt in
    let target = target_of-Below n r.pointer outs sound.pointer_below below in
    finish_total input.output_scripts (land (target_of r.pointer outs) s.unallocated s.outputs)
      (land-IsPlaced n (target_of r.pointer outs) s.unallocated s.outputs target placed)

-- On what `decipher` makes of the outputs of a transaction, `allocate` with the same outputs always
-- returns: no edict and no pointer leads to an output that is not there.
pub allocate-decipher :
    (rounds : ℕ) (artifact : Artifact) (input : AllocationInput)
    → decipher rounds input.output_scripts ≡ found artifact
    → allocate (some artifact) input ≢ none
allocate-decipher rounds (runestone r) input h =
    allocate_sound r input (decipher-IsSound rounds input.output_scripts r h)
allocate-decipher rounds (cenotaph c) input h = unfold allocate in λ e. cc
