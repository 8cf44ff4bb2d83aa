-- ===== src/Protocol/Runestone/Allocation/Conservation.antt =====
-- The transfer law neither invents nor loses a unit of any rune (runestone.ts).
use kray_node.Base.{
  ℕ, ◌+◌, ◌-◌, ◌*◌, ◌/◌, ◌≤◌, ◌≡◌, refl, ap, ◌∙◌, Option, none, some, List, [], ◌∷◌, arith, ltb,
  ◌==◌, if◌then◌else◌, length, get_elem?, Option-cases, inl, inr,
}
use kray_node.Base.Map.{get_or, sum_values}
use kray_node.Protocol.Runestone.Artifact.{RuneId, Edict, Artifact, runestone, cenotaph, Runestone}
use kray_node.Protocol.Runestone.Allocation.{
  AllocationInput, rune_id_key, Outputs, Allocation, Pool, State, pour_all, pour_some, burn_all,
  give, spread_evenly, spread_clamped, edict_id, move_edict, apply_for, apply_edicts, land, sweep,
  finish, first_of, target_of, premine_of, eligible_from, allocate_runestone, allocate,
}
use kray_node.Protocol.Runestone.Allocation.Sums.{
  amount_of, in_outputs, pooled, units, units_of, amount_of-append, in_outputs-give, pooled-set,
  pooled-pour_all, pooled-pour_some, amount_of-burn_all,
}
use native.Mathlib.Nat.{div-add-mod, mod-lt}

module _ (j : RuneId) where
  spread_evenly_sum :
      (id : RuneId) (per rest : ℕ) (outs : List ℕ) (o : Outputs)
      → rest ≤ length outs
      → in_outputs j (spread_evenly id per rest outs o)
        ≡ in_outputs j o + units j id (per * length outs + rest)
  unfolding spread_evenly
  spread_evenly_sum id per rest [] o le = ground (arith, le)
  spread_evenly_sum id per rest (out ∷ outs) o le =
      let n = per + (if ltb 0 rest then 1 else 0) in
      ground (
        arith,
        le,
        in_outputs-give j out id n o,
        spread_evenly_sum id per (rest - 1) outs (give out id n o),
      )

  spread_clamped_sum :
      (id : RuneId) (amount left : ℕ) (outs : List ℕ) (o : Outputs)
      → let (o', l) = spread_clamped id amount left outs o in
        in_outputs j o' + units j id l ≡ in_outputs j o + units j id left
  unfolding spread_clamped
  spread_clamped_sum id amount left [] o = refl
  spread_clamped_sum id amount left (out ∷ outs) o =
      let n = if ltb amount left then amount else left in
      ground (
        arith,
        in_outputs-give j out id n o,
        spread_clamped_sum id amount (left - n) outs (give out id n o),
      )

  -- What outputs and pool hold together.
  unfoldable pub on_hand : State → ℕ
  on_hand s = in_outputs j s.outputs + pooled j s.unallocated

  move_edict_sum :
      (n : ℕ) (outs : List ℕ) (id : RuneId) (e : Edict) (s : State)
      → on_hand (move_edict n outs id (get_or 0 id s.unallocated) e s) ≡ on_hand s
  unfolding move_edict on_hand
  move_edict_sum n [] id e s =
      let have = get_or 0 id s.unallocated in
      let amount = if e.amount == 0 then have else if ltb e.amount have then e.amount else have in
      ground (
        arith,
        in_outputs-give j e.output id amount s.outputs,
        pooled-set j id (have - amount) s.unallocated,
      )
  move_edict_sum n (out ∷ outs) id e s =
      let have = get_or 0 id s.unallocated in
      let amount = if e.amount == 0 then have else if ltb e.amount have then e.amount else have in
      let k = length (out ∷ outs) in
      let (o', left) = spread_clamped id e.amount have (out ∷ outs) s.outputs in
      ground (
        arith,
        in_outputs-give j e.output id amount s.outputs,
        pooled-set j id (have - amount) s.unallocated,
        div-add-mod have k,
        mod-lt have {m = k},
        spread_evenly_sum id (have / k) (have - have / k * k) (out ∷ outs) s.outputs,
        pooled-set j id 0 s.unallocated,
        spread_clamped_sum id e.amount have (out ∷ outs) s.outputs,
        pooled-set j id left s.unallocated,
      )

  apply_for_sum :
      (n : ℕ) (outs : List ℕ) (id : Option RuneId) (e : Edict) (s : State)
      → on_hand (apply_for n outs id e s) ≡ on_hand s
  apply_for_sum n outs none e s = refl
  apply_for_sum n outs (some id) e s = move_edict_sum n outs id e s

  apply_edicts_sum :
      (n : ℕ) (outs : List ℕ) (etched : Option RuneId) (es : List Edict) (s : State)
      → on_hand (apply_edicts n outs etched es s) ≡ on_hand s
  unfolding apply_edicts
  apply_edicts_sum n outs etched [] s = refl
  apply_edicts_sum n outs etched (e ∷ es) s =
      apply_edicts_sum n outs etched es (apply_for n outs (edict_id etched e) e s)
      ∙ apply_for_sum n outs (edict_id etched e) e s

  -- What an allocation carries out and destroys.
  unfoldable pub accounted : Allocation → ℕ
  accounted a = in_outputs j a.outputs + amount_of j a.burned

  land_sum :
      (target : Option ℕ) (u : Pool) (o : Outputs)
      → accounted (land target u o) ≡ in_outputs j o + pooled j u
  unfolding land accounted pooled amount_of
  land_sum target [] o = refl
  land_sum none ((id, n) ∷ u) o = ground (arith, land_sum none u o)
  land_sum (some out) ((id, n) ∷ u) o =
      ground (arith, in_outputs-give j out id n o, land_sum (some out) u (give out id n o))

  sweep_sum :
      (scripts : List (List ℕ)) (o : Outputs) (a : Allocation)
      → sweep scripts o ≡ some a
      → accounted a ≡ in_outputs j o
  unfolding sweep accounted in_outputs amount_of sum_values
  sweep_sum scripts [] a h = ground (arith, h)
  sweep_sum scripts ((out, bs) ∷ o) a h = elim (Option-cases (sweep scripts o)) [
    | inl e ↦ ground (arith, e, h)
    | inr (rest, e) ↦ elim (Option-cases (get_elem? scripts out)) [
      | inl f ↦ ground (arith, e, f, h)
      | inr (s, f) ↦
          ground (arith, e, f, h, sweep_sum scripts o rest e, amount_of-append j bs rest.burned)
    ]
  ]

  finish_sum :
      (scripts : List (List ℕ)) (landed a : Allocation)
      → finish scripts landed ≡ some a
      → accounted a ≡ accounted landed
  unfolding accounted
  finish_sum scripts landed a h = elim (Option-cases (sweep scripts landed.outputs)) [
    | inl e ↦ ground (arith, e, h)
    | inr (rest, e) ↦ ground (
      arith,
      e,
      h,
      sweep_sum scripts landed.outputs rest e,
      amount_of-append j landed.burned rest.burned,
    )
  ]

  -- What the transaction brings into being of the rune: its mint, and its premine if it etches.
  unfoldable pub created : Option Artifact → AllocationInput → ℕ
  created none input = 0
  created (some (cenotaph c)) input = units_of j c.mint input.mint_amount
  created (some (runestone r)) input =
      units_of j r.mint input.mint_amount + units_of j input.etched_id (premine_of r.etching)

  empty_outputs : in_outputs j [] ≡ 0
  unfolding in_outputs sum_values
  empty_outputs = refl

  empty_pool : pooled j [] ≡ 0
  unfolding pooled
  empty_pool = refl

  burn_all_sum : (u : Pool) → accounted (burn_all u) ≡ pooled j u
  unfolding accounted burn_all in_outputs sum_values
  burn_all_sum u = omega (arith, amount_of-burn_all j u)

  runestone_sum :
      (input : AllocationInput) (u : Pool) (r : Runestone) (a : Allocation)
      → allocate_runestone input u r ≡ some a
      → accounted a
        ≡ pooled j u
          + (units_of j r.mint input.mint_amount
              + units_of j input.etched_id (premine_of r.etching))
  unfolding allocate_runestone on_hand
  runestone_sum input u r a h =
      let outs = eligible_from 0 input.output_scripts in
      let minted = pour_some r.mint input.mint_amount u in
      let start = pour_some input.etched_id (premine_of r.etching) minted in
      let n = length input.output_scripts in
      let s0 : State = record { outputs = []; unallocated = start } in
      let s = apply_edicts n outs input.etched_id r.edicts s0 in
      let target = target_of r.pointer outs in
      omega (
        arith,
        finish_sum input.output_scripts (land target s.unallocated s.outputs) a h,
        land_sum target s.unallocated s.outputs,
        apply_edicts_sum n outs input.etched_id r.edicts s0,
        empty_outputs,
        pooled-pour_some j r.mint input.mint_amount u,
        pooled-pour_some j input.etched_id (premine_of r.etching) minted,
      )

  -- Whatever a transaction carries, an allocation that returns accounts for every unit of every rune:
  -- what the outputs carry out and what is burned is what the inputs brought in and what is created, by
  -- the mint and, for a runestone that etches, by the premine.
  pub allocate_conserves :
      (artifact : Option Artifact) (input : AllocationInput) (a : Allocation)
      → allocate artifact input ≡ some a
      → in_outputs j a.outputs + amount_of j a.burned
        ≡ amount_of j input.inputs + created artifact input
  unfolding allocate created accounted
  allocate_conserves none input a h =
      let u = pour_all input.inputs [] in
      let target = first_of (eligible_from 0 input.output_scripts) in
      omega (
        arith,
        finish_sum input.output_scripts (land target u []) a h,
        land_sum target u [],
        empty_outputs,
        empty_pool,
        pooled-pour_all j input.inputs [],
      )
  allocate_conserves (some (cenotaph c)) input a h =
      let u = pour_all input.inputs [] in
      let v = pour_some c.mint input.mint_amount u in
      let e : burn_all v ≡ a = ground (arith, h) in
      omega (
        arith,
        ap accounted e,
        burn_all_sum v,
        empty_pool,
        pooled-pour_some j c.mint input.mint_amount u,
        pooled-pour_all j input.inputs [],
      )
  allocate_conserves (some (runestone r)) input a h =
      let u = pour_all input.inputs [] in
      omega (arith, runestone_sum input u r a h, empty_pool, pooled-pour_all j input.inputs [])
