-- ===== src/Protocol/Runestone/Allocation.antt =====
-- `allocate` (runestone.ts): the transfer law, which runes end up in which output. The source keys the
-- unallocated runes by the text of their id, which no two ids share; here the id is the key.
use kray_node.Base.{
  ℕ, zero, suc, ◌+◌, ◌-◌, ◌*◌, ◌/◌, ◌%◌, ◌≡◌, refl, Bool, true, false, not, ◌&&◌, ◌||◌, Option,
  none, some, List, [], ◌∷◌, ◌++◌, arith, ltb, ◌==◌, if◌then◌else◌, length, get_elem?, ◌↔◌, filter,
  map,
}
use kray_node.Base.Map.{Eq, Map, nat_key, get_or, set}
use kray_node.Protocol.Runestone.Artifact.{
  RuneId, Edict, Etching, Artifact, runestone, cenotaph, Runestone,
}
pub mod Sums
pub mod Conservation
pub mod Places
pub mod Total
mod Tests

abbrev pub op_return : ℕ
op_return = 0x6a

abbrev pub same_rune : RuneId → RuneId → Bool
same_rune i j = i.block == j.block && i.tx == j.tx

pub same_rune_iff : (i j : RuneId) → (same_rune i j ≡ true) ↔ (i ≡ j)
same_rune_iff i j = ground arith

instance abbrev pub rune_id_key : Eq RuneId
rune_id_key = record { beq = same_rune; beq_iff = same_rune_iff }

pub record RuneBalance : Type 0 where
  pub id : RuneId
  pub amount : ℕ

pub record AllocationInput : Type 0 where
  pub output_scripts : List (List ℕ)
  pub inputs : List RuneBalance
  pub mint_amount : Option ℕ
  pub etched_id : Option RuneId

-- Output index to the runes that it carries out.
abbrev pub Outputs : Type 0
Outputs = Map ℕ (List RuneBalance)

pub record Allocation : Type 0 where
  pub outputs : Outputs
  pub burned : List RuneBalance

abbrev pub Pool : Type 0
Pool = Map RuneId ℕ

-- `unallocated.set(key, (unallocated.get(key) ?? 0n) + amount)`
unfoldable pub pour : RuneId → ℕ → Pool → Pool
pour id n u = set id (get_or 0 id u + n) u

unfoldable pub pour_all : List RuneBalance → Pool → Pool
pour_all [] u = u
pour_all (b ∷ bs) u = pour_all bs (pour b.id b.amount u)

-- `if (id && amount)`: an amount of 0 is as good as none.
unfoldable pub pour_some : Option RuneId → Option ℕ → Pool → Pool
pour_some none n u = u
pour_some (some id) none u = u
pour_some (some id) (some n) u = if n == 0 then u else pour id n u

abbrev pub balance_of : RuneId × ℕ → RuneBalance
balance_of (id, n) = record { id = id; amount = n }

unfoldable pub burn_all : Pool → Allocation
burn_all u = record {
  outputs = [];
  burned = map balance_of (filter (λ (e : RuneId × ℕ). ltb 0 e.1) u);
}

abbrev pub is_op_return : List ℕ → Bool
is_op_return [] = false
is_op_return (b ∷ s) = b == op_return

-- The outputs that are no OP_RETURN, from place `i` on.
unfoldable pub eligible_from : ℕ → List (List ℕ) → List ℕ
eligible_from i [] = []
eligible_from i (s ∷ scripts) =
    let rest = eligible_from (i + 1) scripts in if is_op_return s then rest else i ∷ rest

-- `found.amount += amount`, or a new entry at the end.
unfoldable pub add_balance : RuneId → ℕ → List RuneBalance → List RuneBalance
add_balance id n [] = record { id = id; amount = n } ∷ []
add_balance id n (b ∷ bs) =
    let rest = add_balance id n bs in
    if same_rune b.id id then record b { amount = b.amount + n } ∷ bs else b ∷ rest

unfoldable pub give : ℕ → RuneId → ℕ → Outputs → Outputs
give out id n o = if n == 0 then o else set out (add_balance id n (get_or [] out o)) o

-- The even spread: the remainder goes to the first outputs, one unit each.
unfoldable pub spread_evenly : RuneId → ℕ → ℕ → List ℕ → Outputs → Outputs
spread_evenly id per rest [] o = o
spread_evenly id per rest (out ∷ outs) o =
    spread_evenly id per (rest - 1) outs (give out id (per + (if ltb 0 rest then 1 else 0)) o)

-- The clamped spread, and what is left of the pile.
unfoldable pub spread_clamped : RuneId → ℕ → ℕ → List ℕ → Outputs → Outputs × ℕ
spread_clamped id amount left [] o = (o, left)
spread_clamped id amount left (out ∷ outs) o =
    let n = if ltb amount left then amount else left in
    let o' = give out id n o in
    let more = spread_clamped id amount (left - n) outs o' in
    if left - n == 0 then (o', 0) else more

pub record State : Type 0 where
  pub outputs : Outputs
  pub unallocated : Pool

-- The id 0:0 stands for the rune that is etched here.
abbrev pub edict_id : Option RuneId → Edict → Option RuneId
edict_id etched e = if e.id.block == 0 && e.id.tx == 0 then etched else some e.id

-- An edict on the rune `id`, of which there is `have`; `outs` are the eligible outputs of `n`.
unfoldable pub move_edict : ℕ → List ℕ → RuneId → ℕ → Edict → State → State
move_edict n [] id have e s =
    let amount = if e.amount == 0 then have else if ltb e.amount have then e.amount else have in
    if have == 0 && not (e.amount == 0) then s else if e.output == n then s else record {
      outputs = give e.output id amount s.outputs;
      unallocated = set id (have - amount) s.unallocated;
    }
move_edict n (out ∷ outs) id have e s =
    let amount = if e.amount == 0 then have else if ltb e.amount have then e.amount else have in
    let k = length (out ∷ outs) in
    let (clamped, left) = spread_clamped id e.amount have (out ∷ outs) s.outputs in
    if have == 0 && not (e.amount == 0)
    then s
    else if e.output == n
    then if e.amount == 0
      then record {
        outputs = spread_evenly id (have / k) (have - have / k * k) (out ∷ outs) s.outputs;
        unallocated = set id 0 s.unallocated;
      }
      else record { outputs = clamped; unallocated = set id left s.unallocated }
    else record {
      outputs = give e.output id amount s.outputs;
      unallocated = set id (have - amount) s.unallocated;
    }

abbrev pub apply_for : ℕ → List ℕ → Option RuneId → Edict → State → State
apply_for n outs none e s = s
apply_for n outs (some id) e s = move_edict n outs id (get_or 0 id s.unallocated) e s

unfoldable pub apply_edicts : ℕ → List ℕ → Option RuneId → List Edict → State → State
apply_edicts n outs etched [] s = s
apply_edicts n outs etched (e ∷ es) s =
    apply_edicts n outs etched es (apply_for n outs (edict_id etched e) e s)

-- What no edict moved goes to the target, or is destroyed.
unfoldable pub land : Option ℕ → Pool → Outputs → Allocation
land target [] o = record { outputs = o; burned = [] }
land none ((id, n) ∷ u) o =
    let rest = land none u o in
    if n == 0 then rest else record rest { burned = record { id = id; amount = n } ∷ rest.burned }
land (some out) ((id, n) ∷ u) o = land (some out) u (give out id n o)

abbrev pub keep : ℕ → List RuneBalance → Allocation → Allocation
keep out bs a = record a { outputs = (out, bs) ∷ a.outputs }

abbrev pub destroy : List RuneBalance → Allocation → Allocation
destroy bs a = record a { burned = bs ++ a.burned }

-- Runes on an OP_RETURN are burned. `none` is the exception on an output that is not there.
unfoldable pub sweep : List (List ℕ) → Outputs → Option Allocation
sweep scripts [] = some (record { outputs = []; burned = [] })
sweep scripts ((out, bs) ∷ o) = elim (sweep scripts o) [
  | none ↦ none
  | some a ↦ elim (get_elem? scripts out) [
    | none ↦ none
    | some s ↦ if is_op_return s then some (destroy bs a) else some (keep out bs a)
  ]
]

abbrev pub finish : List (List ℕ) → Allocation → Option Allocation
finish scripts landed = elim (sweep scripts landed.outputs) [
  | none ↦ none
  | some a ↦ some (destroy landed.burned a)
]

abbrev pub first_of : List ℕ → Option ℕ
first_of [] = none
first_of (i ∷ is) = some i

abbrev pub target_of : Option ℕ → List ℕ → Option ℕ
target_of none outs = first_of outs
target_of (some p) outs = some p

abbrev pub premine_of : Option Etching → Option ℕ
premine_of none = none
premine_of (some e) = e.premine

unfoldable pub allocate_runestone : AllocationInput → Pool → Runestone → Option Allocation
allocate_runestone input u r =
    let outs = eligible_from 0 input.output_scripts in
    let minted = pour_some r.mint input.mint_amount u in
    let start = pour_some input.etched_id (premine_of r.etching) minted in
    let s =
      apply_edicts (length input.output_scripts) outs input.etched_id r.edicts
        (record { outputs = []; unallocated = start }) in
    finish input.output_scripts (land (target_of r.pointer outs) s.unallocated s.outputs)

unfoldable pub allocate : Option Artifact → AllocationInput → Option Allocation
allocate none input =
    finish input.output_scripts
      (land (first_of (eligible_from 0 input.output_scripts)) (pour_all input.inputs []) [])
allocate (some (cenotaph c)) input =
    some (burn_all (pour_some c.mint input.mint_amount (pour_all input.inputs [])))
allocate (some (runestone r)) input = allocate_runestone input (pour_all input.inputs []) r
