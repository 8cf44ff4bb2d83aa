-- ===== src/Protocol/Runestone/Decipher/Message.antt =====
-- The first two steps of `decipher` (runestone.ts): payload to integers, integers to fields and edicts.
use kray_node.Base.{
  ℕ, zero, suc, ◌+◌, ◌≤◌, ◌≢◌, ◌&&◌, Option, none, some, List, [], ◌∷◌, ◌++◌, arith, ltb, ◌==◌,
  if◌then◌else◌, length, Option-cases, inl, inr,
}
use kray_node.Base.Map.{nat_key, Map, get, set}
use kray_node.Protocol.Runestone.Artifact.{
  RuneId, Edict, Flaw, edict_output, edict_rune_id, trailing_integers, truncated_field, u64_max,
  u32_max,
}
use kray_node.Protocol.Runestone.Varint.{decode_varint, decode_varint_bounds}

-- `unfinished` is the loop out of fuel, which `scan_finishes` rules out.
pub data Scan : Type 0 where
  scanned : List ℕ → Scan
  malformed : Scan
  unfinished : Scan

abbrev pub prepend : ℕ → Scan → Scan
prepend v (scanned vs) = scanned (v ∷ vs)
prepend v malformed = malformed
prepend v unfinished = unfinished

unfoldable pub scan_from : ℕ → List ℕ → ℕ → Scan
scan_from zero bytes at = if ltb at (length bytes) then unfinished else scanned []
scan_from (suc fuel) bytes at = elim (decode_varint bytes at) [
  | none ↦ if ltb at (length bytes) then malformed else scanned []
  | some (v, next) ↦
      let rest = scan_from fuel bytes next in
      if ltb at (length bytes) then prepend v rest else scanned []
]

-- Each varint takes a byte at least, so as many rounds as bytes are enough.
unfoldable pub scan : List ℕ → Scan
scan bytes = scan_from (length bytes) bytes 0

prepend-ne-unfinished : (v : ℕ) (s : Scan) → s ≢ unfinished → prepend v s ≢ unfinished
prepend-ne-unfinished v (scanned vs) h = λ e. cc
prepend-ne-unfinished v malformed h = λ e. cc
prepend-ne-unfinished v unfinished h = λ e. h e

scan_from-ne-unfinished :
    (fuel : ℕ) (bytes : List ℕ) (at : ℕ)
    → length bytes ≤ fuel + at
    → scan_from fuel bytes at ≢ unfinished
unfolding scan_from
scan_from-ne-unfinished zero bytes at h = λ e. ground (arith, e)
scan_from-ne-unfinished (suc fuel) bytes at h = elim (Option-cases (decode_varint bytes at)) [
  | inl bad ↦ λ e. ground (arith, bad, e)
  | inr ((v, next), good) ↦ λ e. ground (
    arith,
    good,
    e,
    decode_varint_bounds bytes at v next,
    scan_from-ne-unfinished fuel bytes next,
    prepend-ne-unfinished v (scan_from fuel bytes next),
  )
]

pub scan_finishes : (bytes : List ℕ) → scan bytes ≢ unfinished
unfolding scan
scan_finishes bytes = scan_from-ne-unfinished (length bytes) bytes 0 (omega arith)

-- `nextRuneId`: a zero block delta makes the tx value a delta.
unfoldable pub next_rune_id : RuneId → ℕ → ℕ → Option RuneId
next_rune_id prev block_delta tx_value =
    let block = prev.block + block_delta in
    let tx = if block_delta == 0 then prev.tx + tx_value else tx_value in
    if ltb u64_max block
    then none
    else if ltb u32_max tx
    then none
    else some (record { block = block; tx = tx })

-- The edicts read so far and the flaw that stopped the reading.
abbrev pub Edicts : Type 0
Edicts = List Edict × Option Flaw

abbrev pub cons_edict : Edict → Edicts → Edicts
cons_edict e (es, f) = (e ∷ es, f)

-- The edicts behind the Body tag, in groups of four.
unfoldable pub edicts_from : ℕ → RuneId → List ℕ → Edicts
edicts_from outputs id [] = ([], none)
edicts_from outputs id (a ∷ []) = ([], some trailing_integers)
edicts_from outputs id (a ∷ b ∷ []) = ([], some trailing_integers)
edicts_from outputs id (a ∷ b ∷ c ∷ []) = ([], some trailing_integers)
edicts_from outputs id (block ∷ tx ∷ amount ∷ output ∷ rest) = elim (next_rune_id id block tx) [
  | none ↦ ([], some edict_rune_id)
  | some next ↦
      let more = edicts_from outputs next rest in
      if next.block == 0 && ltb 0 next.tx
      then ([], some edict_rune_id)
      else if ltb outputs output
      then ([], some edict_output)
      else cons_edict (record { id = next; amount = amount; output = output }) more
]

-- tag → its values, in order.
abbrev pub Fields : Type 0
Fields = Map ℕ (List ℕ)

pub record Message : Type 0 where
  pub fields : Fields
  pub edicts : List Edict
  pub flaw : Option Flaw

unfoldable pub add_field : ℕ → ℕ → Fields → Fields
add_field tag v fields = elim (get tag fields) [
  | none ↦ set tag (v ∷ []) fields
  | some vs ↦ set tag (vs ++ (v ∷ [])) fields
]

abbrev body_message : ℕ → Fields → List ℕ → Message
body_message outputs fields rest =
    let (edicts, flaw) = edicts_from outputs (record { block = 0; tx = 0 }) rest in
    record { fields = fields; edicts = edicts; flaw = flaw }

abbrev plain_message : Fields → Option Flaw → Message
plain_message fields flaw = record { fields = fields; edicts = []; flaw = flaw }

-- Tag 0 is Body.
unfoldable pub message_from : ℕ → Fields → List ℕ → Message
message_from outputs fields [] = plain_message fields none
message_from outputs fields (tag ∷ []) =
    if tag == 0 then body_message outputs fields [] else plain_message fields (some truncated_field)
message_from outputs fields (tag ∷ v ∷ rest) =
    let more = message_from outputs (add_field tag v fields) rest in
    if tag == 0 then body_message outputs fields (v ∷ rest) else more
