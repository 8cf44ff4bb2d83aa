-- ===== src/Protocol/Runestone/Decipher/Bounds.antt =====
-- What a deciphered runestone promises to the transfer law and to the book behind it.
use kray_node.Base.{
  ℕ, ◌-◌, ◌^◌, ◌≤◌, ◌<◌, ◌≡◌, ◌⊎◌, refl, Bool, true, false, not, Option, none, some, List, [], ◌∷◌,
  ◌++◌, arith, ◌==◌, length, All, Option-cases, inl, inr,
}
use mathlib.Core.Path.{subst, sym}
use kray_node.Base.Map.{nat_key}
use kray_node.Protocol.Runestone.Artifact.{
  RuneId, Edict, Etching, Flaw, supply_overflow, unrecognized_flag, unrecognized_even_tag, varint,
  Runestone, runestone, u128_max, u64_max, u32_max,
}
use kray_node.Protocol.Runestone.Payload.{
  Payload, not_runestone, flawed, payload, running, runestone_payload,
}
use kray_node.Protocol.Runestone.Decipher.Message.{
  Scan, scanned, malformed, unfinished, scan, Fields, Message, next_rune_id, edicts_from,
  message_from, add_field,
}
use kray_node.Protocol.Runestone.Decipher.Fields.{
  take_one, take_two, at_most, below, rune_id_of, has_flag, take_etching, supply, any_even_tag,
  or_zero,
}
use kray_node.Protocol.Runestone.Decipher.Artifacts.{
  one_flaw, Deciphered, found, endless, when, flaw_list, etching_if, overflows, verdict,
  artifact_of, artifact_from, decipher_from, decipher,
}

-- A rune id in the ranges of its fields.
abbrev pub IsRuneId : RuneId → Type 0
IsRuneId id = (id.block ≤ u64_max) × (id.tx ≤ u32_max)

-- Block 0 has no rune but the etched one, 0:0.
abbrev pub IsSoundEdict : ℕ → Edict → Type 0
IsSoundEdict outputs e = (e.output ≤ outputs) × IsRuneId e.id × ((0 < e.id.block) ⊎ (e.id.tx ≡ 0))

abbrev pub AtMost : ℕ → Option ℕ → Type 0
AtMost m none = Unit
AtMost m (some v) = v ≤ m

abbrev pub Below : ℕ → Option ℕ → Type 0
Below m none = Unit
Below m (some v) = v < m

-- A mint is tested for its ranges alone: 0:5, which is no rune, passes.
abbrev pub MintInRange : Option RuneId → Type 0
MintInRange none = Unit
MintInRange (some id) = IsRuneId id

abbrev pub IsSoundEtching : Option Etching → Type 0
IsSoundEtching none = Unit
IsSoundEtching (some e) =
    AtMost 38 e.divisibility
    × AtMost (2 ^ 27 - 1) e.spacers
    × AtMost 0x10ffff e.symbol
    × (supply e ≤ u128_max)

pub record IsSound (outputs : ℕ) (r : Runestone) : Type 0 where
  pub edicts_sound : All (IsSoundEdict outputs) r.edicts
  pub pointer_below : Below outputs r.pointer
  pub mint_in_range : MintInRange r.mint
  pub etching_sound : IsSoundEtching r.etching

next_rune_id-IsRuneId : (prev id : RuneId) (d t : ℕ) → next_rune_id prev d t ≡ some id → IsRuneId id
unfolding next_rune_id
next_rune_id-IsRuneId prev id d t h = ground (arith, h)

edicts_from_sound :
    (outputs : ℕ) (id : RuneId) (ns : List ℕ)
    → All (IsSoundEdict outputs) (edicts_from outputs id ns).0
unfolding edicts_from
edicts_from_sound outputs id [] = tt
edicts_from_sound outputs id (a ∷ []) = tt
edicts_from_sound outputs id (a ∷ b ∷ []) = tt
edicts_from_sound outputs id (a ∷ b ∷ c ∷ []) = tt
edicts_from_sound outputs id (d ∷ t ∷ amount ∷ output ∷ rest) =
    elim (Option-cases (next_rune_id id d t)) [
      | inl e ↦ ground (arith, e)
      | inr (next, e) ↦
          ground
            (arith, e, next_rune_id-IsRuneId id next d t e, edicts_from_sound outputs next rest)
    ]

message_from_sound :
    (outputs : ℕ) (fields : Fields) (ns : List ℕ)
    → All (IsSoundEdict outputs) (message_from outputs fields ns).edicts
unfolding message_from
message_from_sound outputs fields [] = tt
message_from_sound outputs fields (tag ∷ []) =
    ground (arith, edicts_from_sound outputs (record { block = 0; tx = 0 }) [])
message_from_sound outputs fields (tag ∷ v ∷ rest) = ground (
  arith,
  edicts_from_sound outputs (record { block = 0; tx = 0 }) (v ∷ rest),
  message_from_sound outputs (add_field tag v fields) rest,
)

take_one-AtMost : (tag m : ℕ) (fields : Fields) → AtMost m (take_one tag (at_most m) fields).0
unfolding take_one
take_one-AtMost tag m fields = ground arith

take_one-Below : (tag m : ℕ) (fields : Fields) → Below m (take_one tag (below m) fields).0
unfolding take_one
take_one-Below tag m fields = ground arith

take_two-MintInRange : (tag : ℕ) (fields : Fields) → MintInRange (take_two tag rune_id_of fields).0
unfolding take_two
take_two-MintInRange tag fields = ground arith

-- The bounds of an etching, before the supply is tested.
abbrev InRanges : Option Etching → Type 0
InRanges none = Unit
InRanges (some e) =
    AtMost 38 e.divisibility × AtMost (2 ^ 27 - 1) e.spacers × AtMost 0x10ffff e.symbol

etching_if-InRanges :
    (is_etching has_terms turbo : Bool) (f0 : Fields)
    → InRanges (etching_if is_etching has_terms turbo f0).0
unfolding take_etching
etching_if-InRanges false has_terms turbo f0 = tt
etching_if-InRanges true has_terms turbo f0 =
    let f1 = (take_one 1 (at_most 38) f0).1 in
    let f2 = (take_one 4 some f1).1 in
    let f3 = (take_one 3 (at_most (2 ^ 27 - 1)) f2).1 in
    (take_one-AtMost 1 38 f0, take_one-AtMost 3 (2 ^ 27 - 1) f2, take_one-AtMost 5 0x10ffff f3)

etching_sound_of : (e : Option Etching) → InRanges e → overflows e ≡ false → IsSoundEtching e
etching_sound_of none h o = tt
etching_sound_of (some e) h o = ground (arith, h, o)

when_nil : (b : Bool) (f : Flaw) → when b f ≡ [] → b ≡ false
when_nil true f h = cc
when_nil false f h = refl

append_nil_left : (xs ys : List Flaw) → xs ++ ys ≡ [] → (xs ≡ []) × (ys ≡ [])
append_nil_left [] ys h = (refl, h)
append_nil_left (x ∷ xs) ys h = cc

-- A runestone is the verdict only where there is no flaw.
verdict_runestone :
    (flaws : List Flaw) (es : List Edict) (et : Option Etching) (mint : Option RuneId)
    (pt : Option ℕ) (r : Runestone)
    → verdict flaws es et mint pt ≡ runestone r
    → (flaws ≡ []) × (r ≡ record { edicts = es; etching = et; mint = mint; pointer = pt })
verdict_runestone [] es et mint pt r h = ground (arith, h)
verdict_runestone (f ∷ fs) es et mint pt r h = ground (arith, h)

verdict-IsSound :
    (outputs : ℕ) (first last : List Flaw) (over : Flaw) (es : List Edict) (et : Option Etching)
    (mint : Option RuneId) (pt : Option ℕ) (r : Runestone)
    → All (IsSoundEdict outputs) es
    → InRanges et
    → MintInRange mint
    → Below outputs pt
    → verdict (first ++ (when (overflows et) over ++ last)) es et mint pt ≡ runestone r
    → IsSound outputs r
verdict-IsSound outputs first last over es et mint pt r he ht hm hp h =
    let (clean, e) =
      verdict_runestone (first ++ (when (overflows et) over ++ last)) es et mint pt r h in
    let tail = (append_nil_left first (when (overflows et) over ++ last) clean).1 in
    let none_over = (append_nil_left (when (overflows et) over) last tail).0 in
    subst (IsSound outputs) (sym e) (record {
      edicts_sound = he;
      pointer_below = hp;
      mint_in_range = hm;
      etching_sound = etching_sound_of et ht (when_nil (overflows et) over none_over);
    })

artifact_of-IsSound :
    (outputs : ℕ) (m : Message) (r : Runestone)
    → All (IsSoundEdict outputs) m.edicts
    → artifact_of outputs m ≡ runestone r
    → IsSound outputs r
unfolding artifact_of
artifact_of-IsSound outputs m r he h =
    let (flag_field, f1) = take_one 2 some m.fields in
    let (is_etching, flags1) = has_flag 0 (or_zero flag_field) in
    let (has_terms, flags2) = has_flag 1 flags1 in
    let (turbo, flags3) = has_flag 2 flags2 in
    let (etching, f2) = etching_if is_etching has_terms turbo f1 in
    let (mint, f3) = take_two 20 rune_id_of f2 in
    let (pointer, f4) = take_one 22 (below outputs) f3 in
    let last =
      when (not (flags3 == 0)) unrecognized_flag ++ when (any_even_tag f4) unrecognized_even_tag in
    verdict-IsSound outputs (flaw_list m.flaw) last supply_overflow m.edicts etching mint pointer r
      he (etching_if-InRanges is_etching has_terms turbo f1) (take_two-MintInRange 20 f2)
      (take_one-Below 22 outputs f3) h

artifact_from-IsSound :
    (outputs : ℕ) (bytes : List ℕ) (r : Runestone)
    → artifact_from outputs bytes ≡ found (runestone r)
    → IsSound outputs r
unfolding artifact_from
artifact_from-IsSound outputs bytes r h = of_scan (scan bytes) h
  where
    of_scan :
        (s : Scan)
        → elim s as (λ x. Deciphered) [
          | scanned integers ↦ found (artifact_of outputs (message_from outputs [] integers))
          | malformed ↦ found (one_flaw varint)
          | unfinished ↦ endless
        ]
          ≡ found (runestone r)
        → IsSound outputs r
    of_scan (scanned ns) e =
        artifact_of-IsSound outputs (message_from outputs [] ns) r
          (message_from_sound outputs [] ns) (ground (arith, e))
    of_scan malformed e = ground (arith, e)
    of_scan unfinished e = ground (arith, e)

decipher_from-IsSound :
    (rounds outputs : ℕ) (scripts : List (List ℕ)) (r : Runestone)
    → decipher_from rounds outputs scripts ≡ found (runestone r)
    → IsSound outputs r
unfolding decipher_from
decipher_from-IsSound rounds outputs [] r h = ground (arith, h)
decipher_from-IsSound rounds outputs (script ∷ scripts) r h =
    of_payload (runestone_payload rounds script) (decipher_from-IsSound rounds outputs scripts r) h
  where
    of_payload :
        (p : Payload)
        → (decipher_from rounds outputs scripts ≡ found (runestone r) → IsSound outputs r)
        → elim p as (λ x. Deciphered) [
          | not_runestone ↦ decipher_from rounds outputs scripts
          | flawed f ↦ found (one_flaw f)
          | payload bytes ↦ artifact_from outputs bytes
          | running ↦ endless
        ]
          ≡ found (runestone r)
        → IsSound outputs r
    of_payload not_runestone rest e = rest e
    of_payload (flawed f) rest e = ground (arith, e)
    of_payload (payload bytes) rest e = artifact_from-IsSound outputs bytes r e
    of_payload running rest e = ground (arith, e)

-- Whatever the scripts are, a runestone that is deciphered from them is in range: each edict names an
-- output of the transaction or the place behind the last, and a rune id of a u64 block and a u32 tx
-- that is not 0:tx for a positive tx; the pointer is an output; the mint is an id of a u64 block and a
-- u32 tx; divisibility, spacers and symbol are within their limits; and the whole supply of an etching
-- is a u128.
pub decipher-IsSound :
    (rounds : ℕ) (scripts : List (List ℕ)) (r : Runestone)
    → decipher rounds scripts ≡ found (runestone r)
    → IsSound (length scripts) r
unfolding decipher
decipher-IsSound rounds scripts r h = decipher_from-IsSound rounds (length scripts) scripts r h
