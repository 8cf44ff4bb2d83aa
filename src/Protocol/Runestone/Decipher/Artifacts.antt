-- ===== src/Protocol/Runestone/Decipher/Artifacts.antt =====
-- `decipher` as a whole (runestone.ts): the first runestone output decides, and every flaw that is left
-- makes the artifact a cenotaph.
use kray_node.Base.{
  ℕ, Bool, true, false, not, Option, none, some, List, [], ◌∷◌, ◌++◌, ltb, leb, ◌==◌, if◌then◌else◌,
  length,
}
use kray_node.Protocol.Runestone.Artifact.{
  RuneId, Edict, Etching, Flaw, Artifact, runestone, cenotaph, u128_max, edict_output,
  edict_rune_id, invalid_script, opcode, supply_overflow, trailing_integers, truncated_field,
  unrecognized_even_tag, unrecognized_flag, varint,
}
use kray_node.Protocol.Runestone.Payload.{
  not_runestone, flawed, payload, running, runestone_payload,
}
use kray_node.Protocol.Runestone.Decipher.Message.{
  scanned, malformed, unfinished, scan, Fields, Message, message_from,
}
use kray_node.Protocol.Runestone.Decipher.Fields.{
  take_one, take_two, below, rune_id_of, has_flag, take_etching, supply, any_even_tag, or_zero,
}

-- Place in the alphabetical order of the flaws' names.
abbrev pub rank : Flaw → ℕ
rank edict_output = 0
rank edict_rune_id = 1
rank invalid_script = 2
rank opcode = 3
rank supply_overflow = 4
rank trailing_integers = 5
rank truncated_field = 6
rank unrecognized_even_tag = 7
rank unrecognized_flag = 8
rank varint = 9

unfoldable pub insert_flaw : Flaw → List Flaw → List Flaw
insert_flaw f [] = f ∷ []
insert_flaw f (g ∷ gs) = if leb (rank f) (rank g) then f ∷ g ∷ gs else g ∷ insert_flaw f gs

-- `[...flaws].sort()`
unfoldable pub sort_flaws : List Flaw → List Flaw
sort_flaws [] = []
sort_flaws (f ∷ fs) = insert_flaw f (sort_flaws fs)

abbrev pub when : Bool → Flaw → List Flaw
when true f = f ∷ []
when false f = []

abbrev pub flaw_list : Option Flaw → List Flaw
flaw_list none = []
flaw_list (some f) = f ∷ []

-- `etching?.rune`
abbrev pub etched_rune : Option Etching → Option ℕ
etched_rune none = none
etched_rune (some e) = e.rune

abbrev pub etching_if : Bool → Bool → Bool → Fields → Option Etching × Fields
etching_if true has_terms turbo fields =
    let (e, rest) = take_etching has_terms turbo fields in (some e, rest)
etching_if false has_terms turbo fields = (none, fields)

abbrev pub overflows : Option Etching → Bool
overflows none = false
overflows (some e) = ltb u128_max (supply e)

-- With flaws a cenotaph, without any the runestone.
abbrev pub verdict : List Flaw → List Edict → Option Etching → Option RuneId → Option ℕ → Artifact
verdict [] edicts etching mint pointer =
    runestone (record { edicts = edicts; etching = etching; mint = mint; pointer = pointer })
verdict (f ∷ fs) edicts etching mint pointer =
    cenotaph (record { flaws = sort_flaws (f ∷ fs); etching = etched_rune etching; mint = mint })

-- From the message to the artifact, for a transaction of so many outputs.
unfoldable pub artifact_of : ℕ → Message → Artifact
artifact_of outputs m =
    let (flag_field, f1) = take_one 2 some m.fields in
    let (is_etching, flags1) = has_flag 0 (or_zero flag_field) in
    let (has_terms, flags2) = has_flag 1 flags1 in
    let (turbo, flags3) = has_flag 2 flags2 in
    let (etching, f2) = etching_if is_etching has_terms turbo f1 in
    let (mint, f3) = take_two 20 rune_id_of f2 in
    let (pointer, f4) = take_one 22 (below outputs) f3 in
    let flaws =
      flaw_list m.flaw
      ++ (when (overflows etching) supply_overflow
          ++ (when (not (flags3 == 0)) unrecognized_flag
              ++ when (any_even_tag f4) unrecognized_even_tag)) in
    verdict flaws m.edicts etching mint pointer

abbrev pub one_flaw : Flaw → Artifact
one_flaw f = cenotaph (record { flaws = f ∷ []; etching = none; mint = none })

-- `endless` is the loop of `runestonePayload` out of its rounds.
pub data Deciphered : Type 0 where
  absent : Deciphered
  found : Artifact → Deciphered
  endless : Deciphered

unfoldable pub artifact_from : ℕ → List ℕ → Deciphered
artifact_from outputs bytes = elim (scan bytes) [
  | scanned integers ↦ found (artifact_of outputs (message_from outputs [] integers))
  | malformed ↦ found (one_flaw varint)
  | unfinished ↦ endless
]

-- The first output that is a runestone decides; `rounds` bounds the payload's loop.
unfoldable pub decipher_from : ℕ → ℕ → List (List ℕ) → Deciphered
decipher_from rounds outputs [] = absent
decipher_from rounds outputs (script ∷ scripts) =
    let others = decipher_from rounds outputs scripts in
    elim (runestone_payload rounds script) [
      | not_runestone ↦ others
      | flawed f ↦ found (one_flaw f)
      | payload bytes ↦ artifact_from outputs bytes
      | running ↦ endless
    ]

unfoldable pub decipher : ℕ → List (List ℕ) → Deciphered
decipher rounds scripts = decipher_from rounds (length scripts) scripts
