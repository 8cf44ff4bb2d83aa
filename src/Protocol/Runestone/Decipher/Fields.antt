-- ===== src/Protocol/Runestone/Decipher/Fields.antt =====
-- The third step of `decipher` (runestone.ts): fields are taken out of the message by their tags.
use kray_node.Base.{
  ℕ, ◌+◌, ◌-◌, ◌*◌, ◌%◌, ◌^◌, Bool, true, false, ◌&&◌, ◌||◌, Option, none, some, List, [], ◌∷◌, ltb,
  leb, ◌==◌, if◌then◌else◌,
}
use kray_node.Base.Map.{nat_key, get, set, delete}
use kray_node.Protocol.Runestone.Artifact.{RuneId, Terms, Etching, u64_max, u32_max}
use kray_node.Protocol.Runestone.Decipher.Message.{Fields}
use Prim.Native.Nat.{bit_and}

-- `list.splice(0, n); if (list.length === 0) fields.delete(tag)`
abbrev pub put_back : ℕ → List ℕ → Fields → Fields
put_back tag [] fields = delete tag fields
put_back tag (v ∷ vs) fields = set tag (v ∷ vs) fields

-- `take(tag, 1, build)`: a value that `build` refuses stays where it is.
unfoldable pub take_one : {B : Type 0} → ℕ → (ℕ → Option B) → Fields → Option B × Fields
take_one tag build fields = elim (get tag fields) [
  | none ↦ (none, fields)
  | some [] ↦ (none, fields)
  | some (v ∷ vs) ↦ elim (build v) [
    | none ↦ (none, fields)
    | some b ↦ (some b, put_back tag vs fields)
  ]
]

-- `take(tag, 2, build)`
unfoldable pub take_two : {B : Type 0} → ℕ → (ℕ → ℕ → Option B) → Fields → Option B × Fields
take_two tag build fields = elim (get tag fields) [
  | none ↦ (none, fields)
  | some [] ↦ (none, fields)
  | some (v ∷ []) ↦ (none, fields)
  | some (v ∷ w ∷ vs) ↦ elim (build v w) [
    | none ↦ (none, fields)
    | some b ↦ (some b, put_back tag vs fields)
  ]
]

-- `v <= max ? v : undefined`
abbrev pub at_most : ℕ → ℕ → Option ℕ
at_most m v = if leb v m then some v else none

abbrev pub below : ℕ → ℕ → Option ℕ
below m v = if ltb v m then some v else none

abbrev pub rune_id_of : ℕ → ℕ → Option RuneId
rune_id_of block tx =
    if leb block u64_max && leb tx u32_max then some (record { block = block; tx = tx }) else none

-- `hasFlag(bit)`: the flag, and the flags with it cleared.
unfoldable pub has_flag : ℕ → ℕ → Bool × ℕ
has_flag bit flags =
    if bit_and flags (2 ^ bit) == 0 then (false, flags) else (true, flags - 2 ^ bit)

unfoldable pub take_terms : Fields → Terms × Fields
take_terms f0 =
    let (amount, f1) = take_one 10 some f0 in
    let (cap, f2) = take_one 8 some f1 in
    let (height_start, f3) = take_one 12 (at_most u64_max) f2 in
    let (height_end, f4) = take_one 14 (at_most u64_max) f3 in
    let (offset_start, f5) = take_one 16 (at_most u64_max) f4 in
    let (offset_end, f6) = take_one 18 (at_most u64_max) f5 in
    (
      record {
        amount = amount;
        cap = cap;
        height_start = height_start;
        height_end = height_end;
        offset_start = offset_start;
        offset_end = offset_end;
      },
      f6,
    )

abbrev pub terms_if : Bool → Fields → Option Terms × Fields
terms_if true fields = let (terms, rest) = take_terms fields in (some terms, rest)
terms_if false fields = (none, fields)

-- The fields in the order in which the source takes them.
unfoldable pub take_etching : Bool → Bool → Fields → Etching × Fields
take_etching has_terms turbo f0 =
    let (divisibility, f1) = take_one 1 (at_most 38) f0 in
    let (rune, f2) = take_one 4 some f1 in
    let (spacers, f3) = take_one 3 (at_most (2 ^ 27 - 1)) f2 in
    let (symbol, f4) = take_one 5 (at_most 0x10ffff) f3 in
    let (premine, f5) = take_one 6 some f4 in
    let (terms, f6) = terms_if has_terms f5 in
    (
      record {
        divisibility = divisibility;
        premine = premine;
        rune = rune;
        spacers = spacers;
        symbol = symbol;
        terms = terms;
        turbo = turbo;
      },
      f6,
    )

abbrev pub or_zero : Option ℕ → ℕ
or_zero none = 0
or_zero (some n) = n

abbrev pub terms_supply : Option Terms → ℕ
terms_supply none = 0
terms_supply (some t) = or_zero t.cap * or_zero t.amount

-- `pre + cap * amt`
abbrev pub supply : Etching → ℕ
supply e = or_zero e.premine + terms_supply e.terms

-- `for (const tag of fields.keys()) if (tag % 2n === 0n)`
unfoldable pub any_even_tag : Fields → Bool
any_even_tag [] = false
any_even_tag ((tag, vs) ∷ fields) = tag % 2 == 0 || any_even_tag fields
