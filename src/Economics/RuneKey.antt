-- ===== src/Economics/RuneKey.antt =====
-- The keys of the rune book (apps/kray-core/src/economics/rune-book.ts): `block:tx` in decimal
-- digits, and the one spelling that an untrusted key has.
use kray_node.Base.{
  ℕ, ◌≡◌, refl, ap, Bool, true, false, not, ◌&&◌, Option, none, some, [], ◌∷◌, ◌++◌, arith, ◌==◌,
  if◌then◌else◌, All,
}
use kray_node.Protocol.Runestone.Artifact.{RuneId}
use mathlib.Core.Option
use kray_node.Base.Text.{Text, is_blank}
use kray_node.Base.Decimal.{
  is_digit, decimal, decimal_value, decimal_value-decimal, decimal_digits, is_blank-decimal,
}

-- `${id.block}:${id.tx}`
unfoldable pub rune_key : RuneId → Text
rune_key id = decimal id.block ++ (b':' ∷ decimal id.tx)

-- `k.split(':')` at the first colon.
split_colon : Text → Option (Text × Text)
split_colon [] = none
split_colon (c ∷ s) =
    let rest = split_colon s in
    if c == b':' then some ([], s) else elim rest [ none ↦ none | some (b, t) ↦ some (c ∷ b, t) ]

-- `/^[0-9]+$/`
all_digits : Text → Bool
all_digits [] = true
all_digits (c ∷ s) = is_digit c && all_digits s

is_number : Text → Bool
unfolding all_digits
is_number s = not (is_blank s) && all_digits s

-- `parseRuneKey` on fields of digits: the first two fields of the key, `none` where the second is
-- missing (`BigInt(undefined)` throws).
unfoldable pub parse_rune_key : Text → Option RuneId
unfolding split_colon
parse_rune_key k = elim (split_colon k) [
  | none ↦ none
  | some (b, t) ↦ some (record { block = decimal_value b; tx = decimal_value t })
]

-- `/^[0-9]+:[0-9]+$/`
is_key : Text → Bool
unfolding split_colon is_number
is_key k = elim (split_colon k) [ none ↦ false | some (b, t) ↦ is_number b && is_number t ]

-- `canonicalRuneKey`; `none` is the `throw`.
unfoldable pub canonical_rune_key : Text → Option Text
unfolding is_key parse_rune_key
canonical_rune_key k = if is_key k then Option.map rune_key (parse_rune_key k) else none

abbrev IsDigit : ℕ → Type 0
IsDigit c = is_digit c ≡ true

split_colon-append : (b t : Text) → All IsDigit b → split_colon (b ++ (b':' ∷ t)) ≡ some (b, t)
unfolding split_colon
split_colon-append [] t h = refl
split_colon-append (c ∷ b) t h = ground (arith, split_colon-append b t h.1)

All-all_digits : (s : Text) → All IsDigit s → all_digits s ≡ true
unfolding all_digits
All-all_digits [] h = refl
All-all_digits (c ∷ s) h = ground (arith, All-all_digits s h.1)

decimal-is_number : (n : ℕ) → is_number (decimal n) ≡ true
unfolding is_number
decimal-is_number n =
    ground (arith, is_blank-decimal n, All-all_digits (decimal n) (decimal_digits n))

split_rune_key : (id : RuneId) → split_colon (rune_key id) ≡ some (decimal id.block, decimal id.tx)
unfolding rune_key
split_rune_key id = split_colon-append (decimal id.block) (decimal id.tx) (decimal_digits id.block)

-- A rune's key is read back as that rune.
pub parse_rune_key-rune_key : (id : RuneId) → parse_rune_key (rune_key id) ≡ some id
unfolding parse_rune_key
parse_rune_key-rune_key id =
    ground (arith, split_rune_key id, decimal_value-decimal id.block, decimal_value-decimal id.tx)

is_key-rune_key : (id : RuneId) → is_key (rune_key id) ≡ true
unfolding is_key
is_key-rune_key id =
    ground (arith, split_rune_key id, decimal-is_number id.block, decimal-is_number id.tx)

-- The key of a rune is its own canonical spelling.
pub canonical_rune_key-rune_key :
    (id : RuneId) → canonical_rune_key (rune_key id) ≡ some (rune_key id)
canonical_rune_key-rune_key id =
    unfold canonical_rune_key in rw (is_key-rune_key id, parse_rune_key-rune_key id)

canonical_cases :
    (k c : Text) (o : Option RuneId)
    → (if is_key k then Option.map rune_key o else none) ≡ some c
    → (id : RuneId) × (c ≡ rune_key id)
canonical_cases k c none h = ground arith
canonical_cases k c (some id) h = (id, ground arith)

-- A key that is accepted is the key of a rune.
pub canonical_rune_key_sound :
    (k c : Text) → canonical_rune_key k ≡ some c → (id : RuneId) × (c ≡ rune_key id)
unfolding canonical_rune_key
canonical_rune_key_sound k c h = canonical_cases k c (parse_rune_key k) h

-- Canonical spellings stay as they are.
pub canonical_rune_key_idem :
    (k c : Text) → canonical_rune_key k ≡ some c → canonical_rune_key c ≡ some c
canonical_rune_key_idem k c h =
    let (id, e) = canonical_rune_key_sound k c h in rw e (canonical_rune_key-rune_key id)

-- Two runes share a key only if they are one rune.
pub rune_key-injective : (i j : RuneId) → rune_key i ≡ rune_key j → i ≡ j
rune_key-injective i j h =
    cc (parse_rune_key-rune_key i, ap parse_rune_key h, parse_rune_key-rune_key j)
