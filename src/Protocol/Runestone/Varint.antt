-- ===== src/Protocol/Runestone/Varint.antt =====
-- `decodeVarint` and `encodeVarint` (runestone.ts): LEB128 over u128.
use kray_node.Base.{
  ℕ, zero, suc, ◌+◌, ◌*◌, ◌/◌, ◌%◌, ◌^◌, ◌≤◌, ◌<◌, ◌≡◌, refl, sym, ap, ◌∙◌, ◌&&◌, Option, none,
  some, List, [], ◌∷◌, ◌++◌, arith, ltb, leb, ◌==◌, if◌then◌else◌, length, get_elem?, length-append,
  get_elem?-append, get_elem?-lt, append_assoc, Bool-cases, Option-cases, inl, inr,
}
use kray_node.Base.Bits.{bit_and_127, bit_and_128, bit_or_128, bit_or-disjoint}
use kray_node.Protocol.Runestone.Artifact.{u128_max}
use Prim.Native.Nat.{bit_and, bit_or}
use mathlib.Core.Path.{subst}
use native.Mathlib.Nat.{div-add-mod}
use native.Mathlib.Numerals.{towards_suc}

-- One round of the loop: `i` is the byte's place, and the first argument counts the rounds left of 19.
-- `none` is the malformed answer: truncated, overflow, or more than 18 bytes.
unfoldable pub decode_from : ℕ → List ℕ → ℕ → ℕ → ℕ → Option (ℕ × ℕ)
decode_from zero buf at i value = none
decode_from (suc rounds) buf at i value = elim (get_elem? buf (at + i)) [
  | none ↦ none
  | some byte ↦
      let value' = bit_or value (bit_and byte 0x7f * 2 ^ (7 * i)) in
      let more = decode_from rounds buf at (i + 1) value' in
      if i == 18 && leb 0x04 byte
      then none
      else if ltb u128_max value'
      then none
      else if bit_and byte 0x80 == 0
      then some (value', at + i + 1)
      else more
]

unfoldable pub decode_varint : List ℕ → ℕ → Option (ℕ × ℕ)
decode_varint buf at = decode_from 19 buf at 0 0

-- `while (v > 0x7f) { out.push((v & 0x7f) | 0x80); v >>= 7 }; out.push(v)`
unfoldable pub encode_from : ℕ → ℕ → List ℕ
encode_from zero v = []
encode_from (suc fuel) v =
    let rest = encode_from fuel (v / 2 ^ 7) in
    if ltb 0x7f v then bit_or (bit_and v 0x7f) 0x80 ∷ rest else v ∷ []

-- `none` is the `throw`. Each round shrinks `v`, so `n + 1` rounds are enough.
unfoldable pub encode_varint : ℕ → Option (List ℕ)
encode_varint n = if ltb u128_max n then none else some (encode_from (suc n) n)

abbrev pub IsByte : ℕ → Type 0
IsByte b = b < 256

add_seven : (s : ℕ) → 2 ^ (s + 7) ≡ 128 * 2 ^ s
add_seven s = simp towards_suc (omega arith)

shift_seven : (i : ℕ) → 2 ^ (7 * (i + 1)) ≡ 128 * 2 ^ (7 * i)
shift_seven i =
    let e : 7 * (i + 1) ≡ 7 * i + 7 = omega arith in ap (λ (t : ℕ). 2 ^ t) e ∙ add_seven (7 * i)

inner_byte : (v : ℕ) → bit_or (bit_and v 0x7f) 0x80 ≡ v % 128 + 128
inner_byte v =
    omega (arith, ap (λ (t : ℕ). bit_or t 0x80) (bit_and_127 v), bit_or_128 (v % 128) (omega arith))

-- The last place holds two digits only.
last_place : (i w : ℕ) → w * 2 ^ (7 * i) < 2 ^ 128 → i ≡ 18 → w < 4
last_place i w h e =
    let f : w * 2 ^ (7 * i) ≡ w * 2 ^ 126 = ap (λ (t : ℕ). w * 2 ^ (7 * t)) e in omega (arith, f)

-- A round on a byte that ends the number, and on one that goes on.
decode_last :
    (rounds at i acc v : ℕ) (buf : List ℕ)
    → get_elem? buf (at + i) ≡ some v
    → v < 128
    → acc < 2 ^ (7 * i)
    → acc + v * 2 ^ (7 * i) < 2 ^ 128
    → decode_from (suc rounds) buf at i acc ≡ some (acc + v * 2 ^ (7 * i), at + i + 1)
unfolding decode_from
decode_last rounds at i acc v buf e hv ha fits =
    let low : bit_and v 0x7f ≡ v = omega (arith, bit_and_127 v) in
    ground (
      arith,
      e,
      low,
      bit_and_128 v (omega arith),
      bit_or-disjoint (7 * i) acc v ha,
      last_place i v (omega arith),
    )

decode_inner :
    (rounds at i acc g : ℕ) (buf : List ℕ)
    → get_elem? buf (at + i) ≡ some (g + 128)
    → g < 128
    → i < 18
    → acc < 2 ^ (7 * i)
    → acc + g * 2 ^ (7 * i) < 2 ^ 128
    → decode_from (suc rounds) buf at i acc
      ≡ decode_from rounds buf at (i + 1) (acc + g * 2 ^ (7 * i))
unfolding decode_from
decode_inner rounds at i acc g buf e hg hi ha fits =
    let low : bit_and (g + 128) 0x7f ≡ g = omega (arith, bit_and_127 (g + 128)) in
    ground (arith, e, low, bit_and_128 (g + 128) (omega arith), bit_or-disjoint (7 * i) acc g ha)

-- What is still to be read, split into its lowest group and the rest.
split_group : (v i : ℕ) → v * 2 ^ (7 * i) ≡ v % 128 * 2 ^ (7 * i) + v / 128 * 2 ^ (7 * (i + 1))
split_group v i = omega (
  arith,
  ap (λ (t : ℕ). t * 2 ^ (7 * i)) (div-add-mod v 128),
  ap (λ (t : ℕ). v / 128 * t) (shift_seven i),
)

inner_place : (i v : ℕ) → v * 2 ^ (7 * i) < 2 ^ 128 → 127 < v → i ≤ 18 → i < 18
inner_place i v h big le = elim (Bool-cases (i == 18)) [
  | inl e ↦ absurd (omega (arith, last_place i v h (ground arith)))
  | inr e ↦ ground arith
]

group_fits : (g acc i : ℕ) → g < 128 → acc < 2 ^ (7 * i) → acc + g * 2 ^ (7 * i) < 2 ^ (7 * (i + 1))
group_fits g acc i hg ha = grind (arith, shift_seven i)

decode_from-encode_from :
    (fuel rounds at i acc v : ℕ) (pre rest : List ℕ)
    → v < fuel
    → suc rounds + i ≡ 19
    → length pre ≡ at + i
    → acc < 2 ^ (7 * i)
    → acc + v * 2 ^ (7 * i) < 2 ^ 128
    → decode_from (suc rounds) (pre ++ (encode_from fuel v ++ rest)) at i acc
      ≡ some (acc + v * 2 ^ (7 * i), at + i + length (encode_from fuel v))
unfolding encode_from
decode_from-encode_from zero rounds at i acc v pre rest hf hr hl ha fits = elim hf [ ]
decode_from-encode_from (suc fuel) zero at i acc v pre rest hf hr hl ha fits =
    elim (Bool-cases (ltb 0x7f v)) [
      | inl more ↦
          absurd (omega (arith, inner_place i v (omega arith) (ground arith) (omega arith)))
      | inr last ↦ rw last (
          ground (
            arith,
            get_elem?-append pre v rest (at + i) (omega arith),
            decode_last zero at i acc v (pre ++ (v ∷ rest)),
          ))
    ]
decode_from-encode_from (suc fuel) (suc rounds) at i acc v pre rest hf hr hl ha fits =
    elim (Bool-cases (ltb 0x7f v)) [
      | inl more ↦
          let g = v % 128 in
          let tail = encode_from fuel (v / 128) in
          let buf = pre ++ ((g + 128) ∷ (tail ++ rest)) in
          let hi : i < 18 = inner_place i v (omega arith) (ground arith) (omega arith) in
          let hg : g < 128 = omega arith in
          let found = get_elem?-append pre (g + 128) (tail ++ rest) (at + i) (omega arith) in
          let step =
            decode_inner (suc rounds) at i acc g buf found hg hi ha
              (omega (arith, split_group v i)) in
          let ih =
            decode_from-encode_from fuel rounds at (i + 1) (acc + g * 2 ^ (7 * i)) (v / 128)
              (pre ++ ((g + 128) ∷ [])) rest (ground arith) (omega arith)
              (omega (arith, length-append pre ((g + 128) ∷ []))) (group_fits g acc i hg ha)
              (omega (arith, split_group v i)) in
          let regroup = append_assoc pre ((g + 128) ∷ []) (tail ++ rest) in
          rw (more, inner_byte v)
            (step
              ∙ ap (λ (t : List ℕ). decode_from (suc rounds) t at (i + 1) (acc + g * 2 ^ (7 * i)))
                  (sym regroup)
              ∙ ih
              ∙ ground (arith, split_group v i))
      | inr last ↦ rw last (
          ground (
            arith,
            get_elem?-append pre v rest (at + i) (omega arith),
            decode_last (suc rounds) at i acc v (pre ++ (v ∷ rest)),
          ))
    ]

-- A u128 that `encodeVarint` wrote is read back by `decodeVarint`, from any position in a buffer and
-- whatever follows, and the next position is the one behind it.
pub decode_varint-encode_varint :
    (n : ℕ) (pre rest bytes : List ℕ)
    → encode_varint n ≡ some bytes
    → decode_varint (pre ++ (bytes ++ rest)) (length pre) ≡ some (n, length pre + length bytes)
unfolding decode_varint encode_varint
decode_varint-encode_varint n pre rest bytes h = elim (Bool-cases (ltb u128_max n)) [
  | inl big ↦ ground (arith, h)
  | inr fits ↦
      let whole =
        decode_from-encode_from (suc n) 18 (length pre) 0 0 n pre rest (omega arith) refl
          (omega arith) (omega arith) (ground arith) in
      let e : encode_from (suc n) n ≡ bytes = ground (arith, h, fits) in
      subst
        (λ b.
          decode_from 19 (pre ++ (b ++ rest)) (length pre) 0 0 ≡ some (n, length pre + length b))
        e (whole ∙ ground arith)
]

decode_from_bounds :
    (rounds i value v next : ℕ) (buf : List ℕ) (at : ℕ)
    → decode_from rounds buf at i value ≡ some (v, next)
    → (v ≤ u128_max) × (at + i < next) × (next ≤ at + i + rounds) × (next ≤ length buf)
unfolding decode_from
decode_from_bounds zero i value v next buf at h = cc
decode_from_bounds (suc rounds) i value v next buf at h =
    elim (Option-cases (get_elem? buf (at + i))) [
      | inl short ↦ ground (arith, h, short)
      | inr (byte, e) ↦
          let value' = bit_or value (bit_and byte 0x7f * 2 ^ (7 * i)) in
          ground (
            arith,
            h,
            e,
            get_elem?-lt buf (at + i) byte,
            decode_from_bounds rounds (i + 1) value' v next buf at,
          )
    ]

-- Whatever the bytes are, a number that is decoded is a u128, and it took between 1 and 19 bytes, all
-- of them in the buffer.
pub decode_varint_bounds :
    (buf : List ℕ) (at v next : ℕ)
    → decode_varint buf at ≡ some (v, next)
    → (v ≤ u128_max) × (at < next) × (next ≤ at + 19) × (next ≤ length buf)
unfolding decode_varint
decode_varint_bounds buf at v next h = omega (arith, decode_from_bounds 19 0 0 v next buf at h)
