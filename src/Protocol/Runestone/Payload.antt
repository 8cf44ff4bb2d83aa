-- ===== src/Protocol/Runestone/Payload.antt =====
-- `runestonePayload` (runestone.ts): the data pushes behind OP_RETURN OP_13. The length of an
-- OP_PUSHDATA4 is a signed 32-bit number in JavaScript, since `<< 24` is: such a push can reach
-- backwards, and then the loop of the source need not end. `running` is the loop out of fuel.
use kray_node.Base.{
  ℕ, zero, suc, ◌+◌, ◌-◌, ◌*◌, ◌^◌, ◌<◌, ◌≡◌, ◌≢◌, refl, ◌∙◌, Bool, ◌||◌, not, Option, none, some,
  List, [], ◌∷◌, ◌++◌, arith, ltb, leb, ◌==◌, if◌then◌else◌, length, get_elem?, Option-cases, inl,
  inr, All, length-append, append_assoc, get_elem?-append, get_elem?-lt, get_elem?-ge,
}
use kray_node.Protocol.Runestone.Artifact.{Flaw, opcode, invalid_script}
use kray_node.Base.Bits.{bit_or-disjoint}
use Prim.Native.Nat.{bit_or}

pub data Payload : Type 0 where
  not_runestone : Payload
  flawed : Flaw → Payload
  payload : List ℕ → Payload
  running : Payload

-- `script[at]`, where the code has tested that the place is there.
abbrev pub byte_at : List ℕ → ℕ → ℕ
byte_at script at = elim (get_elem? script at) [ none ↦ 0 | some b ↦ b ]

-- `for (k = 0; k < len; k++) chunks.push(script[from + k])`
unfoldable pub slice : List ℕ → ℕ → ℕ → List ℕ
slice script from zero = []
slice script from (suc len) = byte_at script from ∷ slice script (from + 1) len

-- The length field as its 32 bits, and where the push begins; `none` where a length byte is missing.
unfoldable pub push_of : List ℕ → ℕ → ℕ → Option (ℕ × ℕ)
push_of script i op =
    if ltb op 0x4c
    then some (op, i + 1)
    else if op == 0x4c
    then if leb (length script) (i + 1) then none else some (byte_at script (i + 1), i + 2)
    else if op == 0x4d
    then if leb (length script) (i + 2)
      then none
      else some (bit_or (byte_at script (i + 1)) (byte_at script (i + 2) * 2 ^ 8), i + 3)
    else if leb (length script) (i + 4)
    then none
    else some (
      bit_or
          (bit_or (bit_or (byte_at script (i + 1)) (byte_at script (i + 2) * 2 ^ 8))
            (byte_at script (i + 3) * 2 ^ 16))
          (byte_at script (i + 4) * 2 ^ 24),
      i + 5,
    )

-- One round of the loop. From `2 ^ 31` on the field stands for a negative length: the bound test
-- passes, nothing is pushed, and the next place is before `from`; below 0 there is no opcode, and the
-- chain of tests ends in `invalid-script`.
unfoldable pub payload_from : ℕ → List ℕ → ℕ → List ℕ → Payload
payload_from zero script i chunks = running
payload_from (suc fuel) script i chunks = elim (get_elem? script i) [
  | none ↦ payload chunks
  | some op ↦ elim (push_of script i op) [
    | none ↦ if leb 79 op then flawed opcode else flawed invalid_script
    | some (len, from) ↦
        let back = payload_from fuel script (from + len - 2 ^ 32) chunks in
        let forth = payload_from fuel script (from + len) (chunks ++ slice script from len) in
        if leb 79 op
        then flawed opcode
        else if leb (2 ^ 31) len
        then if ltb (from + len) (2 ^ 32) then flawed invalid_script else back
        else if ltb (length script) (from + len)
        then flawed invalid_script
        else forth
  ]
]

abbrev pub not_byte : List ℕ → ℕ → ℕ → Bool
not_byte script at b = not (byte_at script at == b)

-- With the rounds that it may take.
unfoldable pub runestone_payload : ℕ → List ℕ → Payload
runestone_payload fuel script =
    if ltb (length script) 2 || (not_byte script 0 0x6a || not_byte script 1 0x5d)
    then not_runestone
    else payload_from fuel script 2 []

-- Four bytes of an OP_PUSHDATA4 whose length stands for -5 send the loop back to where it was.
stuck_round :
    (fuel : ℕ) (rest chunks : List ℕ)
    → payload_from (suc fuel) (0x6a ∷ 0x5d ∷ 0x4e ∷ 0xfb ∷ 0xff ∷ 0xff ∷ 0xff ∷ rest) 2 chunks
      ≡ payload_from fuel (0x6a ∷ 0x5d ∷ 0x4e ∷ 0xfb ∷ 0xff ∷ 0xff ∷ 0xff ∷ rest) 2 chunks
unfolding payload_from push_of
stuck_round fuel rest chunks = ground arith

payload_from_stuck :
    (fuel : ℕ) (rest chunks : List ℕ)
    → payload_from fuel (0x6a ∷ 0x5d ∷ 0x4e ∷ 0xfb ∷ 0xff ∷ 0xff ∷ 0xff ∷ rest) 2 chunks ≡ running
payload_from_stuck zero rest chunks = unfold payload_from in refl
payload_from_stuck (suc fuel) rest chunks =
    stuck_round fuel rest chunks ∙ payload_from_stuck fuel rest chunks

-- On every script that begins with OP_RETURN OP_13 OP_PUSHDATA4 fb ff ff ff the loop of the source
-- never ends: no number of rounds gives an answer.
pub runestone_payload_endless :
    (fuel : ℕ) (rest : List ℕ)
    → runestone_payload fuel (0x6a ∷ 0x5d ∷ 0x4e ∷ 0xfb ∷ 0xff ∷ 0xff ∷ 0xff ∷ rest) ≡ running
unfolding runestone_payload
runestone_payload_endless fuel rest = ground (arith, payload_from_stuck fuel rest [])

-- A byte of a script that has no OP_PUSHDATA4 in it, as an opcode or as data.
abbrev pub IsPlain : ℕ → Type 0
IsPlain b = (b < 256) × (b ≢ 0x4e)

All-get_elem? :
    (script : List ℕ) (i b : ℕ) → All IsPlain script → get_elem? script i ≡ some b → IsPlain b
All-get_elem? [] i b h e = cc
All-get_elem? (c ∷ script) zero b h e = ground (arith, e, h)
All-get_elem? (c ∷ script) (suc i) b h e = All-get_elem? script i b h.1 e

byte_at-lt : (script : List ℕ) (i : ℕ) → All IsPlain script → byte_at script i < 256
byte_at-lt script i h = elim (Option-cases (get_elem? script i)) [
  | inl e ↦ ground (arith, e)
  | inr (b, e) ↦ ground (arith, e, (All-get_elem? script i b h e).0)
]

-- A push of a plain script goes forward, by less than 2^17 bytes.
push_of_forward :
    (script : List ℕ) (i op len from : ℕ)
    → All IsPlain script
    → op < 79
    → op ≢ 0x4e
    → push_of script i op ≡ some (len, from)
    → (i < from) × (len < 2 ^ 17)
unfolding push_of
push_of_forward script i op len from h lt ne e = ground (
  arith,
  e,
  byte_at-lt script (i + 1) h,
  byte_at-lt script (i + 2) h,
  bit_or-disjoint 8 (byte_at script (i + 1)) (byte_at script (i + 2)),
)

payload_from-ne-running :
    (fuel : ℕ) (script : List ℕ) (i : ℕ) (chunks : List ℕ)
    → All IsPlain script
    → length script < fuel + i
    → 0 < fuel
    → payload_from fuel script i chunks ≢ running
unfolding payload_from
payload_from-ne-running zero script i chunks h lt pos = elim pos [ ]
payload_from-ne-running (suc fuel) script i chunks h lt pos =
    elim (Option-cases (get_elem? script i)) [
      | inl e ↦ λ r. ground (arith, e, r)
      | inr (op, e) ↦
          let plain = All-get_elem? script i op h e in
          let here = get_elem?-lt script i op e in
          elim (Option-cases (push_of script i op)) [
            | inl none_ ↦ λ r. ground (arith, e, none_, r)
            | inr ((len, from), f) ↦ λ r. ground (
              arith,
              e,
              f,
              r,
              plain,
              here,
              push_of_forward script i op len from h,
              payload_from-ne-running fuel script (from + len) (chunks ++ slice script from len) h,
            )
          ]
    ]

-- On a script of bytes that has no OP_PUSHDATA4 byte the loop ends within as many rounds as the script
-- has bytes.
pub runestone_payload_total :
    (script : List ℕ) → All IsPlain script → runestone_payload (length script) script ≢ running
unfolding runestone_payload
runestone_payload_total script h =
    λ r. ground (arith, r, payload_from-ne-running (length script) script 2 [] h)

slice-append : (pre s : List ℕ) (n : ℕ) → n ≡ length pre → slice (pre ++ s) n (length s) ≡ s
unfolding slice
slice-append pre [] n h = refl
slice-append pre (b ∷ s) n h =
    let rest =
      slice-append (pre ++ (b ∷ [])) s (n + 1) (omega (arith, length-append pre (b ∷ []))) in
    let found = get_elem?-append pre b s n h in
    ground (arith, found, rest, append_assoc pre (b ∷ []) s)

-- One direct push of at most 75 bytes behind OP_RETURN OP_13 is read back as those bytes.
pub runestone_payload_push :
    (bytes : List ℕ)
    → length bytes < 0x4c
    → runestone_payload 2 (0x6a ∷ 0x5d ∷ length bytes ∷ bytes) ≡ payload bytes
unfolding runestone_payload payload_from push_of
runestone_payload_push bytes lt =
    let script = 0x6a ∷ 0x5d ∷ length bytes ∷ bytes in
    ground (
      arith,
      get_elem?-ge script (3 + length bytes) (omega arith),
      slice-append (0x6a ∷ 0x5d ∷ length bytes ∷ []) bytes 3 (omega arith),
    )
