-- ===== src/Protocol/Runestone/Name.antt =====
-- `runeName`, `runeValue` and `spacedRuneName` (runestone.ts): the modified base-26 of rune names.
use kray_node.Base.{
  ℕ, zero, suc, ◌+◌, ◌-◌, ◌*◌, ◌/◌, ◌%◌, ◌^◌, ◌≤◌, ◌<◌, ◌≡◌, refl, ap, ◌∙◌, ◌||◌, not, Option, none,
  some, [], ◌∷◌, ◌++◌, arith, ltb, ◌==◌, if◌then◌else◌, All, Bool-cases, Option-cases, inl, inr,
}
use kray_node.Base.Text.{Text}
use kray_node.Protocol.Runestone.Artifact.{u128_max}
use Prim.Native.Nat.{bit_and}
use mathlib.Core.Path.{subst}

-- `while (v > 0n) { out = letter((v - 1n) % 26n) + out; v = (v - 1n) / 26n }`
unfoldable pub name_from : ℕ → ℕ → Text → Text
name_from zero v out = out
name_from (suc fuel) v out =
    let rest = name_from fuel ((v - 1) / 26) (((v - 1) % 26 + 65) ∷ out) in
    if ltb 0 v then rest else out

-- `none` is the `throw`. Each round shrinks `v`, which starts at `n + 1`.
unfoldable pub rune_name : ℕ → Option Text
rune_name n = if ltb u128_max n then none else some (name_from (suc (suc n)) (n + 1) [])

-- The value of a name; the blank name has the value -1.
pub data RuneValue : Type 0 where
  refused : RuneValue
  minus_one : RuneValue
  value : ℕ → RuneValue

unfoldable pub value_from : ℕ → Text → Option ℕ
value_from v [] = some v
value_from v (c ∷ name) =
    let rest = value_from (v * 26 + (c - 65) + 1) name in
    if ltb c 65 || ltb 90 c then none else rest

-- `return v - 1n`
abbrev pub less_one : Option ℕ → RuneValue
less_one none = refused
less_one (some v) = if v == 0 then minus_one else value (v - 1)

unfoldable pub rune_value : Text → RuneValue
rune_value name = less_one (value_from 0 name)

-- The letters of the name with a `•` behind each place whose spacer is set, but the last.
unfoldable pub space_from : ℕ → ℕ → Text → Text
space_from spacers i [] = []
space_from spacers i (c ∷ []) = c ∷ []
space_from spacers i (c ∷ d ∷ name) =
    let rest = space_from spacers (i + 1) (d ∷ name) in
    if not (bit_and spacers (2 ^ (i % 32)) == 0) then c ∷ 0x2022 ∷ rest else c ∷ rest

unfoldable pub spaced_rune_name : ℕ → ℕ → Option Text
spaced_rune_name n spacers = elim (rune_name n) [
  | none ↦ none
  | some name ↦ some (space_from spacers 0 name)
]

value_from-append :
    (v : ℕ) (s t : Text) (w : ℕ) → value_from v s ≡ some w → value_from v (s ++ t) ≡ value_from w t
unfolding value_from
value_from-append v [] t w h = ground arith
value_from-append v (c ∷ s) t w h = ground (arith, value_from-append (v * 26 + (c - 65) + 1) s t w)

value_from_nil : (v : ℕ) → value_from v [] ≡ some v
unfolding value_from
value_from_nil v = refl

name_from_zero : (name : Text) → name_from 1 0 name ≡ name
unfolding name_from
name_from_zero name = refl

letter_read :
    (w : ℕ) (s : Text)
    → 0 < w
    → value_from ((w - 1) / 26) (((w - 1) % 26 + 65) ∷ s) ≡ value_from w s
unfolding value_from
letter_read w s p =
    let e : (w - 1) / 26 * 26 + ((w - 1) % 26 + 65 - 65) + 1 ≡ w = omega arith in ground (arith, e)

-- Reading from 0 the name that is built in front of `out` gives the number, and goes on with `out`.
value_from-name_from :
    (fuel v : ℕ) (out : Text) → v < fuel → value_from 0 (name_from fuel v out) ≡ value_from v out
unfolding name_from
value_from-name_from zero v out h = elim h [ ]
value_from-name_from (suc fuel) v out h = elim (Bool-cases (ltb 0 v)) [
  | inl more ↦ rw more (
      value_from-name_from fuel ((v - 1) / 26) (((v - 1) % 26 + 65) ∷ out) (ground arith)
      ∙ letter_read v out (ground arith))
  | inr done ↦ rw done (let e : 0 ≡ v = ground arith in ap (λ (t : ℕ). value_from t out) e)
]

-- A rune's name is read back as its value.
pub rune_value-rune_name :
    (n : ℕ) (name : Text) → rune_name n ≡ some name → rune_value name ≡ value n
unfolding rune_name rune_value
rune_value-rune_name n name h = elim (Bool-cases (ltb u128_max n)) [
  | inl big ↦ ground (arith, h)
  | inr fits ↦
      let read = value_from-name_from (suc (suc n)) (n + 1) [] (omega arith) in
      ground (arith, h, fits, read, value_from_nil (n + 1))
]

-- A name is of capital letters only.
abbrev IsLetter : ℕ → Type 0
IsLetter c = (65 ≤ c) × (c ≤ 90)

name_from_letters :
    (fuel v : ℕ) (out : Text) → All IsLetter out → All IsLetter (name_from fuel v out)
unfolding name_from
name_from_letters zero v out h = h
name_from_letters (suc fuel) v out h = elim (Bool-cases (ltb 0 v)) [
  | inl more ↦
      rw more (name_from_letters fuel ((v - 1) / 26) (((v - 1) % 26 + 65) ∷ out) (omega arith, h))
  | inr done ↦ rw done h
]

-- A rune's name is written in capital letters.
pub rune_name-letters : (n : ℕ) (name : Text) → rune_name n ≡ some name → All IsLetter name
unfolding rune_name
rune_name-letters n name h = elim (Bool-cases (ltb u128_max n)) [
  | inl big ↦ ground (arith, h)
  | inr fits ↦
      let e : name_from (suc (suc n)) (n + 1) [] ≡ name = ground (arith, h, fits) in
      subst (All IsLetter) e (name_from_letters (suc (suc n)) (n + 1) [] tt)
]

name_from_enough : (f g v : ℕ) (out : Text) → v < f → v < g → name_from f v out ≡ name_from g v out
unfolding name_from
name_from_enough zero g v out p q = elim p [ ]
name_from_enough (suc f) zero v out p q = elim q [ ]
name_from_enough (suc f) (suc g) v out p q =
    ground (arith, name_from_enough f g ((v - 1) / 26) (((v - 1) % 26 + 65) ∷ out))

-- One letter read is one letter written.
letter_written :
    (c v : ℕ) (name : Text)
    → 65 ≤ c
    → c ≤ 90
    → name_from (suc (v * 26 + (c - 65) + 1)) (v * 26 + (c - 65) + 1) name
      ≡ name_from (suc v) v (c ∷ name)
unfolding name_from
letter_written c v name lo hi =
    let w = v * 26 + (c - 65) + 1 in
    let q : (w - 1) / 26 ≡ v = omega arith in
    let r : (w - 1) % 26 + 65 ≡ c = omega arith in
    ground (arith, q, r, name_from_enough w (suc v) v (c ∷ name))

name_from-value_from :
    (name : Text) (v w fuel : ℕ)
    → value_from v name ≡ some w
    → w < fuel
    → name_from fuel w [] ≡ name_from (suc v) v name
unfolding value_from
name_from-value_from [] v w fuel h lt =
    let e : v ≡ w = ground (arith, h) in ground (arith, name_from_enough fuel (suc v) v [])
name_from-value_from (c ∷ name) v w fuel h lt =
    let w' = v * 26 + (c - 65) + 1 in
    ground (arith, letter_written c v name, name_from-value_from name w' w fuel)

-- A text that is read as a u128 is the name of that number: no rune has two names.
pub rune_name-rune_value :
    (name : Text) (n : ℕ) → rune_value name ≡ value n → n ≤ u128_max → rune_name n ≡ some name
unfolding rune_name rune_value
rune_name-rune_value name n h fits = elim (Option-cases (value_from 0 name)) [
  | inl bad ↦ ground (arith, h, bad)
  | inr (w, e) ↦
      ground (arith, h, e, name_from-value_from name 0 w (suc (suc n)), name_from_zero name)
]
