-- ===== src/Base/Decimal.antt =====
-- `n.toString()` and `BigInt(s)` on decimal digits.
use kray_node.Base.Text.{Text, is_blank}
use kray_node.Base.Tests.{ltb, leb, if◌then◌else◌}
use kray_node.Base.Lists.{All}
use Prim.Native.Nat.{ℕ, zero, suc, ◌+◌, ◌-◌, ◌*◌, ◌/◌, ◌%◌, ◌<◌}
use mathlib.Core.Path.{◌≡◌, refl, ap, sym, ◌∙◌}
use mathlib.Core.Bool.{Bool, true, false, ◌&&◌}
use mathlib.Core.List.{[], ◌∷◌, ◌++◌}
use native.Mathlib.Omega.{arith}

abbrev pub is_digit : ℕ → Bool
is_digit c = leb b'0' c && leb c b'9'

decimal_from : ℕ → ℕ → Text
decimal_from zero n = []
decimal_from (suc fuel) n =
    let rest = decimal_from fuel (n / 10) in
    if ltb n 10 then (b'0' + n) ∷ [] else rest ++ ((b'0' + n % 10) ∷ [])

-- `n.toString()`
unfoldable pub decimal : ℕ → Text
unfolding decimal_from
decimal n = decimal_from (suc n) n

digits_value : ℕ → Text → ℕ
digits_value acc [] = acc
digits_value acc (c ∷ s) = digits_value (acc * 10 + (c - b'0')) s

-- `BigInt(s)` on a string of digits.
unfoldable pub decimal_value : Text → ℕ
unfolding digits_value
decimal_value s = digits_value 0 s

digits_value-concat :
    (acc c : ℕ) (s : Text) → digits_value acc (s ++ (c ∷ [])) ≡ digits_value acc s * 10 + (c - b'0')
unfolding digits_value
digits_value-concat acc c [] = refl
digits_value-concat acc c (d ∷ s) = digits_value-concat (acc * 10 + (d - b'0')) c s

decimal_from_value : (fuel n : ℕ) → n < fuel → digits_value 0 (decimal_from fuel n) ≡ n
unfolding decimal_from digits_value
decimal_from_value zero n h = elim h [ ]
decimal_from_value (suc fuel) n h = ground (
  arith,
  decimal_from_value fuel (n / 10),
  digits_value-concat 0 (b'0' + n % 10) (decimal_from fuel (n / 10)),
)

-- Reading back what was printed gives the number.
pub decimal_value-decimal : (n : ℕ) → decimal_value (decimal n) ≡ n
unfolding decimal decimal_value
decimal_value-decimal n = decimal_from_value (suc n) n (omega arith)

pub decimal-injective : (m n : ℕ) → decimal m ≡ decimal n → m ≡ n
decimal-injective m n h =
    sym (decimal_value-decimal m) ∙ ap decimal_value h ∙ decimal_value-decimal n

abbrev IsDigit : ℕ → Type 0
IsDigit c = is_digit c ≡ true

All-concat : (s : Text) (c : ℕ) → All IsDigit s → IsDigit c → All IsDigit (s ++ (c ∷ []))
All-concat [] c h p = (p, tt)
All-concat (d ∷ s) c (q, h) p = (q, All-concat s c h p)

decimal_from_digits : (fuel n : ℕ) → All IsDigit (decimal_from fuel n)
unfolding decimal_from
decimal_from_digits zero n = tt
decimal_from_digits (suc fuel) n = ground (
  arith,
  decimal_from_digits fuel (n / 10),
  All-concat (decimal_from fuel (n / 10)) (b'0' + n % 10),
)

pub decimal_digits : (n : ℕ) → All IsDigit (decimal n)
unfolding decimal
decimal_digits n = decimal_from_digits (suc n) n

is_blank-concat : (s : Text) (c : ℕ) → is_blank (s ++ (c ∷ [])) ≡ false
is_blank-concat [] c = refl
is_blank-concat (d ∷ s) c = refl

pub is_blank-decimal : (n : ℕ) → is_blank (decimal n) ≡ false
unfolding decimal
is_blank-decimal n = ground (arith, is_blank-concat (decimal_from n (n / 10)) (b'0' + n % 10))

-- Digits end where a letter that is no digit stands.
digits-inj :
    (a b : Text) (c : ℕ) (s t : Text)
    → All IsDigit a
    → All IsDigit b
    → is_digit c ≡ false
    → a ++ (c ∷ s) ≡ b ++ (c ∷ t)
    → (a ≡ b) × (s ≡ t)
digits-inj [] [] c s t ha hb h e = (refl, cc)
digits-inj [] (y ∷ b) c s t ha (hy, hb) h e = ground (arith, e, hy, h)
digits-inj (x ∷ a) [] c s t (hx, ha) hb h e = ground (arith, e, hx, h)
digits-inj (x ∷ a) (y ∷ b) c s t (hx, ha) (hy, hb) h e =
    ground (arith, e, digits-inj a b c s t ha hb h)

pub decimal_before-inj :
    (m n c : ℕ) (s t : Text)
    → is_digit c ≡ false
    → decimal m ++ (c ∷ s) ≡ decimal n ++ (c ∷ t)
    → (m ≡ n) × (s ≡ t)
decimal_before-inj m n c s t h e =
    let (ed, es) =
      digits-inj (decimal m) (decimal n) c s t (decimal_digits m) (decimal_digits n) h e in
    (decimal-injective m n ed, es)
