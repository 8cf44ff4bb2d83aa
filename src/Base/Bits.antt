-- ===== src/Base/Bits.antt =====
-- What the program's masks, shifts and ors are in arithmetic, at every width.
use Prim.Native.Nat.{
  ℕ, zero, suc, ◌+◌, ◌*◌, ◌/◌, ◌%◌, ◌^◌, ◌≤◌, ◌<◌, min, max, bit_and, bit_or, digits,
  bit_and-bitwise, bit_or-bitwise,
}
use mathlib.Core.Path.{◌≡◌, refl, ap, ◌∙◌}
use mathlib.Core.Bool.{Bool, true, ◌&&◌}
use kray_node.Base.Tests.{◌==◌, ==_iff}
use native.Mathlib.Omega.{arith}
use native.Mathlib.Nat.{pow-suc, mod-lt, mod-eq_of_lt, div-add-mod, add-mul-mod_self_left}

-- The native operations count digits with the first number as fuel; any larger fuel does as well.
module _ (z : ℕ → ℕ) (f : ℕ → ℕ → ℕ) where
  digits_enough : (m n a b : ℕ) → a ≤ m → a ≤ n → digits z f m a b ≡ digits z f n a b
  digits_enough zero zero a b p q = refl
  digits_enough zero (suc n) zero b p q = refl
  digits_enough (suc m) zero zero b p q = refl
  digits_enough (suc m) (suc n) zero b p q = refl
  digits_enough zero n (suc a) b p q = absurd (omega arith)
  digits_enough (suc m) zero (suc a) b p q = absurd (omega arith)
  digits_enough (suc m) (suc n) (suc a) b p q =
      omega (arith, digits_enough m n (suc a / 2) (b / 2) (omega arith) (omega arith))

pub zero-bit_or : (b : ℕ) → bit_or 0 b ≡ b
zero-bit_or b = bit_or-bitwise 0 b

zero-bit_and : (b : ℕ) → bit_and 0 b ≡ 0
zero-bit_and b = bit_and-bitwise 0 b

-- One equation for the lowest digit.
bit_or-halves : (a b : ℕ) → bit_or a b ≡ bit_or (a / 2) (b / 2) * 2 + max (a % 2) (b % 2)
bit_or-halves zero b = omega (arith, zero-bit_or b, zero-bit_or (b / 2))
bit_or-halves (suc a) b = omega (
  arith,
  bit_or-bitwise (suc a) b,
  bit_or-bitwise (suc a / 2) (b / 2),
  digits_enough (λ y. y) max a (suc a / 2) (suc a / 2) (b / 2) (omega arith) (omega arith),
)

bit_and-halves : (a b : ℕ) → bit_and a b ≡ bit_and (a / 2) (b / 2) * 2 + min (a % 2) (b % 2)
bit_and-halves zero b = omega (arith, zero-bit_and b, zero-bit_and (b / 2))
bit_and-halves (suc a) b = omega (
  arith,
  bit_and-bitwise (suc a) b,
  bit_and-bitwise (suc a / 2) (b / 2),
  digits_enough (λ y. 0) min a (suc a / 2) (suc a / 2) (b / 2) (omega arith) (omega arith),
)

-- Numbers with no digit in common are added: `a | (x << i)` for `a` below `1 << i`.
pub bit_or-disjoint : (i a x : ℕ) → a < 2 ^ i → bit_or a (x * 2 ^ i) ≡ a + x * 2 ^ i
bit_or-disjoint zero zero x h = omega (arith, zero-bit_or (x * 2 ^ 0))
bit_or-disjoint zero (suc a) x h = absurd (omega arith)
bit_or-disjoint (suc i) a x h =
    let twice : x * 2 ^ suc i ≡ x * 2 ^ i * 2 =
      omega (arith, ap (λ (t : ℕ). x * t) (pow-suc 2 i)) in
    let half : x * 2 ^ suc i / 2 ≡ x * 2 ^ i = omega (arith, twice) in
    omega (
      arith,
      pow-suc 2 i,
      twice,
      bit_or-halves a (x * 2 ^ suc i),
      ap (bit_or (a / 2)) half,
      bit_or-disjoint i (a / 2) x (omega arith),
    )

-- The number whose `k` lowest digits are ones.
ones : ℕ → ℕ
ones zero = 0
ones (suc k) = ones k * 2 + 1

bit_and-zero_upto : (n a : ℕ) → a ≤ n → bit_and a 0 ≡ 0
bit_and-zero_upto n zero h = zero-bit_and 0
bit_and-zero_upto zero (suc a) h = absurd (omega arith)
bit_and-zero_upto (suc n) (suc a) h =
    omega (arith, bit_and-halves (suc a) 0, bit_and-zero_upto n (suc a / 2) (omega arith))

-- A mask of low ones takes the remainder.
two-pow-pos : (k : ℕ) → 0 < 2 ^ k
two-pow-pos zero = omega arith
two-pow-pos (suc k) = omega (arith, pow-suc 2 k, two-pow-pos k)

mod-double : (a m : ℕ) → 0 < m → a % (m * 2) ≡ a / 2 % m * 2 + a % 2
mod-double a m h =
    let r = a / 2 % m * 2 + a % 2 in
    let q = a / 2 / m in
    let split : a ≡ r + m * 2 * q = omega (arith, div-add-mod (a / 2) m) in
    let small : r < m * 2 = omega (arith, mod-lt (a / 2) h) in
    ap (λ (t : ℕ). t % (m * 2)) split ∙ add-mul-mod_self_left r (m * 2) q ∙ mod-eq_of_lt small

bit_and-ones : (k a : ℕ) → bit_and a (ones k) ≡ a % 2 ^ k
unfolding ones
bit_and-ones zero a = omega (arith, bit_and-zero_upto a a (omega arith))
bit_and-ones (suc k) a =
    let half : (ones k * 2 + 1) / 2 ≡ ones k = omega arith in
    omega (
      arith,
      bit_and-halves a (ones k * 2 + 1),
      ap (bit_and (a / 2)) half,
      bit_and-ones k (a / 2),
      pow-suc 2 k,
      ap (λ (t : ℕ). a % t) (pow-suc 2 k),
      mod-double a (2 ^ k) (two-pow-pos k),
    )

-- `v & 0x7f`
pub bit_and_127 : (a : ℕ) → bit_and a 0x7f ≡ a % 128
unfolding ones
bit_and_127 a = bit_and-ones 7 a

-- A test of every number below a bound, by evaluation.
holds_below : ℕ → (ℕ → Bool) → Bool
holds_below zero p = true
holds_below (suc n) p = p n && holds_below n p

holds_below_sound : (n : ℕ) (p : ℕ → Bool) (b : ℕ) → holds_below n p ≡ true → b < n → p b ≡ true
unfolding holds_below
holds_below_sound zero p b h lt = elim lt [ ]
holds_below_sound (suc n) p b h lt = ground (arith, holds_below_sound n p b)

top_digit_table : holds_below 256 (λ b. bit_and b 0x80 == b / 128 * 128) ≡ true
unfolding holds_below
top_digit_table = refl

-- `b & 0x80` is the test of the top digit of a byte.
pub bit_and_128 : (b : ℕ) → b < 256 → bit_and b 0x80 ≡ b / 128 * 128
bit_and_128 b h = (==_iff _ _).0 (holds_below_sound 256 _ b top_digit_table h)

-- `g | 0x80` on a group of seven digits.
pub bit_or_128 : (g : ℕ) → g < 128 → bit_or g 0x80 ≡ g + 128
bit_or_128 g h = bit_or-disjoint 7 g 1 h
