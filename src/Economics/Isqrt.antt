-- ===== src/Economics/Isqrt.antt =====
-- `isqrt` (presence.ts): Newton's integer square root. BigInt arguments are natural numbers here.
use kray_node.Base.{
  ℕ, zero, suc, ◌+◌, ◌*◌, ◌/◌, ◌≤◌, ◌<◌, arith, true, false, ltb, leb, ◌≡◌, ap, ◌-◌, if◌then◌else◌,
  Bool-cases, inl, inr,
}
use mathlib.Core.Path.{subst}
use native.Mathlib.Nat.{div_self, div-add-mod, mod-lt, mul-le-mul_left}

-- `while (y < x) { x = y; y = (x + n / x) / 2n }`, where `y` is always computed from `x`.
unfoldable pub newton : ℕ → ℕ → ℕ → ℕ → ℕ
newton zero n x y = x
newton (suc fuel) n x y = elim (ltb y x) [ true ↦ newton fuel n y ((y + n / y) / 2) | false ↦ x ]

-- `x` starts at `n` and falls in each round, so `n` rounds are enough.
unfoldable pub isqrt : ℕ → ℕ
isqrt n = if ltb n 2 then n else newton n n n ((n + 1) / 2)

-- A product is at most the square of the mean of its factors.
mean_square_near : (a d b : ℕ) → b ≤ a + 2 * d → a * b ≤ (a + d) * (a + d)
mean_square_near a d b h = omega (arith, mul-le-mul_left a h)

mean_square : (a b m : ℕ) → a + b ≤ 2 * m → a * b ≤ m * m
mean_square a b m h = elim (Bool-cases (leb a m)) [
  | inl le ↦
      let e : a + (m - a) ≡ m = ground (arith, le) in
      subst (λ t. a * b ≤ t * t) e (mean_square_near a (m - a) b (ground (arith, le)))
  | inr gt ↦
      let e : b + (m - b) ≡ m = ground (arith, gt) in
      omega
        (arith, subst (λ t. b * a ≤ t * t) e (mean_square_near b (m - b) a (ground (arith, gt))))
]

-- Newton's step is never below the root.
newton_step_above : (n x : ℕ) → 0 < x → n < ((x + n / x) / 2 + 1) * ((x + n / x) / 2 + 1)
newton_step_above n x px =
    let y = (x + n / x) / 2 in
    let q : n < x * (n / x + 1) = omega (arith, div-add-mod n x, mod-lt n px) in
    omega (arith, q, mean_square x (n / x + 1) (y + 1) (omega arith))

-- Where the step does not go down, the place is not above the root.
stop_below : (n x : ℕ) → 0 < x → x ≤ (x + n / x) / 2 → x * x ≤ n
stop_below n x px h =
    let le : x ≤ n / x = omega arith in omega (arith, div-add-mod n x, mul-le-mul_left x le)

-- `r` is the root of `n`, rounded down.
unfoldable pub IsRoot : ℕ → ℕ → Type 0
IsRoot n r = (r * r ≤ n) × (n < (r + 1) * (r + 1))

above_zero : (n y : ℕ) → 0 < n → n < (y + 1) * (y + 1) → 0 < y
above_zero n zero pn h = absurd (omega arith)
above_zero n (suc y) pn h = omega arith

stop-IsRoot : (n x : ℕ) → 0 < x → n < (x + 1) * (x + 1) → x ≤ (x + n / x) / 2 → IsRoot n x
unfolding IsRoot
stop-IsRoot n x px above h = (stop_below n x px h, above)

newton-IsRoot :
    (fuel n x : ℕ)
    → 0 < x
    → 0 < n
    → x ≤ fuel
    → n < (x + 1) * (x + 1)
    → IsRoot n (newton fuel n x ((x + n / x) / 2))
unfolding newton
newton-IsRoot zero n x px pn le above = absurd (omega arith)
newton-IsRoot (suc fuel) n x px pn le above =
    let y = (x + n / x) / 2 in
    let above' = newton_step_above n x px in
    let py = above_zero n y pn above' in
    ground (arith, stop-IsRoot n x px, newton-IsRoot fuel n y py pn)

self_step : (n : ℕ) → 0 < n → (n + n / n) / 2 ≡ (n + 1) / 2
self_step n pn = ap (λ t. (n + t) / 2) (div_self pn)

small-IsRoot : (n : ℕ) → n < 2 → IsRoot n n
unfolding IsRoot
small-IsRoot zero h = (omega arith, omega arith)
small-IsRoot (suc zero) h = (omega arith, omega arith)
small-IsRoot (suc (suc n)) h = absurd (omega arith)

start_above : (n : ℕ) → n < (n + 1) * (n + 1)
start_above n = omega arith

-- `isqrt` is the square root rounded down, and its loop ends within `n` rounds.
pub isqrt-IsRoot : (n : ℕ) → IsRoot n (isqrt n)
unfolding isqrt
isqrt-IsRoot n = ground (arith, small-IsRoot n, self_step n, start_above n, newton-IsRoot n n n)
