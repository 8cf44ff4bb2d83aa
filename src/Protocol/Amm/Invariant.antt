-- ===== src/Protocol/Amm/Invariant.antt =====
-- What the quotes of the pools promise (amm.ts).
use kray_node.Base.{
  ℕ, ◌+◌, ◌-◌, ◌*◌, ◌/◌, ◌≤◌, ◌<◌, ◌≡◌, ◌==◌, arith, if◌then◌else◌, ap, Bool-cases, ◌⊎◌, inl, inr,
  leb,
}
use kray_node.Base.Result.{ok, err}
use kray_node.Economics.Isqrt.{isqrt-IsRoot, IsRoot}
use kray_node.Protocol.Amm.Quote.{
  output_rounds_to_zero, minimum_liquidity, out_for, quote_out, FirstMint, quote_first_mint,
  quote_add, Removed, quote_remove,
}
use mathlib.Core.Path.{subst, sym}
use native.Mathlib.Nat.{
  div-add-mod, mod-lt, mul-le-mul_left, mul-le-mul_right, le_of_mul-le-mul_left,
  le_of_mul-le-mul_right,
}

-- A quotient times its divisor is at most the dividend.
quotient_le : (n d : ℕ) → n / d * d ≤ n
quotient_le n d = omega (arith, div-add-mod n d)

out_for_le : (x y a : ℕ) → out_for x y a * (x * 1000 + a * 997) ≤ a * 997 * y
unfolding out_for
out_for_le x y a = quotient_le (a * 997 * y) (x * 1000 + a * 997)

out_below : (x y a o : ℕ) → 0 < x → 0 < y → o * (x * 1000 + a * 997) ≤ a * 997 * y → o < y
out_below x y a o px py h = elim (Bool-cases (leb y o)) [
  | inl e ↦
      let le : y ≤ o = ground (arith, e) in
      absurd (omega (arith, mul-le-mul_right (x * 1000 + a * 997) le, mul-le-mul_left x py))
  | inr e ↦ ground (arith, e)
]

k_kept_by : (x a o d : ℕ) → o * (x * 1000 + a * 997) ≤ a * 997 * (o + d) → x * (o + d) ≤ (x + a) * d
k_kept_by x a o d h = omega arith

k_kept : (x y a o : ℕ) → o < y → o * (x * 1000 + a * 997) ≤ a * 997 * y → x * y ≤ (x + a) * (y - o)
k_kept x y a o lt h =
    let e : o + (y - o) ≡ y = omega arith in
    subst (λ t. x * t ≤ (x + a) * (y - o)) e
      (k_kept_by x a o (y - o) (subst (λ t. o * (x * 1000 + a * 997) ≤ a * 997 * t) (sym e) h))

-- On a positive amount and a pool with both piles, the only refusal of a swap is an output that rounds
-- to zero: the two tests behind it, for a drained reserve and for a falling k, never fire.
pub quote_out_lem :
    (x y a : ℕ)
    → 0 < a
    → 0 < x
    → 0 < y
    → quote_out x y a
      ≡ (if out_for x y a == 0 then err output_rounds_to_zero else ok (out_for x y a))
unfolding quote_out
quote_out_lem x y a pa px py =
    let o = out_for x y a in
    let lt = out_below x y a o px py (out_for_le x y a) in
    ground (arith, lt, k_kept x y a o lt (out_for_le x y a))

-- `o` is the most that a swap can give: with the input weighed at 997 for 1000, the product of the
-- reserves does not fall, and one unit more would make it fall.
abbrev pub IsBestOut : ℕ → ℕ → ℕ → ℕ → Type 0
IsBestOut x y a o =
    (o < y)
    × (x * 1000 * y ≤ (x * 1000 + a * 997) * (y - o))
    × ((x * 1000 + a * 997) * (y - (o + 1)) < x * 1000 * y)

over_out_for : (x y a : ℕ) → 0 < x → a * 997 * y < (out_for x y a + 1) * (x * 1000 + a * 997)
unfolding out_for
over_out_for x y a px =
    let d = x * 1000 + a * 997 in
    let pd : 0 < d = omega arith in
    omega (arith, div-add-mod (a * 997 * y) d, mod-lt (a * 997 * y) pd)

best_by :
    (w d y o r : ℕ)
    → o + (r + 1) ≡ y
    → o * (w + d) ≤ d * y
    → d * y < (o + 1) * (w + d)
    → (w * y ≤ (w + d) * (r + 1)) × ((w + d) * r < w * y)
best_by w d y o r e le lt =
    let e1 = ap (λ t. (w + d) * t) e in (omega (arith, e1, le), omega (arith, e1, lt))

out_for-IsBestOut : (x y a : ℕ) → 0 < x → 0 < y → IsBestOut x y a (out_for x y a)
out_for-IsBestOut x y a px py =
    let o = out_for x y a in
    let lt = out_below x y a o px py (out_for_le x y a) in
    let (kept, most) =
      best_by (x * 1000) (a * 997) y o (y - (o + 1)) (omega arith) (out_for_le x y a)
        (over_out_for x y a px) in
    let e : y - (o + 1) + 1 ≡ y - o = omega arith in
    (lt, subst (λ t. x * 1000 * y ≤ (x * 1000 + a * 997) * t) e kept, most)

-- On a positive amount and a pool with both piles, the quote is the most that the pool can give while
-- the product of its reserves, the input weighed at 997 for 1000, does not fall. It is refused only if
-- that is nothing: the tests for a drained reserve and for a falling k never fire.
pub quote_out_best :
    (x y a : ℕ)
    → 0 < a
    → 0 < x
    → 0 < y
    → (o : ℕ) × IsBestOut x y a o
      × (quote_out x y a ≡ (if o == 0 then err output_rounds_to_zero else ok o))
quote_out_best x y a pa px py =
    (out_for x y a, out_for-IsBestOut x y a px py, quote_out_lem x y a pa px py)

-- Every swap that is quoted leaves a reserve behind and a product of the reserves that is not smaller.
pub quote_out_keeps_k :
    (x y a o : ℕ) → quote_out x y a ≡ ok o → (0 < o) × (o < y) × (x * y ≤ (x + a) * (y - o))
unfolding quote_out
quote_out_keeps_k x y a o h = ground (arith, h)

-- Swapping there and straight back never gains: what comes back is at most what went in.
pub quote_out_there_and_back :
    (x y a o b : ℕ) → quote_out x y a ≡ ok o → quote_out (y - o) (x + a) o ≡ ok b → b ≤ a
quote_out_there_and_back x y a o b there back =
    let (po, lo, kept) = quote_out_keeps_k x y a o there in
    let (pb, lb, kept') = quote_out_keeps_k (y - o) (x + a) o b back in
    let whole : y - o + o ≡ y = omega arith in
    let same = ap (λ t. t * (x + a - b)) whole in
    let le : y * x ≤ y * (x + a - b) = omega (arith, kept, kept', same) in
    omega (arith, le_of_mul-le-mul_left {k = y} le (omega arith), lb)

-- A first deposit mints the square root of the product, less the dead shares.
pub quote_first_mint_lem :
    (a b : ℕ) (m : FirstMint)
    → quote_first_mint a b ≡ ok m
    → IsRoot (a * b) m.supply × (m.minted + minimum_liquidity ≡ m.supply) × (0 < m.minted)
unfolding quote_first_mint
quote_first_mint_lem a b m h = ground (arith, h, isqrt-IsRoot (a * b))

-- One side of a deposit that mints `m` shares.
undiluted : (r s a m : ℕ) → m ≤ a * s / r → r * (s + m) ≤ (r + a) * s
undiluted r s a m le = omega (arith, mul-le-mul_right r le, quotient_le (a * s) r)

one_more : (r s a m : ℕ) → 0 < r → m ≡ a * s / r → (r + a) * s < r * (s + m + 1)
one_more r s a m pr e = omega (arith, div-add-mod (a * s) r, mod-lt (a * s) pr, ap (λ t. r * t) e)

-- One side of a withdrawal of `lp` shares.
left_behind : (r s lp o : ℕ) → lp ≤ s → o ≤ r → o * s ≤ lp * r → r * (s - lp) ≤ (r - o) * s
left_behind r s lp o le le' h =
    let e : lp + (s - lp) ≡ s = omega arith in
    let e' : o + (r - o) ≡ r = omega arith in omega (arith, ap (λ t. r * t) e, ap (λ t. t * s) e')

-- What the guards of a deposit leave.
quote_add_ok :
    (ra rb s a b m : ℕ)
    → quote_add ra rb s a b ≡ ok m
    → (0 < m)
      × (0 < ra)
      × (0 < rb)
      × (0 < s)
      × (m ≤ a * s / ra)
      × (m ≤ b * s / rb)
      × ((m ≡ a * s / ra) ⊎ (m ≡ b * s / rb))
unfolding quote_add
quote_add_ok ra rb s a b m h = ground (arith, h)

quote_remove_ok :
    (rk rr s lp : ℕ) (r : Removed)
    → quote_remove rk rr s lp ≡ ok r
    → (lp ≤ s)
      × (r.kray_out < rk)
      × (r.rune_out < rr)
      × (r.kray_out ≡ lp * rk / s)
      × (r.rune_out ≡ lp * rr / s)
unfolding quote_remove
quote_remove_ok rk rr s lp r h = ground (arith, h)

paid_le : (r s lp o : ℕ) → o ≡ lp * r / s → o * s ≤ lp * r
paid_le r s lp o e = omega (arith, ap (λ t. t * s) e, quotient_le (lp * r) s)

back_at_most :
    (r s a m o : ℕ) → 0 < s → r * (s + m) ≤ (r + a) * s → o * (s + m) ≤ m * (r + a) → o ≤ a
back_at_most r s a m o ps h h' =
    let le : o * (s + m) ≤ a * (s + m) = omega arith in
    le_of_mul-le-mul_right {k = s + m} le (omega arith)

-- Shares that are minted for a deposit never dilute the others: on neither side does the reserve behind
-- a share fall. They are the most that do not: one share more would take too much on one side.
pub quote_add_fair :
    (ra rb s a b m : ℕ)
    → quote_add ra rb s a b ≡ ok m
    → (0 < m)
      × (ra * (s + m) ≤ (ra + a) * s)
      × (rb * (s + m) ≤ (rb + b) * s)
      × (((ra + a) * s < ra * (s + m + 1)) ⊎ ((rb + b) * s < rb * (s + m + 1)))
quote_add_fair ra rb s a b m h =
    let (pm, pa, pb, ps, la, lb, most) = quote_add_ok ra rb s a b m h in
    (
      pm,
      undiluted ra s a m la,
      undiluted rb s b m lb,
      elim most [ inl e ↦ inl (one_more ra s a m pa e) | inr e ↦ inr (one_more rb s b m pb e) ],
    )

-- Burning shares pays out at most their part: what is left behind a share does not fall, on either side,
-- and both reserves stay positive.
pub quote_remove_fair :
    (rk rr s lp : ℕ) (r : Removed)
    → quote_remove rk rr s lp ≡ ok r
    → (lp ≤ s)
      × (r.kray_out < rk)
      × (r.rune_out < rr)
      × (rk * (s - lp) ≤ (rk - r.kray_out) * s)
      × (rr * (s - lp) ≤ (rr - r.rune_out) * s)
quote_remove_fair rk rr s lp r h =
    let (le, lk, lr, ek, er) = quote_remove_ok rk rr s lp r h in
    (
      le,
      lk,
      lr,
      left_behind rk s lp r.kray_out le (omega arith) (paid_le rk s lp r.kray_out ek),
      left_behind rr s lp r.rune_out le (omega arith) (paid_le rr s lp r.rune_out er),
    )

-- Adding to a pool and at once burning the minted shares gives back, on each side, at most what was put
-- in.
pub quote_remove-quote_add :
    (ra rb s a b m : ℕ) (r : Removed)
    → quote_add ra rb s a b ≡ ok m
    → quote_remove (ra + a) (rb + b) (s + m) m ≡ ok r
    → (r.kray_out ≤ a) × (r.rune_out ≤ b)
quote_remove-quote_add ra rb s a b m r added removed =
    let (pm, fair_a, fair_b, most) = quote_add_fair ra rb s a b m added in
    let ps = (quote_add_ok ra rb s a b m added).3 in
    let (le, lk, lr, ek, er) = quote_remove_ok (ra + a) (rb + b) (s + m) m r removed in
    (
      back_at_most ra s a m r.kray_out ps fair_a (paid_le (ra + a) (s + m) m r.kray_out ek),
      back_at_most rb s b m r.rune_out ps fair_b (paid_le (rb + b) (s + m) m r.rune_out er),
    )
