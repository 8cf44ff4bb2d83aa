-- ===== src/Economics/Honocracy.antt =====
-- The voice of an address (economics/honocracy.ts), whose isqrt has the text of the one in presence.ts.
use kray_node.Base.{ℕ, ◌+◌, ◌*◌, ◌≤◌, ltb, leb, if◌then◌else◌, arith, Bool-cases, inl, inr}
use kray_node.Economics.Isqrt.{isqrt, IsRoot, isqrt-IsRoot}
use native.Mathlib.Nat.{mul-le-mul_left, mul-le-mul}

pub record HonocracyParams : Type 0 where
  pub base : ℕ
  pub wg : ℕ
  pub wk : ℕ
  pub c : ℕ
  pub k0 : ℕ

abbrev pub default_honocracy : HonocracyParams
default_honocracy = record { base = 1; wg = 3; wk = 1; c = 10; k0 = 100 }

unfoldable pub unlocked_kray : HonocracyParams → ℕ → ℕ → ℕ
unlocked_kray p glow kray = let most = p.c * glow + p.k0 in if ltb kray most then kray else most

unfoldable pub voice : HonocracyParams → ℕ → ℕ → ℕ
voice p glow kray =
    let honor = p.wg * isqrt glow in
    let participation = p.wk * isqrt (unlocked_kray p glow kray) in p.base + honor + participation

isqrt_mono : (m n : ℕ) → m ≤ n → isqrt m ≤ isqrt n
unfolding IsRoot
isqrt_mono m n h =
    let (lo, hi) = isqrt-IsRoot m in
    let (lo', hi') = isqrt-IsRoot n in
    elim (Bool-cases (leb (isqrt m) (isqrt n))) [
      | inl e ↦ ground (arith, e)
      | inr e ↦
          let le : isqrt n + 1 ≤ isqrt m = ground (arith, e) in
          absurd (omega (arith, lo, hi', h, mul-le-mul le le))
    ]

-- The voice is at most the floor, the honor of the glow, and the share of the most that the glow
-- unlocks: no holding, however large, takes it further.
pub voice_most :
    (p : HonocracyParams) (glow kray : ℕ)
    → voice p glow kray ≤ p.base + p.wg * isqrt glow + p.wk * isqrt (p.c * glow + p.k0)
unfolding voice unlocked_kray
voice_most p glow kray =
    let most = p.c * glow + p.k0 in
    let unlocked = if ltb kray most then kray else most in
    let within : unlocked ≤ most = ground arith in
    omega (arith, mul-le-mul_left p.wk (isqrt_mono unlocked most within))
