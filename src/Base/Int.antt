-- ===== src/Base/Int.antt =====
-- Integers, for the BigInts that the code takes with either sign.
use Prim.Native.Nat.{ℕ, ◌+◌, ◌-◌}
use kray_node.Base.Tests.{ltb}
use mathlib.Core.Bool.{Bool, true, false}

pub data ℤ : Type 0 where
  pos : ℕ → ℤ
  -- `negsuc n` is -(n + 1).
  negsuc : ℕ → ℤ

-- `n < 0n ? 0n : n`
abbrev pub clamp : ℤ → ℕ
clamp (pos n) = n
clamp (negsuc n) = 0

-- `n < i`
abbrev pub ltb_int : ℕ → ℤ → Bool
ltb_int n (pos m) = ltb n m
ltb_int n (negsuc m) = false

-- `n - i`, which is 0 where `i` is more than `n`.
abbrev pub take_away : ℕ → ℤ → ℕ
take_away n (pos m) = n - m
take_away n (negsuc m) = n + (m + 1)

abbrev pub is_negative : ℤ → Bool
is_negative (pos n) = false
is_negative (negsuc n) = true
