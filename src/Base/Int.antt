-- ===== src/Base/Int.antt =====
-- Signed integers over the native numbers, and the wrap-around of int64.
use Prim.Native.Nat.{ℕ, ◌-◌, ◌%◌, ◌^◌}
use mathlib.Core.Bool.{Bool, true, false}
use caddy_formward.Base.Tests.{ltb, if◌then◌else◌}

-- `negsuc n` is -(n + 1).
pub data ℤ : Type 0 where
  pos : ℕ → ℤ
  negsuc : ℕ → ℤ

-- `x < 0`
abbrev pub is_neg : ℤ → Bool
is_neg (pos n) = false
is_neg (negsuc n) = true

-- `x > 0`
abbrev pub is_pos : ℤ → Bool
is_pos (pos n) = ltb 0 n
is_pos (negsuc n) = false

-- `x == 0`
abbrev pub is_zero : ℤ → Bool
is_zero (pos n) = ltb n 1
is_zero (negsuc n) = false

-- The int64 that the low 64 bits of a non-negative number stand for.
unfoldable pub wrap64 : ℕ → ℤ
wrap64 n = let r = n % 2 ^ 64 in if ltb r (2 ^ 63) then pos r else negsuc (2 ^ 64 - 1 - r)
