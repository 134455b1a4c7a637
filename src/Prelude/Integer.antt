-- ===== src/Prelude/Integer.antt =====
-- Python's `int` over the native numbers.
use Prim.Native.Nat.{ℕ}
use mathlib.Core.Bool.{Bool, true, false}

pub data ℤ : Type 0 where
  pos : ℕ → ℤ
  -- `-(n + 1)`
  negsuc : ℕ → ℤ

-- `value < 0`
unfoldable pub is_negative : ℤ → Bool
is_negative (pos n) = false
is_negative (negsuc n) = true
