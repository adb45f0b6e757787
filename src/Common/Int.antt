-- ===== src/Common/Int.antt =====
-- Signed integers: `int` and `long` values, as mathematical integers.
use Prim.Native.Nat.{ℕ}

-- `negsuc n` is -(n + 1).
pub data ℤ : Type 0 where
  pos : ℕ → ℤ
  negsuc : ℕ → ℤ
