-- ===== src/Base/Integers.antt =====
-- Whole numbers over the native ones: `negsuc n` is `-1 - n`.
use Prim.Native.Nat.{ℕ}

pub data ℤ : Type 0 where
  pos negsuc : ℕ → ℤ
