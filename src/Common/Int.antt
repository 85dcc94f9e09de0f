-- ===== src/Common/Int.antt =====
-- Go's int, where a value may be negative.
use Prim.Native.Nat.{ℕ}

pub data ℤ : Type 0 where
  pos : ℕ → ℤ
  negsuc : ℕ → ℤ
