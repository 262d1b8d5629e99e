-- ===== src/Prelude/Int.antt =====
-- Go's `int` where the program uses a negative value: exit codes and unknown counts.
use Prim.Native.Nat.{ℕ}

-- `negsuc n` is -(n + 1).
pub data ℤ : Type 0 where
  pos : ℕ → ℤ
  negsuc : ℕ → ℤ
