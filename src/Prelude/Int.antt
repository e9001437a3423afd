-- ===== src/Prelude/Int.antt =====
-- Go's signed `int`, over the native numbers.
use Prim.Native.Nat.{ℕ}
use mathlib.Core.Bool.{Bool, true, false}
use echo_mcp.Prelude.Tests.{ltb}

-- `negsuc n` is -(n + 1).
pub data ℤ : Type 0 where
  pos : ℕ → ℤ
  negsuc : ℕ → ℤ

-- Whether an integer is below a natural number, and above one.
abbrev pub int_lt : ℤ → ℕ → Bool
int_lt (pos n) k = ltb n k
int_lt (negsuc n) k = true

abbrev pub int_gt : ℤ → ℕ → Bool
int_gt (pos n) k = ltb k n
int_gt (negsuc n) k = false
