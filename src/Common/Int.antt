-- ===== src/Common/Int.antt =====
-- Python's `int` where the program tests its sign: `negsuc n` is -(n + 1).
use Prim.Native.Nat.{ℕ}
use mathlib.Core.Bool.{Bool, false}
use ai_hyperscaler_on_workst.Common.Tests.{leb}

pub data ℤ : Type 0 where
  pos : ℕ → ℤ
  negsuc : ℕ → ℤ

-- `0 <= x <= bound`
abbrev pub within : ℤ → ℕ → Bool
within (pos n) bound = leb n bound
within (negsuc n) bound = false
