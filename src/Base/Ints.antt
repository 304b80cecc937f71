-- ===== src/Base/Ints.antt =====
-- Signed numbers, of which the program compares some and stores others.
use Prim.Native.Nat.{ℕ}
use mathlib.Core.Bool.{Bool, false}
use cocoa_way.Base.Tests.{◌==◌}

-- `negsuc n` is -(n + 1).
pub data ℤ : Type 0 where
  pos negsuc : ℕ → ℤ

abbrev pub int_eq : ℤ → ℤ → Bool
int_eq (pos a) (pos b) = a == b
int_eq (negsuc a) (negsuc b) = a == b
int_eq _ _ = false
