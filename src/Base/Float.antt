-- ===== src/Base/Float.antt =====
-- The float64 operations that the program uses, over a type of values. No law of them is assumed
-- but where a theorem names it.
use Prim.Native.Nat.{ℕ}
use mathlib.Core.Bool.{Bool}

pub record Floats (F : Type 0) : Type 0 where
  pub of_nat : ℕ → F
  pub less : F → F → Bool
  pub plus : F → F → F
  pub times : F → F → F
  pub over : F → F → F
