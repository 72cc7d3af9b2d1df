-- ===== src/Prelude/Double.antt =====
-- The C++ type `double` without its NaN, as a type with the operations that the source uses. Its
-- arithmetic is not part of the source: what a theorem needs of it is a hypothesis of the theorem.
use Prim.Native.Nat.{ℕ}
use mathlib.Core.Bool.{Bool}

pub record Doubles : Type 1 where
  pub Double : Type 0
  pub lit : ℕ → Double
  pub neg : Double → Double
  pub add : Double → Double → Double
  pub sub : Double → Double → Double
  pub mul : Double → Double → Double
  pub div : Double → Double → Double
  pub floor : Double → Double
  pub lt : Double → Double → Bool
  -- A conversion to an unsigned integer, at a value that is not negative.
  pub trunc : Double → ℕ
