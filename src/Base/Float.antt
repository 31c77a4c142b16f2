-- ===== src/Base/Float.antt =====
-- Go's `float64`, which the language has no literal for here: a type with its operations. `literal m k`
-- is the constant m / 10 ^ k of the source, and `of_int` the conversion `float64(n)`.
use Prim.Native.Nat.{ℕ}
use mathlib.Core.Bool.{Bool}
use kube_nas.Base.Int.{ℤ}

pub record Float64 (F : Type 0) : Type 0 where
  pub literal : ℕ → ℕ → F
  pub of_int : ℤ → F
  pub add : F → F → F
  pub sub : F → F → F
  pub mul : F → F → F
  pub div : F → F → F
  pub lt : F → F → Bool
  pub abs : F → F
  pub min : F → F → F
  pub max : F → F → F
