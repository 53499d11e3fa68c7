-- ===== src/Common/Floats.antt =====
-- The 64-bit floating-point numbers of the source, `f64`. They are a parameter: a type with the
-- operations that the source calls, of which nothing is assumed. Where a theorem needs a law of
-- them, the law is one of its hypotheses.
use Prim.Native.Nat.{ℕ}
use mathlib.Core.Bool.{Bool}
use mathlib.Core.List.{List}

pub record Floats : Type 1 where
  pub F64 : Type 0
  -- `as f64`, from `u32`, `u64` and `usize`; the literals `0.0` and `1.0` are those of 0 and 1
  pub of_nat : ℕ → F64
  pub add : F64 → F64 → F64
  pub sub : F64 → F64 → F64
  pub mul : F64 → F64 → F64
  pub div : F64 → F64 → F64
  -- `iter().sum()` and `iter().product()`
  pub total : List F64 → F64
  pub product : List F64 → F64
  -- `<` and `<=`
  pub lt : F64 → F64 → Bool
  pub le : F64 → F64 → Bool
  pub abs : F64 → F64
  pub max : F64 → F64 → F64
  pub is_finite : F64 → Bool
  -- `floor() as usize`
  pub floor : F64 → ℕ
