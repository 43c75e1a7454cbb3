-- ===== src/Base/Float.antt =====
-- `f64` is a parameter: a type with the constants, operations and comparisons that the code uses.
use mathlib.Core.Bool.{Bool}
use mathlib.Core.List.{List, foldl}
use Prim.Native.Nat.{ℕ}
use keck.Base.Tests.{if◌then◌else◌}

pub record Float64 {ℓ} (F : Type ℓ) : Type ℓ where
  -- `lit m d` is the literal m · 10^-d
  pub lit : ℕ → ℕ → F
  -- `as f64` of a `u64`, `u32` or `usize`
  pub of_u64 : ℕ → F
  -- `as u64` and `as u32`, which saturate
  pub to_u64 : F → ℕ
  pub to_u32 : F → ℕ
  pub add : F → F → F
  pub sub : F → F → F
  pub mul : F → F → F
  pub div : F → F → F
  pub powi : F → ℕ → F
  pub sqrt : F → F
  pub abs : F → F
  -- `f64::INFINITY`
  pub infinity : F
  -- `f64::min` and `f64::max`
  pub least : F → F → F
  pub greatest : F → F → F
  -- `<` and `<=`, false where an argument is NaN
  pub lt : F → F → Bool
  pub le : F → F → Bool

-- `iter().sum::<f64>()`
abbrev pub sum_f64 {ℓ} : {F : Type ℓ} ⦃f : Float64 F⦄ → List F → F
sum_f64 ⦃f⦄ = foldl f.add (f.lit 0 0)

-- `f64::clamp`, which keeps a NaN.
abbrev pub clamp {ℓ} : {F : Type ℓ} ⦃f : Float64 F⦄ → F → F → F → F
clamp ⦃f⦄ x lo hi = if f.lt x lo then lo else if f.lt hi x then hi else x
