-- ===== src/Prelude/Doubles.antt =====
-- The type `f64` of the source: an interface of the operations that the hardware has, and the
-- functions of Rust's standard library on it that the source uses, written over those operations.
-- Rust documents them: a comparison with a NaN is false, `max` and `min` ignore a NaN, and `clamp`
-- returns a NaN as it is.
use Prim.Native.Nat.{ℕ, ◌≤◌}
use mathlib.Core.Path.{◌≡◌}
use mathlib.Core.Bool.{Bool, true, false, not, ◌&&◌}
use mathlib.Core.Logic.{◌⊎◌}
use mathlib.Core.List.{List, [], ◌∷◌}
use grid_edge_gateway.Prelude.Tests.{if◌then◌else◌}
use grid_edge_gateway.Prelude.Int.{ℤ}

-- `lit n d` is the `f64` nearest to n / d, `of_f32` and `to_f32` are casts from and to the bits of an
-- `f32`, `to_nat` and `to_int` are the saturating casts `as usize` and `as i64`, `total_le` is `total_cmp`, and `sum_start` is what
-- the sum of an iterator starts from.
pub record Doubles : Type 1 where
  pub F64 : Type 0
  pub lit : ℕ → ℕ → F64
  pub infinity : F64
  pub sum_start : F64
  pub add : F64 → F64 → F64
  pub sub : F64 → F64 → F64
  pub mul : F64 → F64 → F64
  pub div : F64 → F64 → F64
  pub neg : F64 → F64
  pub abs : F64 → F64
  pub floor : F64 → F64
  pub round : F64 → F64
  pub le : F64 → F64 → Bool
  pub total_le : F64 → F64 → Bool
  pub of_f32 : ℕ → F64
  pub to_f32 : F64 → ℕ
  pub of_nat : ℕ → F64
  pub to_nat : F64 → ℕ
  pub to_int : F64 → ℤ

module _ ⦃d : Doubles⦄ where
  infixl 65 ◌⊕◌ ◌⊖◌
  infixl 70 ◌⊗◌ ◌⊘◌
  infix 50 ◌≼◌ ◌≺◌
  abbrev pub F64 : Type 0
  F64 = d.F64

  abbrev pub lit : ℕ → ℕ → F64
  lit n k = d.lit n k

  abbrev pub ◌⊕◌ : F64 → F64 → F64
  a ⊕ b = d.add a b

  abbrev pub ◌⊖◌ : F64 → F64 → F64
  a ⊖ b = d.sub a b

  abbrev pub ◌⊗◌ : F64 → F64 → F64
  a ⊗ b = d.mul a b

  abbrev pub ◌⊘◌ : F64 → F64 → F64
  a ⊘ b = d.div a b

  abbrev pub neg : F64 → F64
  neg a = d.neg a

  abbrev pub ◌≼◌ : F64 → F64 → Bool
  a ≼ b = d.le a b

  abbrev pub ◌≺◌ : F64 → F64 → Bool
  a ≺ b = d.le a b && not (d.le b a)

  abbrev pub is_nan : F64 → Bool
  is_nan a = not (d.le a a)

  abbrev pub is_infinite : F64 → Bool
  is_infinite a = d.le d.infinity (d.abs a)

  abbrev pub is_finite : F64 → Bool
  is_finite a = not (is_nan a) && not (is_infinite a)

  unfoldable pub max : F64 → F64 → F64
  max a b = if is_nan a then b else if is_nan b then a else if a ≺ b then b else a

  unfoldable pub min : F64 → F64 → F64
  min a b = if is_nan a then b else if is_nan b then a else if b ≺ a then b else a

  -- `clamp` panics unless `lo ≤ hi`: what it gives then is not used.
  unfoldable pub clamp : F64 → F64 → F64 → F64
  clamp a lo hi = let b = if a ≺ lo then lo else a in if hi ≺ b then hi else b

  abbrev pub sum : List F64 → F64
  sum values = from d.sum_start values
    where
      from : F64 → List F64 → F64
      from total [] = total
      from total (a ∷ values) = from (total ⊕ a) values

-- What IEEE 754 says of the order and of sums that are not negative. The order is transitive, and
-- total on what is not a NaN. Rounding keeps the order: that of literals, and that of a sum and its
-- parts.
pub record IsIeee (d : Doubles) : Type 0 where
  pub le_trans : {a b c : d.F64} → d.le a b ≡ true → d.le b c ≡ true → d.le a c ≡ true
  pub le_total :
      (a b : d.F64) → d.le a a ≡ true → d.le b b ≡ true → (d.le a b ≡ true) ⊎ (d.le b a ≡ true)
  pub le_refl : {a b : d.F64} → d.le a b ≡ true → (d.le a a ≡ true) × (d.le b b ≡ true)
  pub lit_le : (n k : ℕ) → n ≤ k → d.le (d.lit n 1) (d.lit k 1) ≡ true
  pub add_grows :
      (a b : d.F64)
      → d.le (d.lit 0 1) a ≡ true
      → d.le (d.lit 0 1) b ≡ true
      → d.le a (d.add a b) ≡ true
  pub add_positive :
      (a b : d.F64)
      → d.le (d.lit 0 1) a ≡ true
      → d.le (d.lit 0 1) b ≡ true
      → d.le b (d.lit 0 1) ≡ false
      → d.le (d.add a b) (d.lit 0 1) ≡ false
