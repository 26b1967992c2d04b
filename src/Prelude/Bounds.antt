-- ===== src/Prelude/Bounds.antt =====
-- Bounds of `max`, `min` and `clamp` on doubles.
use mathlib.Core.Path.{◌≡◌}
use mathlib.Core.Bool.{true}
use mathlib.Core.Logic.{inl, inr}
use native.Mathlib.Omega.{arith}
use grid_edge_gateway.Prelude.Tests.{Bool-cases}
use grid_edge_gateway.Prelude.Doubles.{Doubles, IsIeee, F64, ◌≼◌, max, min, clamp}

module _ ⦃d : Doubles⦄ (ieee : IsIeee d) where
  pub max-ge : (a b : F64) → (b ≼ b) ≡ true → (b ≼ max a b) ≡ true
  unfolding max
  max-ge a b h = elim (Bool-cases (a ≼ a)) [
    | inr e ↦ rw (max, e, h)
    | inl e ↦ elim (ieee.le_total a b e h) [ inl l ↦ ground (arith, l) | inr l ↦ ground (arith, l) ]
  ]

  pub min-le : (a b : F64) → (b ≼ b) ≡ true → (min a b ≼ b) ≡ true
  unfolding min
  min-le a b h = elim (Bool-cases (a ≼ a)) [
    | inr e ↦ rw (min, e, h)
    | inl e ↦ elim (ieee.le_total a b e h) [ inl l ↦ ground (arith, l) | inr l ↦ ground (arith, l) ]
  ]

  pub min-le_left : (a b : F64) → (a ≼ a) ≡ true → (min a b ≼ a) ≡ true
  unfolding min
  min-le_left a b h = elim (Bool-cases (b ≼ b)) [
    | inr e ↦ rw (min, h, e, h)
    | inl e ↦ elim (ieee.le_total a b h e) [ inl l ↦ ground (arith, l) | inr l ↦ ground (arith, l) ]
  ]

  pub clamp_within : (a lo hi : F64) → (lo ≼ a) ≡ true → (a ≼ hi) ≡ true → clamp a lo hi ≡ a
  unfolding clamp
  clamp_within a lo hi h k = ground (arith, h, k)
