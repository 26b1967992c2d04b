-- ===== src/Gateway/Market/Finest.antt =====
-- What `merge_finest` keeps.
use grid_edge_gateway.Prelude.{
  ◌≡◌, refl, ◌∙◌, List, [], ◌∷◌, ◌++◌, Bool, true, false, ◌&&◌, ◌||◌, inl, inr, Bool-cases, All,
  All-snoc,
}
use grid_edge_gateway.Prelude.Int.{ltb_ℤ}
use grid_edge_gateway.Prelude.Doubles.{Doubles}
use grid_edge_gateway.Gateway.Market.{
  PricePoint, end_s, insert, sort, starts_before, is_finer, overlaps, any_overlaps, keep_free,
  merge_finest,
}

and_comm : (a b : Bool) → (a && b) ≡ (b && a)
and_comm true true = refl
and_comm true false = refl
and_comm false true = refl
and_comm false false = refl

pub or_false : (a b : Bool) → (a || b) ≡ false → (a ≡ false) × (b ≡ false)
or_false true b e = (e, absurd (cc e))
or_false false b e = (refl, e)

module _ ⦃d : Doubles⦄ where
  -- No two of the points overlap.
  abbrev pub IsDisjoint : List PricePoint → Type 0
  IsDisjoint [] = Unit {0}
  IsDisjoint (p ∷ points) = All (λ q. overlaps p q ≡ false) points × IsDisjoint points

  overlaps_comm : (p q : PricePoint) → overlaps p q ≡ overlaps q p
  overlaps_comm p q = and_comm (ltb_ℤ p.start_s (end_s q)) (ltb_ℤ q.start_s (end_s p))

  pub All-insert :
      (P : PricePoint → Type 0) (before : PricePoint → PricePoint → Bool) (p : PricePoint)
      (points : List PricePoint)
      → P p
      → All P points
      → All P (insert before p points)
  unfolding insert
  All-insert P before p [] x h = (x, tt)
  All-insert P before p (q ∷ points) x (y, h) = elim (Bool-cases (before q p)) [
    | inl e ↦ rw e (y, All-insert P before p points x h)
    | inr e ↦ rw e (x, (y, h))
  ]

  insert-IsDisjoint :
      (before : PricePoint → PricePoint → Bool) (p : PricePoint) (points : List PricePoint)
      → All (λ q. overlaps p q ≡ false) points
      → IsDisjoint points
      → IsDisjoint (insert before p points)
  unfolding insert
  insert-IsDisjoint before p [] h k = (tt, tt)
  insert-IsDisjoint before p (q ∷ points) (x, h) (y, k) = elim (Bool-cases (before q p)) [
    | inl e ↦ rw e (
      All-insert (λ r. overlaps q r ≡ false) before p points (overlaps_comm q p ∙ x) y,
      insert-IsDisjoint before p points h k,
    )
    | inr e ↦ rw e ((x, h), (y, k))
  ]

  pub All-sort :
      (P : PricePoint → Type 0) (before : PricePoint → PricePoint → Bool) (points : List PricePoint)
      → All P points
      → All P (sort before points)
  unfolding sort
  All-sort P before [] h = tt
  All-sort P before (p ∷ points) (x, h) =
      All-insert P before p (sort before points) x (All-sort P before points h)

  sort-IsDisjoint :
      (before : PricePoint → PricePoint → Bool) (points : List PricePoint)
      → IsDisjoint points
      → IsDisjoint (sort before points)
  unfolding sort
  sort-IsDisjoint before [] h = tt
  sort-IsDisjoint before (p ∷ points) (x, h) =
      insert-IsDisjoint before p (sort before points)
        (All-sort (λ q. overlaps p q ≡ false) before points x) (sort-IsDisjoint before points h)

  snoc-IsDisjoint :
      (kept : List PricePoint) (p : PricePoint)
      → any_overlaps p kept ≡ false
      → IsDisjoint kept
      → IsDisjoint (kept ++ (p ∷ []))
  snoc-IsDisjoint [] p e h = (tt, tt)
  snoc-IsDisjoint (k ∷ kept) p e (x, h) =
      let (y, z) = or_false (overlaps p k) (any_overlaps p kept) e in
      (
        All-snoc (λ q. overlaps k q ≡ false) kept x (overlaps_comm k p ∙ y),
        snoc-IsDisjoint kept p z h,
      )

  keep_free-IsDisjoint :
      (kept points : List PricePoint) → IsDisjoint kept → IsDisjoint (keep_free kept points)
  unfolding keep_free
  keep_free-IsDisjoint kept [] h = h
  keep_free-IsDisjoint kept (p ∷ points) h = elim (Bool-cases (any_overlaps p kept)) [
    | inl e ↦ rw e (keep_free-IsDisjoint kept points h)
    | inr e ↦ rw e (keep_free-IsDisjoint (kept ++ (p ∷ [])) points (snoc-IsDisjoint kept p e h))
  ]

  pub merge_finest-IsDisjoint : (points : List PricePoint) → IsDisjoint (merge_finest points)
  unfolding merge_finest
  merge_finest-IsDisjoint points =
      sort-IsDisjoint starts_before _ (keep_free-IsDisjoint [] (sort is_finer points) tt)
