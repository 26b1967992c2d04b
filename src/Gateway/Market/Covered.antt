-- ===== src/Gateway/Market/Covered.antt =====
-- Which of the points that are given `merge_finest` has others for.
use grid_edge_gateway.Prelude.{
  ◌≡◌, refl, sym, subst, ap, ◌∙◌, List, [], ◌∷◌, ◌++◌, Bool, true, false, not, ◌&&◌, ◌||◌, inl, inr,
  Bool-cases, All, All-snoc, arith, ◌+◌, lt→ltb,
}
use grid_edge_gateway.Prelude.Int.{ltb_ℤ, ◌<ℤ◌, pos, pos_part, neg_part, +ℤ_parts}
use grid_edge_gateway.Prelude.Doubles.{Doubles}
use grid_edge_gateway.Gateway.Market.{
  PricePoint, end_s, insert, sort, starts_before, is_finer, overlaps, any_overlaps, keep_free,
  merge_finest,
}
use grid_edge_gateway.Gateway.Market.Finest.{
  All-insert, All-sort, IsDisjoint, merge_finest-IsDisjoint,
}

or_right : (a b : Bool) → b ≡ true → (a || b) ≡ true
or_right true b e = refl
or_right false b e = e

or_map : (a b c : Bool) → (b ≡ true → c ≡ true) → (a || b) ≡ true → (a || c) ≡ true
or_map true b c f e = refl
or_map false b c f e = f e

or_swap : (a b c : Bool) → (a || (b || c)) ≡ (b || (a || c))
or_swap true true c = refl
or_swap true false c = refl
or_swap false b c = refl

or_weaken :
    (a b c e : Bool)
    → b ≡ false
    → (c ≡ true → e ≡ true)
    → (a || c) ≡ true
    → ((a && not b) || e) ≡ true
or_weaken true true c e h f k = absurd (cc h)
or_weaken true false c e h f k = refl
or_weaken false b c e h f k = f k

module _ ⦃d : Doubles⦄ where
  -- A point among the kept ones that overlaps p and is no longer.
  abbrev pub has_finer : PricePoint → List PricePoint → Bool
  has_finer p [] = false
  has_finer p (k ∷ kept) = (overlaps p k && not (ltb_ℤ p.dur_s k.dur_s)) || has_finer p kept

  -- A point that lasts for some time.
  abbrev pub IsPositive : PricePoint → Type 0
  IsPositive p = pos 0 <ℤ p.dur_s

  abbrev IsNoLonger : PricePoint → PricePoint → Type 0
  IsNoLonger k p = ltb_ℤ p.dur_s k.dur_s ≡ false

  -- From the shortest to the longest.
  abbrev Ordered : List PricePoint → Type 0
  Ordered [] = Unit {0}
  Ordered (p ∷ points) = All (IsNoLonger p) points × Ordered points

  overlaps_same : (p : PricePoint) → IsPositive p → overlaps p p ≡ true
  overlaps_same p h =
      let parts = +ℤ_parts p.start_s p.dur_s in
      rw
        (lt→ltb (pos_part p.start_s + neg_part (end_s p)) (pos_part (end_s p) + neg_part p.start_s)
          (omega arith))
        refl

  IsNoLonger-trans : (a b c : PricePoint) → IsNoLonger a b → IsNoLonger b c → IsNoLonger a c
  IsNoLonger-trans a b c h k = ground arith

  is_finer-IsNoLonger : (q p : PricePoint) → is_finer q p ≡ true → IsNoLonger q p
  is_finer-IsNoLonger q p h = ground arith

  not_finer : (q p : PricePoint) → is_finer q p ≡ false → IsNoLonger p q
  not_finer q p h = ground arith

  pub All-weaken :
      {P Q : PricePoint → Type 0} (points : List PricePoint)
      → ((p : PricePoint) → P p → Q p)
      → All P points
      → All Q points
  All-weaken [] f h = tt
  All-weaken (p ∷ points) f (x, h) = (f p x, All-weaken points f h)

  insert-Ordered :
      (p : PricePoint) (points : List PricePoint)
      → Ordered points
      → Ordered (insert is_finer p points)
  unfolding insert
  insert-Ordered p [] h = (tt, tt)
  insert-Ordered p (q ∷ points) (x, h) = elim (Bool-cases (is_finer q p)) [
    | inl e ↦ rw e (
      All-insert (IsNoLonger q) is_finer p points (is_finer-IsNoLonger q p e) x,
      insert-Ordered p points h,
    )
    | inr e ↦ rw e (
      (not_finer q p e, All-weaken points (λ r. IsNoLonger-trans p q r (not_finer q p e)) x),
      (x, h),
    )
  ]

  sort-Ordered : (points : List PricePoint) → Ordered (sort is_finer points)
  unfolding sort
  sort-Ordered [] = tt
  sort-Ordered (p ∷ points) = insert-Ordered p (sort is_finer points) (sort-Ordered points)

  has_finer-append :
      (p : PricePoint) (kept : List PricePoint) (k : PricePoint)
      → has_finer p kept ≡ true
      → has_finer p (kept ++ (k ∷ [])) ≡ true
  has_finer-append p [] k h = absurd (cc h)
  has_finer-append p (j ∷ kept) k h =
      or_map _ (has_finer p kept) (has_finer p (kept ++ (k ∷ []))) (has_finer-append p kept k) h

  has_finer_last :
      (p : PricePoint) (kept : List PricePoint)
      → IsPositive p
      → has_finer p (kept ++ (p ∷ [])) ≡ true
  has_finer_last p [] h =
      let same : ltb_ℤ p.dur_s p.dur_s ≡ false = ground arith in rw (overlaps_same p h, same) refl
  has_finer_last p (k ∷ kept) h =
      or_right _ (has_finer p (kept ++ (p ∷ []))) (has_finer_last p kept h)

  -- What overlaps, among points that are no longer.
  has_finer-any_overlaps :
      (p : PricePoint) (kept : List PricePoint)
      → All (λ k. IsNoLonger k p) kept
      → any_overlaps p kept ≡ true
      → has_finer p kept ≡ true
  has_finer-any_overlaps p [] h e = absurd (cc e)
  has_finer-any_overlaps p (k ∷ kept) (x, h) e =
      or_weaken (overlaps p k) (ltb_ℤ p.dur_s k.dur_s) (any_overlaps p kept) (has_finer p kept) x
        (has_finer-any_overlaps p kept h) e

  keep_free-keeps :
      (p : PricePoint) (kept points : List PricePoint)
      → has_finer p kept ≡ true
      → has_finer p (keep_free kept points) ≡ true
  unfolding keep_free
  keep_free-keeps p kept [] h = h
  keep_free-keeps p kept (q ∷ points) h = elim (Bool-cases (any_overlaps q kept)) [
    | inl e ↦ rw e (keep_free-keeps p kept points h)
    | inr e ↦ rw e (keep_free-keeps p (kept ++ (q ∷ [])) points (has_finer-append p kept q h))
  ]

  abbrev Bounded : List PricePoint → List PricePoint → Type 0
  Bounded kept = All (λ p. All (λ k. IsNoLonger k p) kept)

  snoc-Bounded :
      (kept : List PricePoint) (k : PricePoint) (points : List PricePoint)
      → Bounded kept points
      → All (IsNoLonger k) points
      → Bounded (kept ++ (k ∷ [])) points
  snoc-Bounded kept k [] b h = tt
  snoc-Bounded kept k (p ∷ points) (x, b) (y, h) =
      (All-snoc (λ j. IsNoLonger j p) kept x y, snoc-Bounded kept k points b h)

  keep_free-overlapping :
      (kept : List PricePoint) (p : PricePoint) (points : List PricePoint)
      → any_overlaps p kept ≡ true
      → keep_free kept (p ∷ points) ≡ keep_free kept points
  unfolding keep_free
  keep_free-overlapping kept p points e = rw e refl

  keep_free_next :
      (kept : List PricePoint) (p : PricePoint) (points : List PricePoint)
      → any_overlaps p kept ≡ false
      → keep_free kept (p ∷ points) ≡ keep_free (kept ++ (p ∷ [])) points
  unfolding keep_free
  keep_free_next kept p points e = rw e refl

  abbrev AllCovered : List PricePoint → List PricePoint → Type 0
  AllCovered points out = All (λ p. has_finer p out ≡ true) points

  keep_free-covers :
      (kept points : List PricePoint)
      → Ordered points
      → Bounded kept points
      → All IsPositive points
      → AllCovered points (keep_free kept points)
  keep_free-covers kept [] o b h = tt
  keep_free-covers kept (p ∷ points) (x, o) (y, b) (z, h) =
      elim (Bool-cases (any_overlaps p kept)) [
        | inl e ↦ subst (AllCovered (p ∷ points)) (sym (keep_free-overlapping kept p points e)) (
          keep_free-keeps p kept points (has_finer-any_overlaps p kept y e),
          keep_free-covers kept points o b h,
        )
        | inr e ↦ subst (AllCovered (p ∷ points)) (sym (keep_free_next kept p points e)) (
          keep_free-keeps p (kept ++ (p ∷ [])) points (has_finer_last p kept z),
          keep_free-covers (kept ++ (p ∷ [])) points o (snoc-Bounded kept p points b x) h,
        )
      ]

  has_finer-insert :
      (before : PricePoint → PricePoint → Bool) (p k : PricePoint) (kept : List PricePoint)
      → has_finer p (insert before k kept) ≡ has_finer p (k ∷ kept)
  unfolding insert
  has_finer-insert before p k [] = refl
  has_finer-insert before p k (j ∷ kept) = elim (Bool-cases (before j k)) [
    | inl e ↦ rw e (
        ap (◌||◌ (overlaps p j && not (ltb_ℤ p.dur_s j.dur_s))) (has_finer-insert before p k kept)
        ∙ or_swap (overlaps p j && not (ltb_ℤ p.dur_s j.dur_s))
            (overlaps p k && not (ltb_ℤ p.dur_s k.dur_s)) (has_finer p kept))
    | inr e ↦ rw e refl
  ]

  has_finer-sort :
      (before : PricePoint → PricePoint → Bool) (p : PricePoint) (kept : List PricePoint)
      → has_finer p (sort before kept) ≡ has_finer p kept
  unfolding sort
  has_finer-sort before p [] = refl
  has_finer-sort before p (k ∷ kept) =
      has_finer-insert before p k (sort before kept)
      ∙ ap (◌||◌ (overlaps p k && not (ltb_ℤ p.dur_s k.dur_s))) (has_finer-sort before p kept)

  -- What holds of the sorted points holds of the points.
  insert-All :
      (P : PricePoint → Type 0) (before : PricePoint → PricePoint → Bool) (p : PricePoint)
      (points : List PricePoint)
      → All P (insert before p points)
      → P p × All P points
  unfolding insert
  insert-All P before p [] h = h
  insert-All P before p (q ∷ points) h = elim (Bool-cases (before q p)) [
    | inl e ↦ let (x, k) = rw e at h in let (y, l) = insert-All P before p points k in (y, (x, l))
    | inr e ↦ rw e at h
  ]

  sort-All :
      (P : PricePoint → Type 0) (before : PricePoint → PricePoint → Bool) (points : List PricePoint)
      → All P (sort before points)
      → All P points
  unfolding sort
  sort-All P before [] h = tt
  sort-All P before (p ∷ points) h =
      let (x, k) = insert-All P before p (sort before points) h in (x, sort-All P before points k)

  Bounded-nil : (points : List PricePoint) → Bounded [] points
  Bounded-nil [] = tt
  Bounded-nil (p ∷ points) = (tt, Bounded-nil points)

  -- Where an answer has the same time in several resolutions, the finest is kept: no two of the kept
  -- prices overlap, and every price of the answer overlaps a kept one that lasts no longer. Every
  -- price of the answer lasts for some time.
  pub merge_finest_lem :
      (points : List PricePoint)
      → All IsPositive points
      → IsDisjoint (merge_finest points)
        × All (λ p. has_finer p (merge_finest points) ≡ true) points
  unfolding merge_finest
  merge_finest_lem points h =
      let sorted = sort is_finer points in
      let kept = keep_free [] sorted in
      (
        merge_finest-IsDisjoint points,
        sort-All (λ p. has_finer p (sort starts_before kept) ≡ true) is_finer points
            (All-weaken sorted (λ p e. has_finer-sort starts_before p kept ∙ e)
              (keep_free-covers [] sorted (sort-Ordered points) (Bounded-nil sorted)
                (All-sort IsPositive is_finer points h))),
      )
