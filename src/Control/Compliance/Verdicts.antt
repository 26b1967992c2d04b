-- ===== src/Control/Compliance/Verdicts.antt =====
-- What the verdict of a report says of the samples of the event: `Recorder::close`.
use grid_edge_gateway.Prelude.{
  ℕ, ◌≡◌, refl, sym, ◌∙◌, List, [], ◌∷◌, Option, none, some, Bool, true, false, not, ◌&&◌, inl, inr,
  Bool-cases, if◌then◌else◌, arith, ◌↔◌,
}
use mathlib.Core.Bool.{true≢false}
use grid_edge_gateway.Prelude.Doubles.{Doubles, IsIeee, F64, lit, ◌⊕◌, ◌≼◌, ◌≺◌}
use grid_edge_gateway.Control.Report.{Printing, followed, Sample, tolerance_kw}
use grid_edge_gateway.Control.Compliance.{
  Open, Recorder, Tally, span_of, tally_sample, tally, verdict_of, close,
}

and-left : (a b : Bool) → (a && not b) ≡ true → a ≡ true
and-left a b h = ground arith

and-right : (a b : Bool) → (a && not b) ≡ true → b ≡ false
and-right a b h = ground arith

module _ ⦃d : Doubles⦄ where
  -- A measurement that is there and not above the floor by more than the tolerance.
  pub IsWithin : F64 → Option F64 → Type 0
  IsWithin floor_kw none = ⊥
  IsWithin floor_kw (some v) = (floor_kw ⊕ tolerance_kw ≺ v) ≡ false

  -- Every sample that stands for time after the grace time is within the floor.
  pub AllWithin : F64 → F64 → F64 → List Sample → Type 0
  unfolding IsWithin
  AllWithin floor_kw settle_until end_s [] = Unit
  AllWithin floor_kw settle_until end_s (s ∷ later) =
      ((lit 0 1 ≺ span_of settle_until end_s s later) ≡ true → IsWithin floor_kw s.steuve_grid_kw)
      × AllWithin floor_kw settle_until end_s later

  -- The spans are numbers.
  unfoldable pub AreNumbers : F64 → F64 → List Sample → Type 0
  AreNumbers settle_until end_s [] = Unit
  AreNumbers settle_until end_s (s ∷ later) =
      let span = span_of settle_until end_s s later in
      ((span ≼ span) ≡ true) × AreNumbers settle_until end_s later

  module _ (ieee : IsIeee d) where
    positive : (a : F64) → (a ≼ a) ≡ true → (a ≼ lit 0 1) ≡ false → (lit 0 1 ≼ a) ≡ true
    positive a h k = elim (ieee.le_total a (lit 0 1) h (ieee.lit_le 0 0 (omega arith))) [
      | inl e ↦ ground arith
      | inr e ↦ e
    ]

    -- Sums that are numbers and not negative.
    IsClean : Tally → Type 0
    IsClean t = ((lit 0 1 ≼ t.exceeded_s) ≡ true) × ((lit 0 1 ≼ t.unverified_s) ≡ true)

    IsGrown : F64 → F64 → Type 0
    IsGrown a b = ((lit 0 1 ≼ b) ≡ true) × ((a ≼ b) ≡ true)

    IsGrown-add :
        (a span : F64) → (lit 0 1 ≼ a) ≡ true → (lit 0 1 ≼ span) ≡ true → IsGrown a (a ⊕ span)
    unfolding IsGrown
    IsGrown-add a span h k = let g = ieee.add_grows a span h k in (ieee.le_trans h g, g)

    clean_exceeded : (t : Tally) → IsClean t → (lit 0 1 ≼ t.exceeded_s) ≡ true
    unfolding IsClean
    clean_exceeded t c = c.0

    clean_unverified : (t : Tally) → IsClean t → (lit 0 1 ≼ t.unverified_s) ≡ true
    unfolding IsClean
    clean_unverified t c = c.1

    IsGrown-refl : (a : F64) → (lit 0 1 ≼ a) ≡ true → IsGrown a a
    unfolding IsGrown
    IsGrown-refl a h = (h, (ieee.le_refl h).1)

    sample-grows :
        (floor_kw span : F64) (grid_kw : Option F64) (t : Tally)
        → (lit 0 1 ≼ span) ≡ true
        → IsClean t
        → let t' = tally_sample floor_kw span grid_kw t in
          IsGrown t.exceeded_s t'.exceeded_s × IsGrown t.unverified_s t'.unverified_s
    unfolding IsClean tally_sample
    sample-grows floor_kw span none t k (e, u) =
        (IsGrown-refl t.exceeded_s e, IsGrown-add t.unverified_s span u k)
    sample-grows floor_kw span (some v) t k (e, u) =
        elim (Bool-cases (floor_kw ⊕ tolerance_kw ≺ v)) [
          | inl over ↦ rw over (IsGrown-add t.exceeded_s span e k, IsGrown-refl t.unverified_s u)
          | inr under ↦ rw under (IsGrown-refl t.exceeded_s e, IsGrown-refl t.unverified_s u)
        ]

    -- One round of the loop.
    next_tally : F64 → F64 → Option F64 → Tally → Tally
    next_tally floor_kw span grid_kw t =
        if span ≼ lit 0 1 then t else tally_sample floor_kw span grid_kw t

    next-grows :
        (floor_kw span : F64) (grid_kw : Option F64) (t : Tally)
        → (span ≼ span) ≡ true
        → IsClean t
        → let t' = next_tally floor_kw span grid_kw t in
          IsGrown t.exceeded_s t'.exceeded_s × IsGrown t.unverified_s t'.unverified_s
    unfolding next_tally
    next-grows floor_kw span grid_kw t h c = elim (Bool-cases (span ≼ lit 0 1)) [
      | inl e ↦ rw e (
        IsGrown-refl t.exceeded_s (clean_exceeded t c),
        IsGrown-refl t.unverified_s (clean_unverified t c),
      )
      | inr e ↦ rw e (sample-grows floor_kw span grid_kw t (positive span h e) c)
    ]

    -- A sample that does not count against the event.
    sample-IsWithin :
        (floor_kw span : F64) (grid_kw : Option F64) (t : Tally)
        → (lit 0 1 ≼ span) ≡ true
        → (span ≼ lit 0 1) ≡ false
        → IsClean t
        → let t' = next_tally floor_kw span grid_kw t in
          (t'.exceeded_s ≼ lit 0 1) ≡ true
          → (t'.unverified_s ≼ lit 0 1) ≡ true
          → IsWithin floor_kw grid_kw
    unfolding next_tally tally_sample IsClean IsWithin
    sample-IsWithin floor_kw span none t k l (e, u) =
        rw l (λ x y. absurd (true≢false (sym y ∙ ieee.add_positive t.unverified_s span u k l)))
    sample-IsWithin floor_kw span (some v) t k l (e, u) =
        elim (Bool-cases (floor_kw ⊕ tolerance_kw ≺ v)) [
          | inl over ↦ rw (l, over) (λ x y. sym x ∙ ieee.add_positive t.exceeded_s span e k l)
          | inr under ↦ λ x y. under
        ]

    -- What the loop has added up says whether every sample that counts was within the floor.
    tally-AllWithin :
        (floor_kw settle_until end_s : F64) (samples : List Sample) (t : Tally)
        → AreNumbers settle_until end_s samples
        → IsClean t
        → let f = tally floor_kw settle_until end_s samples t in
          (IsGrown t.exceeded_s f.exceeded_s × IsGrown t.unverified_s f.unverified_s)
          × ((f.exceeded_s ≼ lit 0 1) ≡ true
              → (f.unverified_s ≼ lit 0 1) ≡ true
              → AllWithin floor_kw settle_until end_s samples)
    unfolding tally AreNumbers AllWithin next_tally IsGrown IsClean
    tally-AllWithin floor_kw settle_until end_s [] t n c =
        ((IsGrown-refl t.exceeded_s c.0, IsGrown-refl t.unverified_s c.1), λ x y. tt)
    tally-AllWithin floor_kw settle_until end_s (s ∷ later) t (n, ns) c =
        let span = span_of settle_until end_s s later in
        let ((e1, e2), (u1, u2)) = next-grows floor_kw span s.steuve_grid_kw t n c in
        let t' = next_tally floor_kw span s.steuve_grid_kw t in
        let (((f1, f2), (v1, v2)), all) =
          tally-AllWithin floor_kw settle_until end_s later t' ns (e1, u1) in
        (
          ((f1, ieee.le_trans e2 f2), (v1, ieee.le_trans u2 v2)),
          λ x y. (
            λ p.
                sample-IsWithin floor_kw span s.steuve_grid_kw t
                  (and-left (lit 0 1 ≼ span) (span ≼ lit 0 1) p)
                  (and-right (lit 0 1 ≼ span) (span ≼ lit 0 1) p) c (ieee.le_trans f2 x)
                  (ieee.le_trans v2 y),
            all x y,
          ),
        )

    sample-within :
        (floor_kw span : F64) (grid_kw : Option F64) (t : Tally)
        → IsWithin floor_kw grid_kw
        → let t' = tally_sample floor_kw span grid_kw t in
          (t'.exceeded_s ≡ t.exceeded_s) × (t'.unverified_s ≡ t.unverified_s)
    unfolding tally_sample IsWithin
    sample-within floor_kw span none t w = absurd w
    sample-within floor_kw span (some v) t w = rw w (refl, refl)

    next-within :
        (floor_kw span : F64) (grid_kw : Option F64) (t : Tally)
        → (span ≼ span) ≡ true
        → ((lit 0 1 ≺ span) ≡ true → IsWithin floor_kw grid_kw)
        → let t' = next_tally floor_kw span grid_kw t in
          (t'.exceeded_s ≡ t.exceeded_s) × (t'.unverified_s ≡ t.unverified_s)
    unfolding next_tally
    next-within floor_kw span grid_kw t n w = elim (Bool-cases (span ≼ lit 0 1)) [
      | inl e ↦ rw e (refl, refl)
      | inr e ↦
          let w' = w (rw (positive span n e, e)) in rw e (sample-within floor_kw span grid_kw t w')
    ]

    tally-within :
        (floor_kw settle_until end_s : F64) (samples : List Sample) (t : Tally)
        → AreNumbers settle_until end_s samples
        → AllWithin floor_kw settle_until end_s samples
        → let f = tally floor_kw settle_until end_s samples t in
          (f.exceeded_s ≡ t.exceeded_s) × (f.unverified_s ≡ t.unverified_s)
    unfolding tally AreNumbers AllWithin next_tally
    tally-within floor_kw settle_until end_s [] t n w = (refl, refl)
    tally-within floor_kw settle_until end_s (s ∷ later) t (n, ns) (w, ws) =
        let span = span_of settle_until end_s s later in
        let (e, u) = next-within floor_kw span s.steuve_grid_kw t n w in
        let t' = next_tally floor_kw span s.steuve_grid_kw t in
        let (e', u') = tally-within floor_kw settle_until end_s later t' ns ws in (e' ∙ e, u' ∙ u)

    verdict-followed :
        (t : Tally) (dropped : ℕ)
        → verdict_of t dropped ≡ followed
        → ((lit 0 1 ≺ t.exceeded_s) ≡ false) × ((lit 0 1 ≺ t.unverified_s) ≡ false) × (dropped ≡ 0)
    unfolding verdict_of
    verdict-followed t dropped h = ground arith

    not_positive : (a : F64) → (lit 0 1 ≼ a) ≡ true → (lit 0 1 ≺ a) ≡ false → (a ≼ lit 0 1) ≡ true
    not_positive a h k = ground arith

    abbrev zeros : Tally
    zeros = record { exceeded_s = lit 0 1; unverified_s = lit 0 1; max_after = none }

    zeros-IsClean : IsClean zeros
    unfolding IsClean
    zeros-IsClean = (ieee.lit_le 0 0 (omega arith), ieee.lit_le 0 0 (omega arith))

    followed-within :
        (floor_kw settle_until end_s : F64) (samples : List Sample) (dropped : ℕ)
        → AreNumbers settle_until end_s samples
        → verdict_of (tally floor_kw settle_until end_s samples zeros) dropped ≡ followed
        → AllWithin floor_kw settle_until end_s samples × (dropped ≡ 0)
    unfolding IsGrown
    followed-within floor_kw settle_until end_s samples dropped n h =
        let (e, u, z) =
          verdict-followed (tally floor_kw settle_until end_s samples zeros) dropped h in
        let (((f, f2), (v, v2)), all) =
          tally-AllWithin floor_kw settle_until end_s samples zeros n zeros-IsClean in
        (all (not_positive _ f e) (not_positive _ v u), z)

    within-followed :
        (floor_kw settle_until end_s : F64) (samples : List Sample)
        → AreNumbers settle_until end_s samples
        → AllWithin floor_kw settle_until end_s samples
        → verdict_of (tally floor_kw settle_until end_s samples zeros) 0 ≡ followed
    unfolding verdict_of
    within-followed floor_kw settle_until end_s samples n w =
        let (e, u) = tally-within floor_kw settle_until end_s samples zeros n w in
        let z = ieee.lit_le 0 0 (omega arith) in rw (verdict_of, e, u, z)

  -- The verdict of the report that closes an event is `followed` exactly where no sample was dropped
  -- and every sample that stands for time after the grace time has a measurement, which is not
  -- above the floor by more than the tolerance. This is so where the spans are numbers.
  pub close-followed :
      (p : Printing d) (ieee : IsIeee d) (r : Recorder) (o : Open) (end_s : F64)
      → AreNumbers (o.start_s ⊕ r.grace_s) end_s o.samples
      → ((close p r o end_s).0.verdict ≡ followed)
        ↔ (AllWithin o.floor_kw (o.start_s ⊕ r.grace_s) end_s o.samples × (o.dropped ≡ 0))
  unfolding close
  close-followed p ieee r o end_s n = (
    λ h. followed-within ieee o.floor_kw (o.start_s ⊕ r.grace_s) end_s o.samples o.dropped n h,
    λ (w, z). rw z (within-followed ieee o.floor_kw (o.start_s ⊕ r.grace_s) end_s o.samples n w),
  )
