-- ===== src/Gateway/Market/Newest.antt =====
-- The price at a time, in a sorted book.
use grid_edge_gateway.Prelude.{
  ℕ, zero, suc, ◌≡◌, refl, sym, subst, ap, ◌∙◌, List, [], ◌∷◌, ◌++◌, Option, none, some, true,
  false, inl, inr, Bool-cases, All, ◌⊎◌, get_elem?, arith, if◌then◌else◌,
}
use grid_edge_gateway.Prelude.Int.{ℤ, ltb_ℤ}
use grid_edge_gateway.Prelude.Doubles.{Doubles}
use grid_edge_gateway.Gateway.Market.{
  PricePoint, insert, sort, starts_before, started, price_of, before, price_at,
}
use grid_edge_gateway.Gateway.Market.Finest.{All-insert}

module _ ⦃d : Doubles⦄ where
  -- The last of the points, in the order of a book, that has started by a time.
  abbrev pub last_started : Option PricePoint → List PricePoint → ℤ → Option PricePoint
  last_started found [] t_s = found
  last_started found (p ∷ points) t_s =
      let rest = last_started (some p) points t_s in if ltb_ℤ t_s p.start_s then found else rest

  abbrev at_count : Option PricePoint → List PricePoint → ℕ → Option PricePoint
  at_count found points zero = found
  at_count found points (suc i) = get_elem? points i

  at_count-started :
      (found : Option PricePoint) (points : List PricePoint) (t_s : ℤ)
      → at_count found points (started points t_s) ≡ last_started found points t_s
  at_count-started found [] t_s = refl
  at_count-started found (p ∷ points) t_s = elim (Bool-cases (ltb_ℤ t_s p.start_s)) [
    | inl e ↦ rw e refl
    | inr e ↦ rw e (shift (started points t_s) ∙ at_count-started (some p) points t_s)
  ]
    where
      shift : (i : ℕ) → get_elem? (p ∷ points) i ≡ at_count (some p) points i
      shift zero = refl
      shift (suc i) = refl

  pub price_at-last_started :
      (book : List PricePoint) (t_s : ℤ)
      → price_at book t_s ≡ price_of (last_started none book t_s) t_s
  unfolding price_at
  price_at-last_started book t_s =
      by_count (started book t_s) ∙ ap (λ p. price_of p t_s) (at_count-started none book t_s)
    where
      by_count :
          (i : ℕ)
          → (elim (before i) [ none ↦ none | some j ↦ price_of (get_elem? book j) t_s ])
            ≡ price_of (at_count none book i) t_s
      by_count zero = refl
      by_count (suc i) = refl

  module _ (p : PricePoint) (t_s : ℤ) where
    abbrev pub IsEarly : PricePoint → Type 0
    IsEarly q = starts_before q p ≡ true

    abbrev pub IsLate : PricePoint → Type 0
    IsLate q = ltb_ℤ t_s q.start_s ≡ true

    -- The early points, and behind them the late ones: without p, and with p between them.
    abbrev Parted : List PricePoint → Type 0
    Parted [] = Unit {0}
    Parted (q ∷ points) = (IsEarly q × Parted points) ⊎ All IsLate (q ∷ points)

    abbrev pub Around : List PricePoint → Type 0
    Around [] = ⊥
    Around (q ∷ points) = (IsEarly q × Around points) ⊎ ((q ≡ p) × All IsLate points)

    early-late :
        (q r : PricePoint)
        → IsEarly q
        → IsLate r
        → ltb_ℤ t_s p.start_s ≡ false
        → starts_before q r ≡ true
    early-late q r h k s = ground arith

    late-early :
        (q r : PricePoint)
        → IsEarly q
        → IsLate r
        → ltb_ℤ t_s p.start_s ≡ false
        → starts_before r q ≡ false
    late-early q r h k s = ground arith

    insert-Parted :
        (q : PricePoint) (points : List PricePoint)
        → ltb_ℤ t_s p.start_s ≡ false
        → IsEarly q ⊎ IsLate q
        → Parted points
        → Parted (insert starts_before q points)
    unfolding insert
    insert-Parted q [] s (inl h) k = inl (h, tt)
    insert-Parted q [] s (inr h) k = inr (h, tt)
    insert-Parted q (r ∷ points) s (inl h) (inl (x, k)) = elim (Bool-cases (starts_before r q)) [
      | inl e ↦ rw e (inl (x, insert-Parted q points s (inl h) k))
      | inr e ↦ rw e (inl (h, inl (x, k)))
    ]
    insert-Parted q (r ∷ points) s (inl h) (inr (x, k)) =
        rw (late-early q r h x s) (inl (h, inr (x, k)))
    insert-Parted q (r ∷ points) s (inr h) (inl (x, k)) =
        rw (early-late r q x h s) (inl (x, insert-Parted q points s (inr h) k))
    insert-Parted q (r ∷ points) s (inr h) (inr (x, k)) = elim (Bool-cases (starts_before r q)) [
      | inl e ↦ rw e (inr (x, All-insert IsLate starts_before q points h k))
      | inr e ↦ rw e (inr (h, (x, k)))
    ]

    insert_p-Around :
        (points : List PricePoint)
        → ltb_ℤ t_s p.start_s ≡ false
        → Parted points
        → Around (insert starts_before p points)
    unfolding insert
    insert_p-Around [] s k = inr (refl, tt)
    insert_p-Around (r ∷ points) s (inl (x, k)) = rw x (inl (x, insert_p-Around points s k))
    insert_p-Around (r ∷ points) s (inr (x, k)) =
        let later : starts_before r p ≡ false = ground arith in rw later (inr (refl, (x, k)))

    insert-Around :
        (q : PricePoint) (points : List PricePoint)
        → ltb_ℤ t_s p.start_s ≡ false
        → IsEarly q ⊎ IsLate q
        → Around points
        → Around (insert starts_before q points)
    unfolding insert
    insert-Around q [] s h k = elim k [ ]
    insert-Around q (r ∷ points) s (inl h) (inl (x, k)) = elim (Bool-cases (starts_before r q)) [
      | inl e ↦ rw e (inl (x, insert-Around q points s (inl h) k))
      | inr e ↦ rw e (inl (h, inl (x, k)))
    ]
    insert-Around q (r ∷ points) s (inl h) (inr (x, k)) =
        let later : starts_before r q ≡ false =
          subst (λ y. starts_before y q ≡ false) (sym x) (ground arith) in
        rw later (inl (h, inr (x, k)))
    insert-Around q (r ∷ points) s (inr h) (inl (x, k)) =
        rw (early-late r q x h s) (inl (x, insert-Around q points s (inr h) k))
    insert-Around q (r ∷ points) s (inr h) (inr (x, k)) =
        let sooner : starts_before r q ≡ true =
          subst (λ y. starts_before y q ≡ true) (sym x) (ground arith) in
        rw sooner (inr (x, All-insert IsLate starts_before q points h k))

    last_started-IsLate :
        (found : Option PricePoint) (points : List PricePoint)
        → All IsLate points
        → last_started found points t_s ≡ found
    last_started-IsLate found [] h = refl
    last_started-IsLate found (q ∷ points) (x, h) = rw x refl

    pub last_started-Around :
        (found : Option PricePoint) (points : List PricePoint)
        → ltb_ℤ t_s p.start_s ≡ false
        → Around points
        → last_started found points t_s ≡ some p
    last_started-Around found [] s k = elim k [ ]
    last_started-Around found (q ∷ points) s (inl (x, k)) =
        let started : ltb_ℤ t_s q.start_s ≡ false = ground arith in
        rw started (last_started-Around (some q) points s k)
    last_started-Around found (q ∷ points) s (inr (x, k)) =
        let started : ltb_ℤ t_s q.start_s ≡ false =
          subst (λ y. ltb_ℤ t_s y.start_s ≡ false) (sym x) s in
        rw started (last_started-IsLate (some q) points k ∙ ap some x)

    sort-Parted :
        (points : List PricePoint)
        → ltb_ℤ t_s p.start_s ≡ false
        → All (λ q. IsEarly q ⊎ IsLate q) points
        → Parted (sort starts_before points)
    unfolding sort
    sort-Parted [] s h = tt
    sort-Parted (q ∷ points) s (x, h) =
        insert-Parted q (sort starts_before points) s x (sort-Parted points s h)

    pub sort-Around :
        (front back : List PricePoint)
        → ltb_ℤ t_s p.start_s ≡ false
        → All (λ q. IsEarly q ⊎ IsLate q) front
        → All (λ q. IsEarly q ⊎ IsLate q) back
        → Around (sort starts_before (front ++ (p ∷ back)))
    unfolding sort
    sort-Around [] back s h k = insert_p-Around (sort starts_before back) s (sort-Parted back s k)
    sort-Around (q ∷ front) back s (x, h) k =
        insert-Around q (sort starts_before (front ++ (p ∷ back))) s x
          (sort-Around front back s h k)
