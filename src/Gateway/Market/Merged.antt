-- ===== src/Gateway/Market/Merged.antt =====
-- The price at a time, after a fresh answer has been merged into the book.
use grid_edge_gateway.Prelude.{
  ◌≡◌, refl, sym, subst, ap, ◌∙◌, List, [], ◌∷◌, ◌++◌, none, some, Bool, true, false, not, ◌&&◌,
  ◌||◌, inl, inr, Bool-cases, All, ◌⊎◌, arith, append_assoc, ◌+◌, ◌*◌, lt→ltb,
}
use grid_edge_gateway.Prelude.Int.{ℤ, pos, pos_part, neg_part, ltb_ℤ, ◌-ℤ◌, +ℤ_parts}
use grid_edge_gateway.Prelude.Doubles.{Doubles}
use grid_edge_gateway.Gateway.Market.{
  PricePoint, end_s, sort, starts_before, last_end, is_kept, retain, merge, price_at, price_of,
}
use grid_edge_gateway.Gateway.Market.Covered.{IsPositive, All-weaken}
use grid_edge_gateway.Gateway.Market.Newest.{
  IsEarly, IsLate, sort-Around, last_started-Around, price_at-last_started,
}

kept_apart : (a b c : Bool) → a ≡ true → b ≡ true → ((not a || not b) && c) ≡ false
kept_apart a b c h k = rw (h, k) refl

module _ ⦃d : Doubles⦄ where
  -- Prices that last for some time, each of them beginning no sooner than the one before it ends.
  abbrev pub EndsBefore : PricePoint → List PricePoint → Type 0
  EndsBefore p [] = Unit {0}
  EndsBefore p (q ∷ points) = ltb_ℤ q.start_s (end_s p) ≡ false

  abbrev pub IsRow : List PricePoint → Type 0
  IsRow [] = Unit {0}
  IsRow (p ∷ points) = IsPositive p × EndsBefore p points × IsRow points

  positive_end : (p : PricePoint) → IsPositive p → ltb_ℤ p.start_s (end_s p) ≡ true
  positive_end p h =
      let parts = +ℤ_parts p.start_s p.dur_s in
      lt→ltb (pos_part p.start_s + neg_part (end_s p)) (pos_part (end_s p) + neg_part p.start_s)
        (omega arith)

  sooner : (a b c : ℤ) → ltb_ℤ a b ≡ true → ltb_ℤ c b ≡ false → ltb_ℤ a c ≡ true
  sooner a b c h k = ground arith

  sooner_still : (a b c : ℤ) → ltb_ℤ a b ≡ true → ltb_ℤ b c ≡ true → ltb_ℤ a c ≡ true
  sooner_still a b c h k = ground arith

  no_later : (a b c : ℤ) → ltb_ℤ b a ≡ false → ltb_ℤ c b ≡ false → ltb_ℤ c a ≡ false
  no_later a b c h k = ground arith

  not_sooner : (a b : ℤ) → ltb_ℤ a b ≡ true → ltb_ℤ b a ≡ false
  not_sooner a b h = ground arith

  same_time : (a : ℤ) → ltb_ℤ a a ≡ false
  same_time a = ground arith

  -- In a row, what follows begins after a time in the first.
  IsRow-IsLate :
      (t_s : ℤ) (p : PricePoint) (back : List PricePoint)
      → IsRow (p ∷ back)
      → ltb_ℤ t_s (end_s p) ≡ true
      → All (λ q. ltb_ℤ t_s q.start_s ≡ true) back
  IsRow-IsLate t_s p [] h k = tt
  IsRow-IsLate t_s p (q ∷ back) (x, y, h) k =
      let late = sooner t_s (end_s p) q.start_s k y in
      (
        late,
        IsRow-IsLate t_s q back h (sooner_still t_s q.start_s (end_s q) late (positive_end q h.0)),
      )

  -- The first of a row begins sooner than one that follows.
  first_sooner :
      (q : PricePoint) (front : List PricePoint) (p : PricePoint) (back : List PricePoint)
      → IsRow (q ∷ (front ++ (p ∷ back)))
      → starts_before q p ≡ true
  first_sooner q [] p back (x, y, h) = sooner q.start_s (end_s q) p.start_s (positive_end q x) y
  first_sooner q (r ∷ front) p back (x, y, h) =
      sooner_still q.start_s r.start_s p.start_s
        (sooner q.start_s (end_s q) r.start_s (positive_end q x) y) (first_sooner r front p back h)

  IsRow-IsEarly :
      (front : List PricePoint) (p : PricePoint) (back : List PricePoint)
      → IsRow (front ++ (p ∷ back))
      → All (λ q. starts_before q p ≡ true) front
  IsRow-IsEarly [] p back h = tt
  IsRow-IsEarly (q ∷ front) p back h =
      (first_sooner q front p back h, IsRow-IsEarly front p back h.2)

  IsRow-rest :
      (front : List PricePoint) (p : PricePoint) (back : List PricePoint)
      → IsRow (front ++ (p ∷ back))
      → IsRow (p ∷ back)
  IsRow-rest [] p back h = h
  IsRow-rest (q ∷ front) p back h = IsRow-rest front p back h.2

  IsRow-last_end :
      (lo : ℤ) (p : PricePoint) (back : List PricePoint)
      → IsRow (p ∷ back)
      → ltb_ℤ (last_end lo (p ∷ back)) (end_s p) ≡ false
  IsRow-last_end lo p [] h = same_time (end_s p)
  IsRow-last_end lo p (q ∷ back) (x, y, h) =
      no_later (end_s p) (end_s q) (last_end lo (q ∷ back))
        (no_later (end_s p) q.start_s (end_s q) y
          (not_sooner q.start_s (end_s q) (positive_end q h.0)))
        (IsRow-last_end lo q back h)

  last_end-append :
      (lo : ℤ) (front : List PricePoint) (p : PricePoint) (back : List PricePoint)
      → last_end lo (front ++ (p ∷ back)) ≡ last_end lo (p ∷ back)
  last_end-append lo [] p back = refl
  last_end-append lo (q ∷ []) p back = refl
  last_end-append lo (q ∷ (r ∷ front)) p back = last_end-append lo (r ∷ front) p back

  module _ (p : PricePoint) (t_s lo hi now_s : ℤ) where
    -- What stays of the book lies before or behind the answer.
    is_kept-apart :
        (q : PricePoint)
        → IsPositive q
        → ltb_ℤ p.start_s lo ≡ false
        → ltb_ℤ hi (end_s p) ≡ false
        → ltb_ℤ t_s (end_s p) ≡ true
        → is_kept lo hi now_s q ≡ true
        → IsEarly p t_s q ⊎ IsLate p t_s q
    is_kept-apart q x l h k e = elim (Bool-cases (ltb_ℤ lo (end_s q))) [
      | inl y ↦ elim (Bool-cases (ltb_ℤ q.start_s hi)) [
        | inl z ↦ absurd (
            cc (
              kept_apart (ltb_ℤ lo (end_s q)) (ltb_ℤ q.start_s hi)
                  (ltb_ℤ (now_s -ℤ pos (8 * 86400)) q.start_s) y z,
              e,
            ))
        | inr z ↦ inr (sooner t_s hi q.start_s (sooner t_s (end_s p) hi k h) z)
      ]
      | inr y ↦
          inl (sooner q.start_s lo p.start_s (sooner q.start_s (end_s q) lo (positive_end q x) y) l)
    ]

    retain-apart :
        (book : List PricePoint)
        → All IsPositive book
        → ltb_ℤ p.start_s lo ≡ false
        → ltb_ℤ hi (end_s p) ≡ false
        → ltb_ℤ t_s (end_s p) ≡ true
        → All (λ q. IsEarly p t_s q ⊎ IsLate p t_s q) (retain (is_kept lo hi now_s) book)
    retain-apart [] x l h k = tt
    retain-apart (q ∷ book) (x, y) l h k = elim (Bool-cases (is_kept lo hi now_s q)) [
      | inl e ↦ rw e (is_kept-apart q x l h k e, retain-apart book y l h k)
      | inr e ↦ rw e (retain-apart book y l h k)
    ]

    All-both :
        (P : PricePoint → Type 0) (xs ys : List PricePoint) → All P xs → All P ys → All P (xs ++ ys)
    All-both P [] ys h k = k
    All-both P (q ∷ xs) ys (x, h) k = (x, All-both P xs ys h k)

    merged_price :
        (book front back : List PricePoint)
        → All IsPositive book
        → IsRow (front ++ (p ∷ back))
        → ltb_ℤ t_s p.start_s ≡ false
        → ltb_ℤ t_s (end_s p) ≡ true
        → ltb_ℤ p.start_s lo ≡ false
        → ltb_ℤ hi (end_s p) ≡ false
        → price_at
            (sort starts_before (retain (is_kept lo hi now_s) book ++ (front ++ (p ∷ back))))
            t_s
          ≡ some p.eur_mwh
    merged_price book front back b row s k l h =
        let kept = retain (is_kept lo hi now_s) book in
        let early = All-weaken front (λ q. inl) (IsRow-IsEarly front p back row) in
        let late =
          All-weaken back (λ q. inr) (IsRow-IsLate t_s p back (IsRow-rest front p back row) k) in
        let around =
          sort-Around p t_s (kept ++ front) back s
            (All-both (λ q. IsEarly p t_s q ⊎ IsLate p t_s q) kept front (retain-apart book b l h k)
              early)
            late in
        ap (λ points. price_at (sort starts_before points) t_s)
          (sym (append_assoc kept front (p ∷ back)))
        ∙ (price_at-last_started (sort starts_before ((kept ++ front) ++ (p ∷ back))) t_s
            ∙ (ap (λ found. price_of found t_s) (last_started-Around p t_s none _ s around)
                ∙ price_now))
      where
        price_now : price_of (some p) t_s ≡ some p.eur_mwh
        price_now = rw k refl

  -- The newest answer wins: after an answer has been merged into a book, the price at a time within one
  -- of the answer's products is that product's, whatever the book held there. The prices of the book and of
  -- the answer last for some time, and each of the answer begins no sooner than the one before it ends.
  pub price_at-merge :
      (book front : List PricePoint) (p : PricePoint) (back : List PricePoint) (t_s now_s : ℤ)
      → All IsPositive book
      → IsRow (front ++ (p ∷ back))
      → ltb_ℤ t_s p.start_s ≡ false
      → ltb_ℤ t_s (end_s p) ≡ true
      → price_at (merge book (front ++ (p ∷ back)) now_s) t_s ≡ some p.eur_mwh
  unfolding merge
  price_at-merge book [] p back t_s now_s b row s k =
      merged_price p t_s p.start_s (last_end p.start_s (p ∷ back)) now_s book [] back b row s k
        (same_time p.start_s) (IsRow-last_end p.start_s p back row)
  price_at-merge book (q ∷ front) p back t_s now_s b row s k =
      let hi = last_end q.start_s (q ∷ (front ++ (p ∷ back))) in
      let ends : ltb_ℤ hi (end_s p) ≡ false =
        subst (λ z. ltb_ℤ z (end_s p) ≡ false) (sym (last_end-append q.start_s (q ∷ front) p back))
          (IsRow-last_end q.start_s p back (IsRow-rest (q ∷ front) p back row)) in
      merged_price p t_s q.start_s hi now_s book (q ∷ front) back b row s k
        (not_sooner q.start_s p.start_s (first_sooner q front p back row)) ends
