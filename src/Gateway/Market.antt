-- ===== src/Gateway/Market.antt =====
-- `crates/gateway/src/market.rs`: the day-ahead prices that the gateway knows. Times are whole numbers of
-- seconds, which the source keeps far within an `i64`.
pub mod Finest
pub mod Covered
pub mod Newest
pub mod Merged
use grid_edge_gateway.Prelude.{
  ℕ, zero, suc, ◌+◌, ◌-◌, ◌*◌, ◌==◌, List, [], ◌∷◌, ◌++◌, Option, none, some, Bool, true, false,
  not, ◌&&◌, ◌||◌, if◌then◌else◌, get_elem?,
}
use grid_edge_gateway.Prelude.Int.{ℤ, pos, ◌+ℤ◌, ◌-ℤ◌, ltb_ℤ, ◌==ℤ◌}
use grid_edge_gateway.Prelude.Doubles.{Doubles, F64}

module _ ⦃d : Doubles⦄ where
  pub record PricePoint : Type 0 where
    pub start_s : ℤ
    pub dur_s : ℤ
    pub eur_mwh : F64

  abbrev pub end_s : PricePoint → ℤ
  end_s p = p.start_s +ℤ p.dur_s

  -- A stable sort: `comes_before q p` where `q` goes before a `p` that stands further in front.
  unfoldable pub insert :
      (PricePoint → PricePoint → Bool) → PricePoint → List PricePoint → List PricePoint
  insert comes_before p [] = p ∷ []
  insert comes_before p (q ∷ points) =
      let rest = insert comes_before p points in
      if comes_before q p then q ∷ rest else p ∷ (q ∷ points)

  unfoldable pub sort : (PricePoint → PricePoint → Bool) → List PricePoint → List PricePoint
  unfolding insert
  sort comes_before [] = []
  sort comes_before (p ∷ points) = insert comes_before p (sort comes_before points)

  abbrev pub starts_before : PricePoint → PricePoint → Bool
  starts_before p q = ltb_ℤ p.start_s q.start_s

  abbrev pub is_finer : PricePoint → PricePoint → Bool
  is_finer p q = ltb_ℤ p.dur_s q.dur_s || ((p.dur_s ==ℤ q.dur_s) && ltb_ℤ p.start_s q.start_s)

  abbrev pub overlaps : PricePoint → PricePoint → Bool
  overlaps p k = ltb_ℤ p.start_s (end_s k) && ltb_ℤ k.start_s (end_s p)

  abbrev pub any_overlaps : PricePoint → List PricePoint → Bool
  any_overlaps p [] = false
  any_overlaps p (k ∷ kept) = overlaps p k || any_overlaps p kept

  unfoldable pub keep_free : List PricePoint → List PricePoint → List PricePoint
  keep_free kept [] = kept
  keep_free kept (p ∷ points) =
      keep_free (if any_overlaps p kept then kept else kept ++ (p ∷ [])) points

  unfoldable pub merge_finest : List PricePoint → List PricePoint
  unfolding sort keep_free
  merge_finest points = sort starts_before (keep_free [] (sort is_finer points))

  -- `PriceBook::merge`
  abbrev pub last_end : ℤ → List PricePoint → ℤ
  last_end lo [] = lo
  last_end lo (p ∷ []) = end_s p
  last_end lo (p ∷ (q ∷ points)) = last_end lo (q ∷ points)

  abbrev pub is_kept : ℤ → ℤ → ℤ → PricePoint → Bool
  is_kept lo hi now_s p =
      (not (ltb_ℤ lo (end_s p)) || not (ltb_ℤ p.start_s hi))
      && ltb_ℤ (now_s -ℤ pos (8 * 86400)) p.start_s

  abbrev pub retain : (PricePoint → Bool) → List PricePoint → List PricePoint
  retain f [] = []
  retain f (p ∷ points) = let rest = retain f points in if f p then p ∷ rest else rest

  unfoldable pub merge : List PricePoint → List PricePoint → ℤ → List PricePoint
  unfolding sort
  merge book [] now_s = book
  merge book (first ∷ fresh) now_s = sort starts_before (
      retain (is_kept first.start_s (last_end first.start_s (first ∷ fresh)) now_s) book
      ++ (first ∷ fresh))

  -- `partition_point` of a book that is sorted.
  abbrev pub started : List PricePoint → ℤ → ℕ
  started [] t_s = 0
  started (p ∷ points) t_s =
      let rest = started points t_s in if ltb_ℤ t_s p.start_s then 0 else suc rest

  abbrev pub price_in : PricePoint → ℤ → Option F64
  price_in p t_s = if ltb_ℤ t_s (end_s p) then some p.eur_mwh else none

  abbrev pub price_of : Option PricePoint → ℤ → Option F64
  price_of none t_s = none
  price_of (some p) t_s = price_in p t_s

  abbrev pub before : ℕ → Option ℕ
  before zero = none
  before (suc i) = some i

  unfoldable pub price_at : List PricePoint → ℤ → Option F64
  price_at book t_s = elim (before (started book t_s)) [
    | none ↦ none
    | some i ↦ price_of (get_elem? book i) t_s
  ]

  -- The days that `at_or_before` goes back.
  abbrev pub first_found : List PricePoint → ℤ → List ℕ → Option F64
  first_found book t_s [] = none
  first_found book t_s (n ∷ days) =
      let rest = first_found book t_s days in
      elim (price_at book (t_s -ℤ pos (n * 86400))) [ none ↦ rest | some p ↦ some p ]

  abbrev pub unpublished : Option F64 → Option (F64 × Bool)
  unpublished none = none
  unpublished (some p) = some (p, false)

  unfoldable pub at_or_before : List PricePoint → ℤ → Option (F64 × Bool)
  unfolding price_at
  at_or_before book t_s = elim (price_at book t_s) [
    | none ↦ unpublished (first_found book t_s (1 ∷ 2 ∷ 7 ∷ []))
    | some p ↦ some (p, true)
  ]
