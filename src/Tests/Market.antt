-- ===== src/Tests/Market.antt =====
-- An hour's price and the prices of two of its quarters, and a book with another price of that hour.
use grid_edge_gateway.Prelude.{◌≡◌, List, [], ◌∷◌, true, some, refl, All, arith}
use grid_edge_gateway.Prelude.Int.{pos, ◌+ℤ◌}
use grid_edge_gateway.Gateway.Market.{PricePoint, merge_finest, merge, price_at}
use grid_edge_gateway.Gateway.Market.Finest.{IsDisjoint}
use grid_edge_gateway.Gateway.Market.Covered.{has_finer, merge_finest_lem}
use grid_edge_gateway.Gateway.Market.Merged.{price_at-merge}
use grid_edge_gateway.Tests.Numbers.{whole_numbers}

abbrev answer : List (PricePoint ⦃d = whole_numbers⦄)
answer =
    record { start_s = pos 0; dur_s = pos 3600; eur_mwh = 50 }
    ∷ record { start_s = pos 900; dur_s = pos 900; eur_mwh = 60 }
    ∷ record { start_s = pos 0; dur_s = pos 900; eur_mwh = 40 }
    ∷ []

merge_finest_lem_example :
    IsDisjoint ⦃d = whole_numbers⦄ (merge_finest ⦃d = whole_numbers⦄ answer)
    × All
        (λ p. has_finer ⦃d = whole_numbers⦄ p (merge_finest ⦃d = whole_numbers⦄ answer) ≡ true)
        answer
merge_finest_lem_example =
    merge_finest_lem ⦃d = whole_numbers⦄ answer (omega arith, (omega arith, (omega arith, tt)))

abbrev book : List (PricePoint ⦃d = whole_numbers⦄)
book = record { start_s = pos 0; dur_s = pos 3600; eur_mwh = 99 } ∷ []

abbrev first_quarter : PricePoint ⦃d = whole_numbers⦄
first_quarter = record { start_s = pos 0; dur_s = pos 900; eur_mwh = 40 }

abbrev second_quarter : PricePoint ⦃d = whole_numbers⦄
second_quarter = record { start_s = pos 900; dur_s = pos 900; eur_mwh = 60 }

abbrev half_hour : PricePoint ⦃d = whole_numbers⦄
half_hour = record { start_s = pos 1800; dur_s = pos 1800; eur_mwh = 50 }

price_at-merge_example :
    price_at ⦃d = whole_numbers⦄
      (merge ⦃d = whole_numbers⦄ book
        (first_quarter ∷ (second_quarter ∷ (half_hour ∷ [])))
        (pos 100))
      (pos 1000)
    ≡ some 60
unfolding ◌+ℤ◌
price_at-merge_example =
    price_at-merge ⦃d = whole_numbers⦄ book (first_quarter ∷ []) second_quarter (half_hour ∷ [])
      (pos 1000) (pos 100) (omega arith, tt)
      (omega arith, refl, (omega arith, refl, (omega arith, tt, tt))) refl refl
