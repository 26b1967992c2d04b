-- ===== src/Tests/Contact.antt =====
-- A contact that bounces once and then closes, with a hold time of 500 ms.
use grid_edge_gateway.Prelude.{ℕ, ◌-◌, ◌≤◌, ◌≢◌, ◌↔◌, [], ◌∷◌, true, false, arith}
use grid_edge_gateway.Gateway.Inputs.Debouncing.{Samples, after, HeldSince, after_changes}

abbrev readings : Samples
readings = (true, 600) ∷ (true, 200) ∷ (false, 100) ∷ (true, 0) ∷ []

after_changes_example :
    ((after 500 ((true, 700) ∷ readings)).stable ≢ (after 500 readings).stable) ↔ (
      ((after 500 readings).stable ≢ true)
      × ((since : ℕ) × HeldSince true since readings × (500 ≤ 700 - since)))
after_changes_example = after_changes 500 true 700 readings (omega arith)
