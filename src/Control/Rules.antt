-- ===== src/Control/Rules.antt =====
-- `crates/control/src/rules.rs`: the regulatory numbers and the minimum power of a dimmed site.
use grid_edge_gateway.Prelude.{
  ℕ, ◌+◌, ◌-◌, List, [], ◌∷◌, Bool, false, ◌||◌, length, if◌then◌else◌, ◌==◌,
}
use grid_edge_gateway.Prelude.Doubles.{Doubles, F64, lit, ◌⊕◌, ◌⊗◌, ◌⊘◌, ◌≺◌, max, sum}

module _ ⦃d : Doubles⦄ where
  abbrev pub pmin_per_device_kw : F64
  pmin_per_device_kw = lit 42 10

  abbrev pub large_device_factor : F64
  large_device_factor = lit 4 10

  abbrev pub large_device_threshold_kw : F64
  large_device_threshold_kw = lit 11 1

  unfoldable pub simultaneity_factor : ℕ → F64
  simultaneity_factor n =
      if n == 0
      then lit 0 1
      else if n == 1
      then lit 0 1
      else if n == 2
      then lit 8 10
      else if n == 3
      then lit 75 100
      else if n == 4
      then lit 7 10
      else if n == 5
      then lit 65 100
      else if n == 6
      then lit 6 10
      else if n == 7
      then lit 55 100
      else if n == 8
      then lit 5 10
      else lit 45 100

  -- The controllable devices behind one grid connection.
  pub record SteuVe : Type 0 where
    pub chargers_and_storage : ℕ
    pub heat_pumps_kw : List F64
    pub air_conditioners_kw : List F64

  unfoldable pub count : SteuVe → ℕ
  count s = s.chargers_and_storage + length s.heat_pumps_kw + length s.air_conditioners_kw

  abbrev pub large : List F64 → Bool
  large [] = false
  large (p ∷ devices) = (large_device_threshold_kw ≺ p) || large devices

  unfoldable pub pmin_kw : SteuVe → F64
  unfolding count simultaneity_factor
  pmin_kw s =
      let n = count s in
      let base =
        if large s.heat_pumps_kw || large s.air_conditioners_kw
        then max (large_device_factor ⊗ sum s.heat_pumps_kw)
            (large_device_factor ⊗ sum s.air_conditioners_kw)
        else pmin_per_device_kw in
      if n == 0
      then lit 0 1
      else base ⊕ d.of_nat (n - 1) ⊗ simultaneity_factor n ⊗ pmin_per_device_kw

  abbrev pub ev_min_current_a : F64
  ev_min_current_a = lit 6 1

  abbrev pub phase_voltage_v : F64
  phase_voltage_v = lit 230 1

  unfoldable pub three_phase_kw : F64 → F64
  three_phase_kw current_a = lit 3 1 ⊗ phase_voltage_v ⊗ current_a ⊘ lit 1000 1

  unfoldable pub three_phase_current_a : F64 → F64
  three_phase_current_a kw = kw ⊗ lit 1000 1 ⊘ (lit 3 1 ⊗ phase_voltage_v)
