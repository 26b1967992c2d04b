-- ===== src/Control/Site.antt =====
-- The data of `crates/control/src/controller.rs`: what the site has, what the devices read, and what
-- the controller answers. The texts of the errors of `SiteConfig::validate` are left out.
use grid_edge_gateway.Prelude.{
  ℕ, ◌+◌, List, [], ◌∷◌, map, Option, Bool, true, false, not, ◌&&◌, ◌||◌, if◌then◌else◌, length,
  Result, ok, err, panic, ◌>>=◌,
}
use grid_edge_gateway.Prelude.Doubles.{Doubles, F64, lit, ◌⊕◌, ◌≼◌, ◌≺◌, is_nan, sum}
use grid_edge_gateway.Control.Rules.{SteuVe, three_phase_kw, ev_min_current_a}
use grid_edge_gateway.Control.Policy.{Policy, PolicyError}
use grid_edge_gateway.Control.Policy
use grid_edge_gateway.Control.Accounting.{Totals}

pub data FeedInReference : Type 0 where
  plant_output grid_connection_point : FeedInReference

pub data Fallback : Type 0 where
  meter_offline meter_implausible pv_offline pv_implausible : Fallback
  inverter_ignores_limit charger_offline heat_pump_offline battery_offline : ℕ → Fallback

pub data Mode : Type 0 where
  normal dimmed releasing : Mode

pub data Refusal : Type 0 where
  dim_day_limit_reached curtailment_budget_exhausted : Refusal

-- Which check of `SiteConfig::validate` failed, for which device.
pub data SiteError : Type 0 where
  policy_error : PolicyError → SiteError
  not_positive negative : SiteError
  charger_current charger_failsafe heat_pump_power battery_power battery_soc : ℕ → SiteError

abbrev ensure : Bool → SiteError → Result SiteError (Unit {0})
ensure true e = ok tt
ensure false e = err e

module _ ⦃d : Doubles⦄ where
  pub record ChargerSpec : Type 0 where
    pub max_current_a : F64
    pub failsafe_current_a : F64
    pub opted_out : Bool

  pub record HeatPumpSpec : Type 0 where
    pub rated_kw : F64
    pub min_kw : F64
    pub opted_out : Bool

  pub record BatterySpec : Type 0 where
    pub capacity_kwh : F64
    pub max_charge_kw : F64
    pub max_discharge_kw : F64
    pub min_soc_pct : F64
    pub max_soc_pct : F64

  pub record SiteConfig : Type 0 where
    pub policy : Policy
    pub pv_installed_kw : F64
    pub connection_kw : F64
    pub expected_annual_yield_kwh : F64
    pub chargers : List ChargerSpec
    pub heat_pumps : List HeatPumpSpec
    pub batteries : List BatterySpec
    pub feed_in_reference : FeedInReference
    pub release_ramp_s : F64
    pub release_delay_max_s : F64
    pub release_delay_seed : ℕ
    pub pv_follow_timeout_s : F64
    pub compliance_grace_s : F64
    pub site_id : List ℕ
    pub pv_ramp_pct_per_s : F64
    pub margin_kw : F64
    pub min_dwell_s : F64
    pub deadline_guard_s : F64
    pub surplus_hold_s : F64
    pub import_target_kw : F64

  unfoldable pub steuve : SiteConfig → SteuVe
  steuve cfg = record {
    chargers_and_storage = length cfg.chargers + length cfg.batteries;
    heat_pumps_kw = map (λ (h : HeatPumpSpec). h.rated_kw) cfg.heat_pumps;
    air_conditioners_kw = [];
  }

  unfoldable pub rated_loads_kw : SiteConfig → F64
  rated_loads_kw cfg =
      sum (map (λ (c : ChargerSpec). three_phase_kw c.max_current_a) cfg.chargers)
      ⊕ sum (map (λ (h : HeatPumpSpec). h.rated_kw) cfg.heat_pumps)

  abbrev negative_or_nan : List F64 → Bool
  negative_or_nan [] = false
  negative_or_nan (v ∷ values) = is_nan v || (v ≺ lit 0 1) || negative_or_nan values

  unfoldable pub validate_charger : ℕ → ChargerSpec → Result SiteError (Unit {0})
  validate_charger i c =
      if not ((ev_min_current_a ≼ c.max_current_a) && (c.max_current_a ≼ lit 63 1))
      then err (charger_current i)
      else if (c.max_current_a ≺ c.failsafe_current_a)
          || ((lit 0 1 ≺ c.failsafe_current_a) && (c.failsafe_current_a ≺ lit 6 1))
      then err (charger_failsafe i)
      else ok tt

  unfoldable pub validate_heat_pump : ℕ → HeatPumpSpec → Result SiteError (Unit {0})
  validate_heat_pump i h =
      if (h.rated_kw ≼ lit 0 1) || (h.min_kw ≺ lit 0 1) || (h.rated_kw ≺ h.min_kw)
      then err (heat_pump_power i)
      else ok tt

  unfoldable pub validate_battery : ℕ → BatterySpec → Result SiteError (Unit {0})
  validate_battery i b =
      if (b.capacity_kwh ≼ lit 0 1) || (b.max_charge_kw ≺ lit 0 1) || (b.max_discharge_kw ≺ lit 0 1)
      then err (battery_power i)
      else if not ((lit 0 1 ≼ b.min_soc_pct) && (b.min_soc_pct ≼ lit 100 1))
          || (lit 100 1 ≺ b.max_soc_pct)
          || (b.max_soc_pct ≼ b.min_soc_pct)
      then err (battery_soc i)
      else ok tt

  -- `for (i, x) in xs.iter().enumerate() { ...? }`
  abbrev validate_all {ℓ} :
      {A : Type ℓ}
      → (ℕ → A → Result SiteError (Unit {0}))
      → ℕ
      → List A
      → Result SiteError (Unit {0})
  validate_all check i [] = ok tt
  validate_all check i (x ∷ xs) = do _ ← check i x; validate_all check (i + 1) xs

  abbrev pub of_policy : Result PolicyError (Unit {0}) → Result SiteError (Unit {0})
  of_policy (ok u) = ok u
  of_policy (err e) = err (policy_error e)
  of_policy panic = panic

  unfoldable pub validate : SiteConfig → Result SiteError (Unit {0})
  unfolding validate_charger validate_heat_pump validate_battery
  validate cfg = do
    _ ← of_policy (Policy.validate cfg.policy)
    _ ←
        ensure
          ((lit 0 1 ≺ cfg.pv_installed_kw)
            && (lit 0 1 ≺ cfg.connection_kw)
            && (lit 0 1 ≺ cfg.pv_ramp_pct_per_s))
          not_positive
    _ ←
        ensure
          (not (
            negative_or_nan (
              cfg.margin_kw
              ∷ (cfg.release_ramp_s
                  ∷ (cfg.min_dwell_s
                      ∷ (cfg.surplus_hold_s
                          ∷ (cfg.release_delay_max_s
                              ∷ (cfg.pv_follow_timeout_s ∷ (cfg.compliance_grace_s ∷ [])))))))))
          negative
    _ ← validate_all validate_charger 0 cfg.chargers
    _ ← validate_all validate_heat_pump 0 cfg.heat_pumps
    validate_all validate_battery 0 cfg.batteries

  pub record ChargerReading : Type 0 where
    pub online : Bool
    pub car_waiting : Bool
    pub current_a : F64
    pub power_kw : F64
    pub session_kwh : F64
    pub remaining_kwh : Option F64
    pub departure_s : Option F64
    pub car_max_current_a : Option F64

  pub record HeatPumpReading : Type 0 where
    pub online : Bool
    pub power_kw : F64
    pub demand_kw : F64
    pub indoor_c : Option F64
    pub outdoor_c : Option F64

  pub record InverterReading : Type 0 where
    pub online : Bool
    pub kw : F64
    pub rated_kw : F64

  pub record BatteryReading : Type 0 where
    pub online : Bool
    pub soc_pct : F64
    pub power_kw : F64

  pub record Readings : Type 0 where
    pub grid_kw : Option F64
    pub pv_kw : Option F64
    pub pv_available_kw : Option F64
    pub inverters : List InverterReading
    pub chargers : List ChargerReading
    pub heat_pumps : List HeatPumpReading
    pub batteries : List BatteryReading

  pub record Guidance : Type 0 where
    pub grid_kw : Option F64
    pub charger_kw : List (Option F64)
    pub heat_pump_kw : List (Option F64)
    pub dim_expected : Bool

  pub record Setpoints : Type 0 where
    pub pv_limit_pct : F64
    pub inverter_limit_pct : List F64
    pub charger_current_a : List F64
    pub heat_pump_limit_kw : List F64
    pub battery_kw : List F64
    pub heat_pump_ext_kw : List (Option F64)

  pub record Status : Type 0 where
    pub mode : Mode
    pub release_wait_s : Option F64
    pub floor_kw : F64
    pub steuve_budget_kw : Option F64
    pub steuve_kw : F64
    pub steuve_grid_kw : Option F64
    pub base_load_kw : Option F64
    pub pv_surplus_kw : Option F64
    pub feed_in_limit_pct : F64
    pub allowed_export_kw : F64
    pub emergency : Bool
    pub refusals : List Refusal
    pub totals : Totals
    pub curtailment_budget_used_pct : Option F64
    pub fallbacks : List Fallback
