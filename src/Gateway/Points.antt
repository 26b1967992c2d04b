-- ===== src/Gateway/Points.antt =====
-- `measurements` and `single_points` of `crates/gateway/src/dso.rs`, over the fields of `snapshot.rs`
-- and of the controller's `DsoCommands` that the station uses.
use Prim.Native.String.{String}
use text.Mathlib.Text
use grid_edge_gateway.Prelude.{ℕ, List, [], ◌∷◌, Option, none, some, Bool, true, false, ◌||◌}
use grid_edge_gateway.Prelude.Int.{ℤ}
use grid_edge_gateway.Prelude.Doubles.{Doubles}
use grid_edge_gateway.Prelude.Text.{starts_with, ends_with}
use grid_edge_gateway.Iec104.Time.{Cp56Time2a}
use grid_edge_gateway.Iec104.Element.{good_quality, invalid_quality, Element, float_time}

abbrev pub any : (String → Bool) → List String → Bool
any f [] = false
any f (s ∷ texts) = f s || any f texts

module _ (doubles : Doubles) where
  abbrev pub F64 : Type 0
  F64 = doubles.F64

  -- What the operator demands.
  pub record DsoCommands : Type 0 where
    pub dim : Bool
    pub feed_in_limit_pct : F64
    pub emergency : Bool
    pub limit_kw : Option F64

  pub record BatteryView : Type 0 where
    pub kw : Option F64
    pub soc_pct : Option F64

  pub record Snapshot : Type 0 where
    pub time_ms : ℤ
    pub dso_feed_in_limit_pct : F64
    pub dso_emergency : Bool
    pub mode : String
    pub grid_kw : Option F64
    pub pv_kw : Option F64
    pub steuve_kw : F64
    pub steuve_grid_kw : Option F64
    pub floor_kw : F64
    pub feed_in_limit_in_force_pct : F64
    pub pv_limit_pct : F64
    pub batteries : List BatteryView
    pub dimmed_min_today : F64
    pub curtailed_kwh_year : F64
    pub curtailment_budget_used_pct : Option F64
    pub refusals : List String
    pub fallbacks : List String

  abbrev add_optional : Option F64 → Option F64 → Option F64
  add_optional (some a) (some b) = some (doubles.add a b)
  add_optional (some a) none = none
  add_optional none b = none

  abbrev sum : Option F64 → List BatteryView → Option F64
  sum total [] = total
  sum total (b ∷ batteries) = sum (add_optional total b.kw) batteries

  abbrev battery_kw : List BatteryView → Option F64
  battery_kw [] = none
  battery_kw (b ∷ batteries) = sum (some doubles.sum_start) (b ∷ batteries)

  abbrev soc : List BatteryView → Option F64
  soc [] = none
  soc (b ∷ batteries) = b.soc_pct

  unfoldable pub measurements : Snapshot → List (ℕ × Option F64)
  measurements s =
      (1001, s.grid_kw)
      ∷ (1002, s.pv_kw)
      ∷ (1003, some s.steuve_kw)
      ∷ (1004, s.steuve_grid_kw)
      ∷ (1005, some s.floor_kw)
      ∷ (1006, some s.dso_feed_in_limit_pct)
      ∷ (1007, some s.pv_limit_pct)
      ∷ (1008, some s.feed_in_limit_in_force_pct)
      ∷ (1009, battery_kw s.batteries)
      ∷ (1010, soc s.batteries)
      ∷ (1011, some s.dimmed_min_today)
      ∷ (1012, some s.curtailed_kwh_year)
      ∷ (1013, s.curtailment_budget_used_pct)
      ∷ []

  unfoldable pub single_points : Snapshot → List (ℕ × Bool)
  unfolding starts_with ends_with
  single_points s =
      (2001, Text.◌==◌ s.mode "dimmed")
      ∷ (2002, Text.◌==◌ s.mode "releasing")
      ∷ (2003, any (λ f. starts_with f "meter") s.fallbacks)
      ∷ (2004, any (λ f. true) s.fallbacks)
      ∷ (2005, s.dso_emergency)
      ∷ (2006, any (λ r. Text.◌==◌ r "contract day limit reached") s.refusals)
      ∷ (2007, any (λ r. Text.◌==◌ r "curtailment budget used up") s.refusals)
      ∷ (2008, any (λ f. ends_with f "ignores its limit") s.fallbacks)
      ∷ []

  unfoldable pub float_element : Option F64 → Cp56Time2a → Element
  float_element (some v) time = float_time (doubles.to_f32 v) good_quality time
  float_element none time = float_time 0 invalid_quality time
