-- ===== src/Gateway/Readings.antt =====
-- `collect` of `crates/gateway/src/readings.rs`: from what the field bus has read to the controller's
-- readings and the views of `snapshot.rs`. Times are in milliseconds.
pub mod Staleness
use Prim.Native.String.{String}
use grid_edge_gateway.Prelude.{
  ℕ, List, [], ◌∷◌, map, Option, none, some, Bool, true, false, ◌||◌, ◌==◌, if◌then◌else◌,
}
use grid_edge_gateway.Prelude.Doubles.{Doubles, F64, lit, ◌⊖◌, max, sum}
use grid_edge_gateway.Devices.Maps.Evse
use grid_edge_gateway.Devices.Maps.Battery
use grid_edge_gateway.Gateway.Field.{Slot, FieldState, fresh}
use grid_edge_gateway.Gateway.Field
use grid_edge_gateway.Control.Site.{Readings}
use grid_edge_gateway.Control.Site

abbrev is_some : {A : Type 0} → Option A → Bool
is_some none = false
is_some (some a) = true

abbrev pub map_option : {A B : Type 0} → (A → B) → Option A → Option B
map_option f none = none
map_option f (some a) = some (f a)

-- `iter().sum::<Option<_>>()` adds up if all are there.
abbrev all_of : {A : Type 0} → List (Option A) → Option (List A)
all_of [] = some []
all_of (none ∷ options) = none
all_of (some a ∷ options) = map_option (◌∷◌ a) (all_of options)

module _ ⦃d : Doubles⦄ where
  abbrev pub sum_options : List (Option F64) → Option F64
  sum_options options = map_option sum (all_of options)

  pub record InverterView : Type 0 where
    pub online : Bool
    pub kw : Option F64
    pub rated_kw : Option F64

  pub record ChargerView : Type 0 where
    pub online : Bool
    pub status : String
    pub current_a : Option F64
    pub setpoint_a : F64
    pub kw : Option F64
    pub session_kwh : Option F64

  pub record HeatPumpView : Type 0 where
    pub online : Bool
    pub kw : Option F64
    pub demand_kw : Option F64
    pub limit_kw : F64

  pub record BatteryView : Type 0 where
    pub online : Bool
    pub status : String
    pub kw : Option F64
    pub soc_pct : Option F64
    pub setpoint_kw : F64

  pub record Views : Type 0 where
    pub inverters : List InverterView
    pub chargers : List ChargerView
    pub heat_pumps : List HeatPumpView
    pub batteries : List BatteryView

  abbrev available_of : Option Field.InverterReading → Option F64
  available_of none = none
  available_of (some r) = r.available_kw

  abbrev inverter_reading : Option Field.InverterReading → Site.InverterReading
  inverter_reading none = record { online = false; kw = lit 0 1; rated_kw = lit 0 1 }
  inverter_reading (some r) = record { online = true; kw = r.kw; rated_kw = r.rated_kw }

  abbrev is_waiting : ℕ → Bool
  is_waiting status =
      (status == Evse.status_connected)
      || (status == Evse.status_charging)
      || (status == Evse.status_failsafe)

  abbrev charger_reading : Option Field.ChargerReading → Site.ChargerReading
  charger_reading none = record {
    online = false;
    car_waiting = false;
    current_a = lit 0 1;
    power_kw = lit 0 1;
    session_kwh = lit 0 1;
    remaining_kwh = none;
    departure_s = none;
    car_max_current_a = none;
  }
  charger_reading (some c) = record {
    online = true;
    car_waiting = is_waiting c.status;
    current_a = c.current_a;
    power_kw = c.kw;
    session_kwh = c.session_kwh;
    remaining_kwh = map_option (λ r. max (r ⊖ c.session_kwh) (lit 0 1)) c.energy_request_kwh;
    departure_s = c.departure_s;
    car_max_current_a = c.car_max_current_a;
  }

  abbrev heat_pump_reading : Option Field.HeatPumpReading → Site.HeatPumpReading
  heat_pump_reading none = record {
    online = false;
    power_kw = lit 0 1;
    demand_kw = lit 0 1;
    indoor_c = none;
    outdoor_c = none;
  }
  heat_pump_reading (some h) = record {
    online = true;
    power_kw = h.kw;
    demand_kw = h.demand_kw;
    indoor_c = some h.indoor_c;
    outdoor_c = some h.outdoor_c;
  }

  abbrev battery_reading : Option Field.BatteryReading → Site.BatteryReading
  battery_reading none = record { online = false; soc_pct = lit 0 1; power_kw = lit 0 1 }
  battery_reading (some b) = record { online = true; soc_pct = b.soc_pct; power_kw = b.kw }

  abbrev inverter_view : Option Field.InverterReading → InverterView
  inverter_view r = record {
    online = is_some r;
    kw = map_option (λ x. x.kw) r;
    rated_kw = map_option (λ x. x.rated_kw) r;
  }

  abbrev charger_status : Option ℕ → String
  charger_status none = "offline"
  charger_status (some s) =
      if s == Evse.status_available
      then "available"
      else if s == Evse.status_connected
      then "waiting"
      else if s == Evse.status_charging
      then "charging"
      else if s == Evse.status_failsafe
      then "failsafe"
      else if s == Evse.status_finished
      then "finished"
      else "unknown"

  abbrev charger_view : Option Field.ChargerReading → ChargerView
  charger_view c = record {
    online = is_some c;
    status = charger_status (map_option (λ x. x.status) c);
    current_a = map_option (λ x. x.current_a) c;
    setpoint_a = lit 0 1;
    kw = map_option (λ x. x.kw) c;
    session_kwh = map_option (λ x. x.session_kwh) c;
  }

  abbrev heat_pump_view : Option Field.HeatPumpReading → HeatPumpView
  heat_pump_view h = record {
    online = is_some h;
    kw = map_option (λ x. x.kw) h;
    demand_kw = map_option (λ x. x.demand_kw) h;
    limit_kw = lit 0 1;
  }

  abbrev battery_status : Option ℕ → String
  battery_status none = "offline"
  battery_status (some s) =
      if s == Battery.status_charging
      then "charging"
      else if s == Battery.status_discharging
      then "discharging"
      else if s == Battery.status_watchdog
      then "watchdog"
      else "idle"

  abbrev battery_view : Option Field.BatteryReading → BatteryView
  battery_view b = record {
    online = is_some b;
    status = battery_status (map_option (λ x. x.status) b);
    kw = map_option (λ x. x.kw) b;
    soc_pct = map_option (λ x. x.soc_pct) b;
    setpoint_kw = lit 0 1;
  }

  abbrev kw_of : Option Field.InverterReading → Option F64
  kw_of r = map_option (λ x. x.kw) r

  unfoldable pub collect : ℕ → FieldState → ℕ → Readings × Views
  unfolding fresh
  collect now f stale =
      let inverters = map (fresh now stale) f.inverters in
      let chargers = map (fresh now stale) f.chargers in
      let heat_pumps = map (fresh now stale) f.heat_pumps in
      let batteries = map (fresh now stale) f.batteries in
      (
        record {
          grid_kw = fresh now stale f.meter_kw;
          pv_kw = sum_options (map kw_of inverters);
          pv_available_kw = sum_options (map available_of inverters);
          inverters = map inverter_reading inverters;
          chargers = map charger_reading chargers;
          heat_pumps = map heat_pump_reading heat_pumps;
          batteries = map battery_reading batteries;
        },
        record {
          inverters = map inverter_view inverters;
          chargers = map charger_view chargers;
          heat_pumps = map heat_pump_view heat_pumps;
          batteries = map battery_view batteries;
        },
      )
