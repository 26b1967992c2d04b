-- ===== src/Gateway/Field.antt =====
-- `crates/gateway/src/field.rs`: what the tasks of the field bus read from the registers of a device,
-- and what they write there. A call of the Modbus client is a parameter or the registers that it gave;
-- a cycle of a task is a function of them, of the time in milliseconds and of the setpoints.
pub mod Discovery
use grid_edge_gateway.Prelude.{
  ℕ, zero, suc, ◌+◌, ◌-◌, ◌*◌, ◌%◌, List, [], ◌∷◌, ◌++◌, Option, none, some, Bool, true, false,
  ◌||◌, not, ◌==◌, leb, ltb, if◌then◌else◌, length, get_elem?, drop, Result, ok, err, panic, ◌>>=◌,
  index,
}
use grid_edge_gateway.Prelude.Int.{ℤ, pos, negsuc}
use grid_edge_gateway.Prelude.Doubles.{Doubles, F64, lit, ◌⊕◌, ◌⊖◌, ◌⊗◌, ◌⊘◌, ◌≺◌, neg, clamp}
use grid_edge_gateway.Devices.Sunspec.{ModelLocation, base, marker, end_id}
use grid_edge_gateway.Devices.Maps.{regs_to_u32}
use grid_edge_gateway.Devices.Maps.Evse
use grid_edge_gateway.Devices.Maps.HeatPump
use grid_edge_gateway.Devices.Maps.Battery
use grid_edge_gateway.Control.Site.{Setpoints}

-- `no_marker`, `endless` and `missing` are the errors of the walk, `bus` those of the client.
pub data FieldError {ℓ} (E : Type ℓ) : Type ℓ where
  bus : E → FieldError E
  no_marker : FieldError E
  endless : FieldError E
  missing : ℕ → FieldError E

abbrev pub same_registers : List ℕ → List ℕ → Bool
same_registers [] [] = true
same_registers [] (b ∷ t) = false
same_registers (a ∷ s) [] = false
same_registers (a ∷ s) (b ∷ t) = if a == b then same_registers s t else false

module _ {E : Type 0} (read : ℕ → ℕ → Result (FieldError E) (List ℕ)) where
  -- The loop of `discover`. It goes on while 32 models or fewer have been found, which 33 rounds
  -- exceed.
  unfoldable pub discover_from :
      ℕ → ℕ → List ModelLocation → Result (FieldError E) (List ModelLocation)
  discover_from zero addr models = err endless
  discover_from (suc fuel) addr models = do
    h ← read addr 2
    id ← index h 0
    if id == end_id then ok models else (do
      len ← index h 1
      let found = models ++ (record { id = id; body = (addr + 2) % 65536; len = len } ∷ [])
      if ltb 32 (length found)
          then err endless
          else discover_from fuel ((addr + (2 + len) % 65536) % 65536) found)

  unfoldable pub discover : Result (FieldError E) (List ModelLocation)
  unfolding discover_from
  discover = do
    m ← read base 2
    if same_registers m marker then discover_from 33 (base + 2) [] else err no_marker

abbrev pub find : {E : Type 0} → List ModelLocation → ℕ → Result (FieldError E) ModelLocation
find [] id = err (missing id)
find (m ∷ models) id = let rest = find models id in if m.id == id then ok m else rest

-- What a task has last read, and when.
pub record Slot {ℓ} (A : Type ℓ) : Type ℓ where
  pub value : Option A
  pub at : Option ℕ

-- `Slot::default`, which is also what a lost connection leaves.
abbrev pub empty {ℓ} : {A : Type ℓ} → Slot A
empty = record { value = none; at = none }

unfoldable pub fresh {ℓ} : {A : Type ℓ} → ℕ → ℕ → Slot A → Option A
fresh now max_age s = elim s.at [
  | none ↦ none
  | some at ↦ elim s.value [
    | none ↦ none
    | some v ↦ if leb (now - at) max_age then some v else none
  ]
]

abbrev pub set {ℓ} : {A : Type ℓ} → ℕ → A → Slot A
set now v = record { value = some v; at = some now }

-- `as u16` of a number that is not negative, and the bits of a word as a signed number.
abbrev pub as_u16 : ℕ → ℕ
as_u16 n = if ltb 65535 n then 65535 else n

abbrev pub i16_as_u16 : ℤ → ℕ
i16_as_u16 (pos n) = if ltb 32767 n then 32767 else n
i16_as_u16 (negsuc n) = if ltb 32767 n then 32768 else 65535 - n

module _ ⦃d : Doubles⦄ where
  abbrev pub of_i16 : ℕ → F64
  of_i16 r = if ltb r 32768 then d.of_nat r else neg (d.of_nat (65536 - r))

  pub record InverterReading : Type 0 where
    pub kw : F64
    pub rated_kw : F64
    pub available_kw : Option F64

  pub record ChargerReading : Type 0 where
    pub status : ℕ
    pub current_a : F64
    pub kw : F64
    pub session_kwh : F64
    pub energy_request_kwh : Option F64
    pub departure_s : Option F64
    pub car_max_current_a : Option F64

  pub record HeatPumpReading : Type 0 where
    pub kw : F64
    pub demand_kw : F64
    pub indoor_c : F64
    pub outdoor_c : F64

  pub record BatteryReading : Type 0 where
    pub status : ℕ
    pub kw : F64
    pub soc_pct : F64

  pub record FieldState : Type 0 where
    pub inverters : List (Slot InverterReading)
    pub meter_kw : Slot F64
    pub chargers : List (Slot ChargerReading)
    pub heat_pumps : List (Slot HeatPumpReading)
    pub batteries : List (Slot BatteryReading)

  -- The registers of a cycle of `charger_session`.
  unfoldable pub read_charger : {E : Type 0} → List ℕ → Result E ChargerReading
  read_charger r = do
    energy ← regs_to_u32 (drop Evse.energy_request r)
    let request = d.of_nat energy ⊘ lit 1000 1
    departure ← index r Evse.departure_min
    car_max ← index r Evse.car_max_current
    status ← index r Evse.status
    current ← index r Evse.current
    power ← regs_to_u32 (drop Evse.power r)
    session ← regs_to_u32 (drop Evse.session_energy r)
    ok (record {
      status = status;
      current_a = d.of_nat current ⊘ lit 10 1;
      kw = d.of_nat power ⊘ lit 1000 1;
      session_kwh = d.of_nat session ⊘ lit 1000 1;
      energy_request_kwh = if lit 0 1 ≺ request then some request else none;
      departure_s =
          if departure == Evse.no_departure then none else some (d.of_nat departure ⊗ lit 60 1);
      car_max_current_a = if ltb 0 car_max then some (d.of_nat car_max ⊘ lit 10 1) else none;
    })

  -- What a task writes, as addresses and values: first of all, and in each cycle.
  abbrev pub arm_charger : F64 → ℕ → List (ℕ × ℕ)
  arm_charger failsafe_current_a failsafe_timeout_s =
      (Evse.failsafe_current, as_u16 (d.to_nat (failsafe_current_a ⊗ lit 10 1)))
      ∷ ((Evse.failsafe_timeout, failsafe_timeout_s) ∷ [])

  abbrev pub get_or_zero : Option F64 → F64
  get_or_zero none = lit 0 1
  get_or_zero (some a) = a

  unfoldable pub write_charger : Setpoints → ℕ → List (ℕ × ℕ)
  write_charger s i =
      (
        Evse.current_limit,
        as_u16 (d.to_nat (d.round (get_or_zero (get_elem? s.charger_current_a i) ⊗ lit 10 1))),
      )
      ∷ []

  unfoldable pub read_heat_pump : {E : Type 0} → List ℕ → Result E HeatPumpReading
  read_heat_pump r = do
    power ← index r HeatPump.power
    demand ← index r HeatPump.demand
    indoor ← index r HeatPump.indoor
    outdoor ← index r HeatPump.outdoor
    ok (record {
      kw = d.of_nat power ⊘ lit 10 1;
      demand_kw = d.of_nat demand ⊘ lit 10 1;
      indoor_c = of_i16 indoor ⊘ lit 10 1;
      outdoor_c = of_i16 outdoor ⊘ lit 10 1;
    })

  abbrev pub ext_raw : Option (Option F64) → ℕ
  ext_raw none = HeatPump.ext_none
  ext_raw (some none) = HeatPump.ext_none
  ext_raw (some (some p)) =
      as_u16 (d.to_nat (clamp (d.round (p ⊗ lit 10 1)) (lit 0 1) (lit 65000 1)))

  unfoldable pub write_heat_pump : Setpoints → ℕ → List (ℕ × ℕ)
  write_heat_pump s i =
      (
        HeatPump.power_limit,
        as_u16 (d.to_nat (d.floor (get_or_zero (get_elem? s.heat_pump_limit_kw i) ⊗ lit 10 1))),
      )
      ∷ ((HeatPump.ext_power, ext_raw (get_elem? s.heat_pump_ext_kw i)) ∷ [])

  unfoldable pub read_battery : {E : Type 0} → List ℕ → Result E BatteryReading
  read_battery r = do
    status ← index r Battery.status
    power ← index r Battery.power
    soc ← index r Battery.soc
    ok (record { status = status; kw = of_i16 power ⊘ lit 10 1; soc_pct = d.of_nat soc ⊘ lit 10 1 })

  abbrev pub arm_battery : ℕ → List (ℕ × ℕ)
  arm_battery watchdog_s = (Battery.watchdog_s, watchdog_s) ∷ []

  unfoldable pub write_battery : Setpoints → ℕ → List (ℕ × ℕ)
  write_battery s i =
      (
        Battery.setpoint,
        i16_as_u16 (
            d.to_int (
              clamp (d.round (get_or_zero (get_elem? s.battery_kw i) ⊗ lit 10 1))
                (neg (lit 32768 1)) (lit 32767 1))),
      )
      ∷ []
