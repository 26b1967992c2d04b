-- ===== src/Control/Step.antt =====
-- `Controller::step` of `crates/control/src/controller.rs`, put together from its parts.
pub mod Modes
pub mod Limits
pub mod History
use grid_edge_gateway.Prelude.{
  ℕ, zero, suc, ◌+◌, ◌≡◌, List, [], ◌∷◌, ◌++◌, Option, none, some, Bool, true, false, not, ◌&&◌,
  ◌||◌, if◌then◌else◌, length, ◌==◌, map,
}
use grid_edge_gateway.Prelude.Doubles.{
  Doubles, F64, lit, ◌⊕◌, ◌⊖◌, ◌⊗◌, ◌⊘◌, ◌≼◌, ◌≺◌, is_finite, neg, max, min, clamp, sum,
}
use grid_edge_gateway.Control.Accounting.{Clock, Accounting, roll, advance, step_s}
use grid_edge_gateway.Control.Report.{Printing}
use grid_edge_gateway.Control.Compliance.{observe}
use grid_edge_gateway.Control.Site.{
  Fallback, Mode, normal, dimmed, releasing, Refusal, ChargerSpec, HeatPumpSpec, SiteConfig,
  ChargerReading, HeatPumpReading, Readings, Guidance, Setpoints, Status,
}
use grid_edge_gateway.Control.Battery.{Balance, plan_batteries}
use grid_edge_gateway.Control.Controller.{
  Controller, repeat, floor_for, check_grid, check_pv, Loads, is_contract, add_chargers,
  add_heat_pumps, add_batteries, base_load_of, pv_surplus_of, hold_surplus, decide_dim, Budget,
  plan_budget, FeedIn, limit_feed_in, target_pv_pct, ramp_pv,
}
use grid_edge_gateway.Control.Allocate.{Bay, Pump, Allocation, allocate}
use grid_edge_gateway.Control.Inverters.{watch, Watched, ignored, limit_inverters}
use grid_edge_gateway.Gateway.Points.{DsoCommands}

module _ ⦃d : Doubles⦄ where
  abbrev head_of {ℓ} : {A : Type ℓ} → List A → Option A
  head_of [] = none
  head_of (x ∷ xs) = some x

  abbrev tail_of {ℓ} : {A : Type ℓ} → List A → List A
  tail_of [] = []
  tail_of (x ∷ xs) = xs

  -- `get(i).copied().flatten()`, for the first of a list.
  abbrev plan_of : List (Option F64) → Option F64
  plan_of [] = none
  plan_of (p ∷ plans) = p

  abbrev or_off : Option Bool → Bool
  or_off none = false
  or_off (some b) = b

  abbrev or_never : Option F64 → F64
  or_never none = neg d.infinity
  or_never (some t) = t

  unfoldable pub bays :
      Bool
      → ℕ
      → List ChargerSpec
      → List ChargerReading
      → List (Option F64)
      → List Bool
      → List F64
      → List Bay
  bays voluntary i [] readings plans on switched_at = []
  bays voluntary i (spec ∷ specs) readings plans on switched_at =
      record {
        number = i;
        spec = spec;
        reading = head_of readings;
        planned_kw = plan_of plans;
        is_on = or_off (head_of on);
        switched_at = or_never (head_of switched_at);
        exempt = voluntary && spec.opted_out;
      }
      ∷ bays voluntary (i + 1) specs (tail_of readings) (tail_of plans) (tail_of on)
          (tail_of switched_at)

  unfoldable pub pumps :
      Bool → List HeatPumpSpec → List HeatPumpReading → List (Option F64) → List Pump
  pumps voluntary [] readings plans = []
  pumps voluntary (spec ∷ specs) readings plans =
      record {
        spec = spec;
        reading = head_of readings;
        planned_kw = plan_of plans;
        exempt = voluntary && spec.opted_out;
      }
      ∷ pumps voluntary specs (tail_of readings) (tail_of plans)

  -- `set_charger_on` for every charger: the times at which they were switched last.
  unfoldable pub switch_times : F64 → List Bool → List Bool → List F64 → List F64
  switch_times t_s [] on at = []
  switch_times t_s (was ∷ before) [] at = at
  switch_times t_s (was ∷ before) (now ∷ on) [] = []
  switch_times t_s (was ∷ before) (now ∷ on) (t ∷ at) =
      (if (was && now) || (not was && not now) then t else t_s) ∷ switch_times t_s before on at

  abbrev charger_plans : Option Guidance → List (Option F64)
  charger_plans none = []
  charger_plans (some g) = g.charger_kw

  abbrev heat_pump_plans : Option Guidance → List (Option F64)
  heat_pump_plans none = []
  heat_pump_plans (some g) = g.heat_pump_kw

  -- What a cycle reads off the site before it decides.
  pub record Seen : Type 0 where
    pub floor_kw : F64
    pub dt : F64
    pub grid_kw : Option F64
    pub pv_kw : Option F64
    pub loads_kw : F64
    pub offline_reserve : F64
    pub battery_kw : F64
    pub base_load : Option F64
    pub pv_surplus : Option F64
    pub held_surplus : Option F64
    pub surplus_seen : List (F64 × F64)
    pub fallbacks : List Fallback

  unfoldable pub see : Controller → F64 → DsoCommands d → Readings → Seen
  unfolding floor_for check_grid check_pv add_chargers add_heat_pumps add_batteries hold_surplus
  see c t_s cmd r =
      let cfg = c.cfg in
      let voluntary = is_contract cfg.policy.consumption in
      let (grid_kw, grid_fallbacks) = check_grid cfg r.grid_kw in
      let (pv_kw, pv_fallbacks) = check_pv cfg r.pv_kw in
      let nothing : Loads = record {
        loads_kw = lit 0 1;
        offline_reserve = lit 0 1;
        fallbacks = grid_fallbacks ++ pv_fallbacks;
      } in
      let loads =
        add_heat_pumps voluntary 0 cfg.heat_pumps r.heat_pumps
          (add_chargers voluntary 0 cfg.chargers r.chargers nothing) in
      let (battery_kw, fallbacks) =
        add_batteries 0 cfg.batteries r.batteries (lit 0 1, loads.fallbacks) in
      let base_load = base_load_of grid_kw pv_kw loads.loads_kw battery_kw in
      let pv_surplus = pv_surplus_of base_load pv_kw in
      let (held_surplus, surplus_seen) =
        hold_surplus t_s cfg.surplus_hold_s pv_surplus c.surplus_seen in
      record {
        floor_kw = floor_for c cmd;
        dt = step_s c.last_t t_s;
        grid_kw = grid_kw;
        pv_kw = pv_kw;
        loads_kw = loads.loads_kw;
        offline_reserve = loads.offline_reserve;
        battery_kw = battery_kw;
        base_load = base_load;
        pv_surplus = pv_surplus;
        held_surplus = held_surplus;
        surplus_seen = surplus_seen;
        fallbacks = fallbacks;
      }

  abbrev is_releasing : Mode → Bool
  is_releasing normal = false
  is_releasing dimmed = false
  is_releasing releasing = true

  abbrev pub is_dimmed : Mode → Bool
  is_dimmed normal = false
  is_dimmed dimmed = true
  is_dimmed releasing = false

  abbrev discharges : List F64 → List F64
  discharges [] = []
  discharges (p ∷ powers) = max (neg p) (lit 0 1) ∷ discharges powers

  abbrev charges : List F64 → List F64
  charges [] = []
  charges (p ∷ powers) = max p (lit 0 1) ∷ charges powers

  -- What the PV could have produced above what it did.
  abbrev curtailed_of : Option F64 → Option F64 → F64 → F64
  curtailed_of (some avail) (some pv) pv_limit_pct =
      if pv_limit_pct ≺ lit 100 1 then max (avail ⊖ pv) (lit 0 1) else lit 0 1
  curtailed_of (some avail) none pv_limit_pct = lit 0 1
  curtailed_of none pv pv_limit_pct = lit 0 1

  abbrev drawn_from_grid : Option F64 → F64 → F64 → Option F64
  drawn_from_grid none steuve_kw battery_kw = none
  drawn_from_grid (some s) steuve_kw battery_kw =
      some (max (steuve_kw ⊖ s ⊖ d.abs (min battery_kw (lit 0 1))) (lit 0 1))

  abbrev requests : List HeatPumpSpec → List (Option F64) → List F64 → List (Option F64)
  requests [] plans limits = []
  requests (h ∷ specs) [] limits = none ∷ requests specs [] (tail_of limits)
  requests (h ∷ specs) (none ∷ plans) limits = none ∷ requests specs plans (tail_of limits)
  requests (h ∷ specs) (some p ∷ plans) [] = none ∷ requests specs plans []
  requests (h ∷ specs) (some p ∷ plans) (limit ∷ limits) =
      some (max (min p limit) (lit 0 1)) ∷ requests specs plans limits

  -- `self.inverter_sent_pct` and `self.inverter_over_since`, reset where the number of inverters changed.
  abbrev sent_to : Controller → ℕ → List F64
  sent_to c n =
      if length c.inverter_sent_pct == n then c.inverter_sent_pct else repeat n (lit 100 1)

  abbrev over_since_of : Controller → ℕ → List (Option F64)
  over_since_of c n =
      if length c.inverter_sent_pct == n then c.inverter_over_since else repeat n none

  -- What a cycle decides: the budget of the loads, the feed-in limit and the setpoints.
  pub record Decided : Type 0 where
    pub dim : Bool
    pub budget : Budget
    pub feed_in : FeedIn
    pub accounting : Accounting
    pub allowed_export_kw : F64
    pub battery_kw : List F64
    pub allocation : Allocation
    pub pv_limit_pct : F64
    pub watched : List Watched
    pub refusals : List Refusal

  unfoldable pub decide : Controller → Clock → DsoCommands d → Readings → Seen → Decided
  unfolding roll decide_dim plan_budget limit_feed_in plan_batteries allocate target_pv_pct ramp_pv
      watch bays pumps
  decide c clock cmd r seen =
      let cfg = c.cfg in
      let t_s = clock.t_s in
      let voluntary = is_contract cfg.policy.consumption in
      let accounting = roll c.accounting clock in
      let (dim, dim_refusals) = decide_dim cfg.policy.consumption cmd accounting.totals in
      let b = plan_budget c t_s dim seen.floor_kw seen.held_surplus in
      let f = limit_feed_in cfg cmd accounting.totals in
      let allowed_export_kw = cfg.pv_installed_kw ⊗ f.feed_in_pct ⊘ lit 100 1 in
      let balance : Balance = record {
        grid_kw = seen.grid_kw;
        battery_now_kw = seen.battery_kw;
        constrained = dim || is_releasing b.mode;
        floor_kw = seen.floor_kw;
        base_load = seen.base_load;
        pv_kw = seen.pv_kw;
        loads_kw = seen.loads_kw;
        allowed_export_kw = if f.feed_in_pct ≺ lit 100 1 then some allowed_export_kw else none;
      } in
      let battery_sp = plan_batteries cfg c.guidance balance r in
      let discharge = sum (discharges battery_sp) in
      let charge = sum (charges battery_sp) in
      let loads_budget = if is_finite b.budget then b.budget ⊕ discharge ⊖ charge else b.budget in
      let allocation =
        allocate cfg t_s (loads_budget ⊖ seen.offline_reserve)
          (bays voluntary 0 cfg.chargers r.chargers (charger_plans c.guidance) c.charger_on
            c.charger_switched_at)
          (pumps voluntary cfg.heat_pumps r.heat_pumps (heat_pump_plans c.guidance)) in
      let target_pct =
        target_pv_pct cfg f.feed_in_pct allowed_export_kw seen.grid_kw seen.pv_kw seen.battery_kw
          charge discharge in
      let n_inv = length r.inverters in
      record {
        dim = dim;
        budget = b;
        feed_in = f;
        accounting = accounting;
        allowed_export_kw = allowed_export_kw;
        battery_kw = battery_sp;
        allocation = allocation;
        pv_limit_pct = ramp_pv c seen.dt target_pct;
        watched = watch cfg t_s r.inverters (sent_to c n_inv) (over_since_of c n_inv);
        refusals = dim_refusals ++ f.refusals;
      }

  unfoldable pub setpoints : Controller → Decided → Setpoints
  unfolding limit_inverters
  setpoints c x = record {
    pv_limit_pct = x.pv_limit_pct;
    inverter_limit_pct = limit_inverters c.cfg x.pv_limit_pct x.watched;
    charger_current_a = x.allocation.currents;
    heat_pump_limit_kw = x.allocation.pumps_kw;
    battery_kw = x.battery_kw;
    heat_pump_ext_kw = requests c.cfg.heat_pumps (heat_pump_plans c.guidance) x.allocation.pumps_kw;
  }

  unfoldable pub status : DsoCommands d → Seen → Decided → Accounting → Status
  status cmd seen x accounting =
      let steuve_kw = seen.loads_kw ⊕ max seen.battery_kw (lit 0 1) in
      record {
        mode = x.budget.mode;
        release_wait_s = x.budget.release_wait_s;
        floor_kw = seen.floor_kw;
        steuve_budget_kw =
            if is_finite x.budget.budget then some (max x.budget.budget (lit 0 1)) else none;
        steuve_kw = steuve_kw;
        steuve_grid_kw = drawn_from_grid seen.pv_surplus steuve_kw seen.battery_kw;
        base_load_kw = seen.base_load;
        pv_surplus_kw = seen.pv_surplus;
        feed_in_limit_pct = x.feed_in.feed_in_pct;
        allowed_export_kw = x.allowed_export_kw;
        emergency = cmd.emergency;
        refusals = x.refusals;
        totals = accounting.totals;
        curtailment_budget_used_pct = x.feed_in.budget_used;
        fallbacks = seen.fallbacks ++ ignored 0 x.watched;
      }

  module _ (p : Printing d) where
    unfoldable pub step :
        Controller → Clock → DsoCommands d → Readings → (Setpoints × Status) × Controller
    unfolding see decide setpoints status advance switch_times
    step c clock cmd r =
        let seen = see c clock.t_s cmd r in
        let x = decide c clock cmd r seen in
        let sp = setpoints c x in
        let accounting =
          advance x.accounting clock x.dim seen.pv_kw
            (curtailed_of r.pv_available_kw seen.pv_kw x.pv_limit_pct) in
        let st = status cmd seen x accounting in
        let switched_at =
          switch_times clock.t_s c.charger_on x.allocation.on c.charger_switched_at in
        let c' : Controller = record c {
          was_dimmed = x.dim;
          last_budget_kw = x.budget.budget;
          release = x.budget.release;
          last_pv_pct = x.pv_limit_pct;
          last_t = some clock.t_s;
          charger_on = x.allocation.on;
          charger_switched_at = switched_at;
          accounting = accounting;
          surplus_seen = seen.surplus_seen;
          rng = x.budget.rng;
          inverter_sent_pct = sp.inverter_limit_pct;
          inverter_over_since = map (λ (w : Watched). w.over_since) x.watched;
          compliance =
              observe p c.compliance clock.t_s (is_dimmed st.mode) st.emergency st.floor_kw
                st.steuve_grid_kw st.steuve_budget_kw;
        } in
        ((sp, st), c')
