-- ===== src/Control/Controller.antt =====
-- `Controller::new` and the parts of `Controller::step` of `crates/control/src/controller.rs`.
use grid_edge_gateway.Prelude.{
  ℕ, zero, suc, ◌+◌, ◌*◌, ◌/◌, ◌%◌, ◌^◌, List, [], ◌∷◌, ◌++◌, Option, none, some, Bool, true, false,
  not, ◌&&◌, ◌||◌, if◌then◌else◌, bit_or, length,
}
use Prim.Native.Nat.{bit_xor}
use grid_edge_gateway.Prelude.Int.{ℤ, pos}
use grid_edge_gateway.Prelude.Doubles.{
  Doubles, F64, lit, ◌⊕◌, ◌⊖◌, ◌⊗◌, ◌⊘◌, ◌≼◌, ◌≺◌, is_finite, neg, max, min, clamp,
}
use grid_edge_gateway.Control.Rules.{pmin_kw, three_phase_kw}
use grid_edge_gateway.Control.Policy.{ConsumptionRule, de_14a, contract}
use grid_edge_gateway.Control.Accounting.{Totals, Accounting, restore}
use grid_edge_gateway.Control.Compliance.{Recorder, new_recorder, set_epoch, resume, take_reports}
use grid_edge_gateway.Control.Report.{DimmingReport}
use grid_edge_gateway.Control.Site.{
  Fallback, meter_offline, meter_implausible, pv_offline, pv_implausible, charger_offline,
  heat_pump_offline, battery_offline, Mode, normal, dimmed, releasing, Refusal,
  dim_day_limit_reached, curtailment_budget_exhausted, plant_output, grid_connection_point,
  ChargerSpec, HeatPumpSpec, BatterySpec, SiteConfig, steuve, rated_loads_kw, ChargerReading,
  HeatPumpReading, BatteryReading, Guidance,
}
use grid_edge_gateway.Gateway.Points.{DsoCommands}

abbrev max_u64 : ℕ
max_u64 = 2 ^ 64

-- The xorshift64 generator.
unfoldable pub xorshift : ℕ → ℕ
xorshift s0 =
    let s1 = bit_xor s0 (s0 * 2 ^ 13 % max_u64) in
    let s2 = bit_xor s1 (s1 / 2 ^ 7) in bit_xor s2 (s2 * 2 ^ 17 % max_u64)

module _ ⦃d : Doubles⦄ where
  unfoldable pub random_unit : ℕ → F64
  random_unit state = d.of_nat (state / 2 ^ 11) ⊘ d.of_nat (2 ^ 53)

  pub record Controller : Type 0 where
    pub cfg : SiteConfig
    pub floor_kw : F64
    pub was_dimmed : Bool
    pub last_budget_kw : F64
    pub release : Option (F64 × F64)
    pub last_pv_pct : F64
    pub last_t : Option F64
    pub charger_on : List Bool
    pub charger_switched_at : List F64
    pub accounting : Accounting
    pub guidance : Option Guidance
    pub surplus_seen : List (F64 × F64)
    pub rng : ℕ
    pub inverter_sent_pct : List F64
    pub inverter_over_since : List (Option F64)
    pub compliance : Recorder

  abbrev pub legal_floor_kw : SiteConfig → ConsumptionRule → F64
  legal_floor_kw cfg de_14a = pmin_kw (steuve cfg)
  legal_floor_kw cfg (contract min_kw minutes) = min_kw

  abbrev pub repeat {ℓ} : {A : Type ℓ} → ℕ → A → List A
  repeat zero a = []
  repeat (suc n) a = a ∷ repeat n a

  unfoldable pub new : SiteConfig → Controller
  new cfg = record {
    cfg = cfg;
    floor_kw = legal_floor_kw cfg cfg.policy.consumption;
    was_dimmed = false;
    last_budget_kw = d.infinity;
    release = none;
    last_pv_pct = lit 100 1;
    last_t = none;
    charger_on = repeat (length cfg.chargers) false;
    charger_switched_at = repeat (length cfg.chargers) (neg d.infinity);
    accounting = record {
      totals = record {
        day = pos 0;
        year = pos 0;
        dimmed_s_today = lit 0 1;
        produced_kwh_year = lit 0 1;
        curtailed_kwh_year = lit 0 1;
      };
      last_t = none;
    };
    guidance = none;
    surplus_seen = [];
    rng = bit_or (cfg.release_delay_seed * 0x9E3779B97F4A7C15 % max_u64) 1;
    inverter_sent_pct = [];
    inverter_over_since = [];
    compliance = new_recorder cfg.site_id cfg.compliance_grace_s (pos 0);
  }

  unfoldable pub set_guidance : Controller → Option Guidance → Controller
  set_guidance c guidance = record c { guidance = guidance }

  unfoldable pub with_report_epoch : Controller → ℤ → Controller
  with_report_epoch c epoch_ms = record c { compliance = set_epoch c.compliance epoch_ms }

  unfoldable pub with_report_chain : Controller → ℕ → List ℕ → Controller
  with_report_chain c seq last_sha256 = record c {
    compliance = resume c.compliance seq last_sha256;
  }

  unfoldable pub with_totals : Controller → Totals → Controller
  with_totals c totals = record c { accounting = restore totals }

  -- `Controller::take_reports`
  unfoldable pub take_finished : Controller → List DimmingReport × Controller
  take_finished c =
      let (reports, recorder) = take_reports c.compliance in
      (reports, record c { compliance = recorder })

  -- `Controller::floor_for`
  unfoldable pub floor_for : Controller → DsoCommands d → F64
  floor_for c cmd = elim cmd.limit_kw [
    | none ↦ c.floor_kw
    | some l ↦ if is_finite l then max l c.floor_kw else c.floor_kw
  ]

  -- What a plausibility check makes of a reading, and the fallback that it reports.
  abbrev pub Checked : Type 0
  Checked = Option F64 × List Fallback

  unfoldable pub check_grid : SiteConfig → Option F64 → Checked
  check_grid cfg none = (none, meter_offline ∷ [])
  check_grid cfg (some g) =
      if not (is_finite g) || (lit 15 10 ⊗ cfg.connection_kw ≺ d.abs g)
      then (none, meter_implausible ∷ [])
      else (some g, [])

  unfoldable pub check_pv : SiteConfig → Option F64 → Checked
  check_pv cfg none = (none, pv_offline ∷ [])
  check_pv cfg (some p) =
      if not (is_finite p) || (p ≺ neg (lit 1 1)) || (lit 125 100 ⊗ cfg.pv_installed_kw ≺ p)
      then (none, pv_implausible ∷ [])
      else (some (max p (lit 0 1)), [])

  -- What the loads draw, what is kept back for those that are offline, and the fallbacks.
  pub record Loads : Type 0 where
    pub loads_kw : F64
    pub offline_reserve : F64
    pub fallbacks : List Fallback

  abbrev pub is_contract : ConsumptionRule → Bool
  is_contract de_14a = false
  is_contract (contract min_kw minutes) = true

  unfoldable pub add_chargers : Bool → ℕ → List ChargerSpec → List ChargerReading → Loads → Loads
  add_chargers voluntary i [] readings l = l
  add_chargers voluntary i (spec ∷ specs) [] l = l
  add_chargers voluntary i (spec ∷ specs) (c ∷ readings) l =
      add_chargers voluntary (i + 1) specs readings (
        if c.online then record l { loads_kw = l.loads_kw ⊕ c.power_kw } else record l {
          offline_reserve =
              if voluntary && spec.opted_out
              then l.offline_reserve
              else l.offline_reserve ⊕ three_phase_kw spec.failsafe_current_a;
          fallbacks = l.fallbacks ++ (charger_offline i ∷ []);
        })

  unfoldable pub add_heat_pumps :
      Bool → ℕ → List HeatPumpSpec → List HeatPumpReading → Loads → Loads
  add_heat_pumps voluntary i [] readings l = l
  add_heat_pumps voluntary i (spec ∷ specs) [] l = l
  add_heat_pumps voluntary i (spec ∷ specs) (h ∷ readings) l =
      add_heat_pumps voluntary (i + 1) specs readings (
        if h.online then record l { loads_kw = l.loads_kw ⊕ h.power_kw } else record l {
          offline_reserve =
              if voluntary && spec.opted_out
              then l.offline_reserve
              else l.offline_reserve ⊕ spec.rated_kw;
          fallbacks = l.fallbacks ++ (heat_pump_offline i ∷ []);
        })

  -- `r.batteries.iter().enumerate().take(cfg.batteries.len())`
  unfoldable pub add_batteries :
      ℕ → List BatterySpec → List BatteryReading → F64 × List Fallback → F64 × List Fallback
  add_batteries i [] readings (kw, fallbacks) = (kw, fallbacks)
  add_batteries i (spec ∷ specs) [] (kw, fallbacks) = (kw, fallbacks)
  add_batteries i (spec ∷ specs) (b ∷ readings) (kw, fallbacks) =
      add_batteries (i + 1) specs readings (
        if b.online
        then (kw ⊕ b.power_kw, fallbacks)
        else (kw, fallbacks ++ (battery_offline i ∷ [])))

  abbrev pub base_load_of : Option F64 → Option F64 → F64 → F64 → Option F64
  base_load_of (some g) (some pv) loads_kw battery_kw = some (g ⊕ pv ⊖ loads_kw ⊖ battery_kw)
  base_load_of (some g) none loads_kw battery_kw = none
  base_load_of none pv loads_kw battery_kw = none

  abbrev pub pv_surplus_of : Option F64 → Option F64 → Option F64
  pv_surplus_of (some b) (some pv) = some (max (pv ⊖ b) (lit 0 1))
  pv_surplus_of (some b) none = none
  pv_surplus_of none pv = none

  -- The surpluses of the last `hold` seconds.
  unfoldable pub retain : F64 → F64 → List (F64 × F64) → List (F64 × F64)
  retain t_s hold [] = []
  retain t_s hold ((t, v) ∷ seen) =
      let rest = retain t_s hold seen in
      if (t ≼ t_s) && (t_s ⊖ t ≼ hold) then (t, v) ∷ rest else rest

  abbrev pub lowest : F64 → List (F64 × F64) → F64
  lowest s [] = s
  lowest s ((t, v) ∷ seen) = lowest (min s v) seen

  -- The surplus that counts, and what is remembered.
  unfoldable pub hold_surplus :
      F64 → F64 → Option F64 → List (F64 × F64) → Option F64 × List (F64 × F64)
  unfolding retain
  hold_surplus t_s hold none seen = (none, retain t_s hold seen)
  hold_surplus t_s hold (some s) seen =
      let seen' = retain t_s hold seen ++ ((t_s, s) ∷ []) in (some (lowest s seen'), seen')

  -- Whether the command to dim is applied, and the refusal where it is not.
  unfoldable pub decide_dim : ConsumptionRule → DsoCommands d → Totals → Bool × List Refusal
  decide_dim de_14a cmd totals = (cmd.dim, [])
  decide_dim (contract min_kw minutes) cmd totals =
      if cmd.dim
        && not cmd.emergency
        && (lit 0 1 ≺ minutes)
        && (minutes ⊗ lit 60 1 ≼ totals.dimmed_s_today)
      then (false, dim_day_limit_reached ∷ [])
      else (cmd.dim, [])

  -- The budget for the controllable loads.
  pub record Budget : Type 0 where
    pub mode : Mode
    pub budget : F64
    pub release : Option (F64 × F64)
    pub release_wait_s : Option F64
    pub rng : ℕ

  -- The release that is under way after a cycle without a dimming.
  unfoldable pub start_release : Controller → F64 → Option (F64 × F64) × ℕ
  unfolding random_unit
  start_release c t_s =
      let rng = xorshift c.rng in
      let start = t_s ⊕ c.cfg.release_delay_max_s ⊗ random_unit rng in
      if c.was_dimmed then (some (start, c.last_budget_kw), rng) else (c.release, c.rng)

  unfoldable pub released : SiteConfig → F64 → Option (F64 × F64) → ℕ → Budget
  released cfg t_s none rng = record {
    mode = normal;
    budget = d.infinity;
    release = none;
    release_wait_s = none;
    rng = rng;
  }
  released cfg t_s (some (t0, from)) rng =
      if t_s ≺ t0
      then record {
        mode = releasing;
        budget = from;
        release = some (t0, from);
        release_wait_s = some (t0 ⊖ t_s);
        rng = rng;
      }
      else if t_s ⊖ t0 ≺ cfg.release_ramp_s
      then record {
        mode = releasing;
        budget = from ⊕ (rated_loads_kw cfg ⊖ from) ⊗ (t_s ⊖ t0) ⊘ cfg.release_ramp_s;
        release = some (t0, from);
        release_wait_s = none;
        rng = rng;
      }
      else record {
        mode = normal;
        budget = d.infinity;
        release = none;
        release_wait_s = none;
        rng = rng;
      }

  abbrev pub or_zero : Option F64 → F64
  or_zero none = lit 0 1
  or_zero (some a) = a

  unfoldable pub plan_budget : Controller → F64 → Bool → F64 → Option F64 → Budget
  unfolding start_release released
  plan_budget c t_s dim floor_kw held_surplus =
      if dim
      then record {
        mode = dimmed;
        budget = floor_kw ⊕ or_zero held_surplus ⊖ c.cfg.margin_kw;
        release = none;
        release_wait_s = none;
        rng = c.rng;
      }
      else let (release, rng) = start_release c t_s in released c.cfg t_s release rng

  -- The feed-in limit after the rules of the country.
  pub record FeedIn : Type 0 where
    pub feed_in_pct : F64
    pub budget_used : Option F64
    pub refusals : List Refusal

  abbrev pub used_pct : SiteConfig → Totals → Option F64 → Option F64
  used_pct cfg totals none = none
  used_pct cfg totals (some pct) = some (
      totals.curtailed_kwh_year
      ⊘ (pct ⊘ lit 100 1 ⊗ max cfg.expected_annual_yield_kwh (lit 1 1))
      ⊗ lit 100 1)

  abbrev pub used_up : Option F64 → Bool
  used_up none = false
  used_up (some u) = lit 100 1 ≼ u

  abbrev pub cap_or_all : Option F64 → F64
  cap_or_all none = lit 100 1
  cap_or_all (some c) = c

  unfoldable pub limit_feed_in : SiteConfig → DsoCommands d → Totals → FeedIn
  limit_feed_in cfg cmd totals =
      let asked = clamp cmd.feed_in_limit_pct (lit 0 1) (lit 100 1) in
      let used = used_pct cfg totals cfg.policy.curtailment_budget_pct in
      let exhausted = (asked ≺ lit 100 1) && not cmd.emergency && used_up used in
      let granted =
        if exhausted && cfg.policy.enforce_curtailment_budget then lit 100 1 else asked in
      record {
        feed_in_pct = min granted (cap_or_all cfg.policy.static_feed_in_cap_pct);
        budget_used = used;
        refusals = if exhausted then curtailment_budget_exhausted ∷ [] else [];
      }

  -- The limit for the PV plant that the feed-in limit asks for.
  unfoldable pub target_pv_pct :
      SiteConfig → F64 → F64 → Option F64 → Option F64 → F64 → F64 → F64 → F64
  target_pv_pct cfg feed_in_pct allowed_export_kw (some g) (some pv) battery_kw charge discharge =
      if lit 100 1 ≼ feed_in_pct then lit 100 1 else elim cfg.feed_in_reference [
        | plant_output ↦ feed_in_pct
        | grid_connection_point ↦
            let consumption = max (pv ⊕ g ⊖ battery_kw ⊕ charge ⊖ discharge) (lit 0 1) in
            let pv_max = allowed_export_kw ⊕ consumption ⊖ cfg.margin_kw in
            clamp (pv_max ⊘ cfg.pv_installed_kw ⊗ lit 100 1) feed_in_pct (lit 100 1)
      ]
  target_pv_pct cfg feed_in_pct allowed_export_kw none pv battery_kw charge discharge =
      if lit 100 1 ≼ feed_in_pct then lit 100 1 else feed_in_pct
  target_pv_pct cfg feed_in_pct allowed_export_kw (some g) none battery_kw charge discharge =
      if lit 100 1 ≼ feed_in_pct then lit 100 1 else feed_in_pct

  -- Down at once, up gently.
  unfoldable pub ramp_pv : Controller → F64 → F64 → F64
  ramp_pv c dt target_pct =
      if c.last_pv_pct ≺ target_pct
      then min (c.last_pv_pct ⊕ c.cfg.pv_ramp_pct_per_s ⊗ dt) target_pct
      else target_pct
