-- ===== src/Control/Battery.antt =====
-- `Controller::plan_batteries` of `crates/control/src/controller.rs`.
use grid_edge_gateway.Prelude.{
  List, [], ◌∷◌, Option, none, some, Bool, true, false, not, ◌&&◌, ◌||◌, if◌then◌else◌,
}
use grid_edge_gateway.Prelude.Doubles.{
  Doubles, F64, lit, ◌⊕◌, ◌⊖◌, ◌⊗◌, ◌⊘◌, ◌≺◌, neg, max, min, clamp,
}
use grid_edge_gateway.Control.Site.{SiteConfig, BatterySpec, BatteryReading, Readings, Guidance}

module _ ⦃d : Doubles⦄ where
  -- What `step` has found out when it plans the batteries.
  pub record Balance : Type 0 where
    pub grid_kw : Option F64
    pub battery_now_kw : F64
    pub constrained : Bool
    pub floor_kw : F64
    pub base_load : Option F64
    pub pv_kw : Option F64
    pub loads_kw : F64
    pub allowed_export_kw : Option F64

  abbrev pub or_else : Option F64 → Option F64 → Option F64
  or_else (some a) b = some a
  or_else none b = b

  abbrev pub is_some : Option F64 → Bool
  is_some (some a) = true
  is_some none = false

  -- `base_load.zip(r.pv_available_kw).map(|(b, av)| b + loads_kw - av)`
  abbrev pub unconstrained_of : Option F64 → Option F64 → F64 → Option F64
  unconstrained_of (some b) (some av) loads_kw = some (b ⊕ loads_kw ⊖ av)
  unconstrained_of (some b) none loads_kw = none
  unconstrained_of none av loads_kw = none

  abbrev pub surplus_of : Option F64 → Option F64 → F64 → F64
  surplus_of (some b) (some pv) loads_kw = max (pv ⊖ b ⊖ loads_kw) (lit 0 1)
  surplus_of (some b) none loads_kw = lit 0 1
  surplus_of none pv loads_kw = lit 0 1

  abbrev pub base_minus_pv : Option F64 → Option F64 → F64
  base_minus_pv (some b) (some pv) = b ⊖ pv
  base_minus_pv (some b) none = lit 0 1
  base_minus_pv none pv = lit 0 1

  -- Store what the limit would otherwise curtail.
  abbrev pub store_curtailed : F64 → Option F64 → Option F64 → F64
  store_curtailed w (some unc) (some ax) = max w (neg unc ⊖ ax)
  store_curtailed w (some unc) none = w
  store_curtailed w none ax = w

  -- The power that the plan wants from the batteries together, with a target of the guidance.
  unfoldable pub want_guided : F64 → Balance → Readings → F64 → F64
  want_guided target b r grid_idle =
      let unc = unconstrained_of b.base_load r.pv_available_kw b.loads_kw in
      let w = store_curtailed (target ⊖ grid_idle) unc b.allowed_export_kw in
      let w' = if is_some b.allowed_export_kw && not (is_some unc) then max w (lit 0 1) else w in
      if b.constrained
      then min w' (surplus_of b.base_load (or_else r.pv_available_kw b.pv_kw) b.loads_kw)
      else w'

  -- While consumption is dimmed: cover the site's import, and never charge.
  unfoldable pub want_constrained : Balance → Readings → F64
  want_constrained b r =
      neg
        (max (base_minus_pv b.base_load (or_else r.pv_available_kw b.pv_kw) ⊕ b.floor_kw) (lit 0 1))

  abbrev pub unwrap_or : Option F64 → F64 → F64
  unwrap_or (some a) b = a
  unwrap_or none b = b

  -- Self-consumption.
  unfoldable pub want_free : SiteConfig → Balance → Readings → F64 → F64
  want_free cfg b r grid_idle =
      let unc = unconstrained_of b.base_load r.pv_available_kw b.loads_kw in
      let net = unwrap_or unc grid_idle in
      if net ≺ lit 0 1
      then neg net
      else if is_some b.allowed_export_kw && not (is_some unc)
      then lit 0 1
      else neg (max (net ⊖ cfg.import_target_kw) (lit 0 1))

  -- The target of the guidance, where it has one, and whether it expected a dimming.
  abbrev pub guided : Option Guidance → Option (F64 × Bool)
  guided none = none
  guided (some g) = elim g.grid_kw [ none ↦ none | some target ↦ some (target, g.dim_expected) ]

  unfoldable pub want_unguided : SiteConfig → Balance → Readings → F64 → F64
  unfolding want_constrained want_free
  want_unguided cfg b r grid_idle =
      if b.constrained then want_constrained b r else want_free cfg b r grid_idle

  unfoldable pub want : SiteConfig → Option Guidance → Balance → Readings → F64 → F64
  unfolding want_guided want_unguided
  want cfg g b r grid_idle = elim (guided g) [
    | none ↦ want_unguided cfg b r grid_idle
    | some (target, expected) ↦
        if not b.constrained || expected
        then want_guided target b r grid_idle
        else want_unguided cfg b r grid_idle
  ]

  -- The bounds of a battery's power, tapered near the ends of its window.
  unfoldable pub max_charge : BatterySpec → BatteryReading → F64
  max_charge spec b =
      let room_kwh = max (spec.max_soc_pct ⊖ b.soc_pct) (lit 0 1) ⊘ lit 100 1 ⊗ spec.capacity_kwh in
      min spec.max_charge_kw (room_kwh ⊗ lit 4 1)

  unfoldable pub max_discharge : BatterySpec → BatteryReading → F64
  max_discharge spec b =
      let avail_kwh =
        max (b.soc_pct ⊖ spec.min_soc_pct) (lit 0 1) ⊘ lit 100 1 ⊗ spec.capacity_kwh in
      min spec.max_discharge_kw (avail_kwh ⊗ lit 4 1)

  -- The batteries one after the other: each takes what it can of the power that is left.
  unfoldable pub share : List BatterySpec → List BatteryReading → F64 → List F64
  share [] readings left = []
  share (spec ∷ specs) [] left = lit 0 1 ∷ share specs [] left
  share (spec ∷ specs) (b ∷ readings) left =
      let p = clamp left (neg (max_discharge spec b)) (max_charge spec b) in
      let rest = share specs readings (if b.online then left ⊖ p else left) in
      (if b.online then p else lit 0 1) ∷ rest

  abbrev idle : List BatterySpec → List F64
  idle [] = []
  idle (spec ∷ specs) = lit 0 1 ∷ idle specs

  unfoldable pub plan_batteries : SiteConfig → Option Guidance → Balance → Readings → List F64
  unfolding want share
  plan_batteries cfg g b r = elim b.grid_kw [
    | none ↦ idle cfg.batteries
    | some grid ↦ share cfg.batteries r.batteries (want cfg g b r (grid ⊖ b.battery_now_kw))
  ]
