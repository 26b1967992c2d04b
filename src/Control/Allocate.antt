-- ===== src/Control/Allocate.antt =====
-- `Controller::allocate` of `crates/control/src/controller.rs`: the budget is split between heat pumps
-- and chargers. A device stands with its reading, its plan and its memory in one record.
use grid_edge_gateway.Prelude.{
  ℕ, zero, suc, ◌+◌, List, [], ◌∷◌, Option, none, some, Bool, true, false, not, ◌&&◌, ◌||◌,
  if◌then◌else◌, length, take, map, ◌==◌, leb, ltb,
}
use grid_edge_gateway.Prelude.Doubles.{
  Doubles, F64, lit, ◌⊕◌, ◌⊖◌, ◌⊗◌, ◌⊘◌, ◌≼◌, ◌≺◌, is_infinite, max, min, clamp,
}
use grid_edge_gateway.Control.Rules.{ev_min_current_a, three_phase_kw, three_phase_current_a}
use grid_edge_gateway.Control.Site.{
  ChargerSpec, HeatPumpSpec, SiteConfig, ChargerReading, HeatPumpReading,
}

module _ ⦃d : Doubles⦄ where
  -- Charger number `number`: `exempt` where its owner opted out of a contract.
  pub record Bay : Type 0 where
    pub number : ℕ
    pub spec : ChargerSpec
    pub reading : Option ChargerReading
    pub planned_kw : Option F64
    pub is_on : Bool
    pub switched_at : F64
    pub exempt : Bool

  pub record Pump : Type 0 where
    pub spec : HeatPumpSpec
    pub reading : Option HeatPumpReading
    pub planned_kw : Option F64
    pub exempt : Bool

  abbrev or_infinite : Option F64 → F64
  or_infinite none = d.infinity
  or_infinite (some a) = a

  abbrev slack : Option F64 → Option F64 → F64 → F64
  slack (some dep) (some rem) max_a =
      if lit 0 1 ≺ max_a then dep ⊖ rem ⊘ three_phase_kw max_a ⊗ lit 3600 1 else d.infinity
  slack (some dep) none max_a = d.infinity
  slack none rem max_a = d.infinity

  -- The slack before departure. The source indexes the readings by a charger that has a plan, and
  -- would panic without a reading; `collect` gives one for every charger of the site.
  unfoldable pub laxity : Bay → F64
  laxity b = elim b.reading [
    | none ↦ d.infinity
    | some c ↦
        slack c.departure_s c.remaining_kwh
          (min (or_infinite c.car_max_current_a) b.spec.max_current_a)
  ]

  abbrev pub min_kw : F64
  min_kw = three_phase_kw ev_min_current_a

  abbrev pub as_current : F64 → F64 → F64
  as_current kw max_a =
      if kw ≺ min_kw ⊘ lit 2 1
      then lit 0 1
      else clamp (d.round (three_phase_current_a kw)) ev_min_current_a max_a

  -- The plan for a charger as a cap of its current; none for a car about to miss its departure.
  unfoldable pub planned_a : SiteConfig → Bay → Option F64
  unfolding laxity
  planned_a cfg b = elim b.planned_kw [
    | none ↦ none
    | some kw ↦
        if laxity b ≼ cfg.deadline_guard_s then none else some (as_current kw b.spec.max_current_a)
  ]

  unfoldable pub cap_a : SiteConfig → Bay → F64
  unfolding planned_a
  cap_a cfg b = elim (planned_a cfg b) [ none ↦ b.spec.max_current_a | some a ↦ a ]

  abbrev wants_charge : Option ChargerReading → Bool
  wants_charge none = false
  wants_charge (some c) = c.online && c.car_waiting

  unfoldable pub is_waiting : SiteConfig → Bay → Bool
  unfolding cap_a
  is_waiting cfg b = wants_charge b.reading && (lit 0 1 ≺ cap_a cfg b)

  abbrev pub filter {ℓ} : {A : Type ℓ} → (A → Bool) → List A → List A
  filter keep [] = []
  filter keep (x ∷ xs) = let rest = filter keep xs in if keep x then x ∷ rest else rest

  abbrev unwrap_or : Option F64 → F64 → F64
  unwrap_or none b = b
  unwrap_or (some a) b = a

  unfoldable pub demand : Pump → F64
  demand h = elim h.reading [
    | none ↦ lit 0 1
    | some r ↦
        if r.online then min (unwrap_or h.planned_kw r.demand_kw) h.spec.rated_kw else lit 0 1
  ]

  -- What the devices that are exempt leave of the budget.
  unfoldable pub less_pumps : List Pump → F64 → F64
  unfolding demand
  less_pumps [] left = left
  less_pumps (h ∷ pumps) left = less_pumps pumps (if h.exempt then left ⊖ demand h else left)

  abbrev power_of : Option ChargerReading → F64
  power_of none = lit 0 1
  power_of (some c) = c.power_kw

  unfoldable pub less_chargers : List Bay → F64 → F64
  less_chargers [] left = left
  less_chargers (b ∷ waiting) left =
      less_chargers waiting (if b.exempt then left ⊖ power_of b.reading else left)

  -- Step 1: each heat pump gets up to 40 % of its rating. The gifts, and what is left.
  unfoldable pub guarantee : List Pump → F64 → List F64 × F64
  unfolding demand
  guarantee [] left = ([], left)
  guarantee (h ∷ pumps) left =
      let g = min (min (demand h) (lit 4 10 ⊗ h.spec.rated_kw)) left in
      let give = if h.exempt then h.spec.rated_kw else if g ≺ h.spec.min_kw then lit 0 1 else g in
      let (gives, left') = guarantee pumps (if h.exempt then left else left ⊖ give) in
      (give ∷ gives, left')

  -- Cars within their dwell time keep their state first.
  abbrev rank_of : Bool → Bool → ℕ
  rank_of true true = 0
  rank_of false on = 1
  rank_of true false = 2

  unfoldable pub rank : SiteConfig → F64 → Bay → ℕ
  rank cfg t_s b = rank_of (t_s ⊖ b.switched_at ≺ cfg.min_dwell_s) b.is_on

  abbrev session_of : Option ChargerReading → F64
  session_of none = lit 0 1
  session_of (some c) = c.session_kwh

  -- `ra.cmp(&rb).then(la.total_cmp(&lb)).then(ea.total_cmp(&eb))` is not Greater.
  unfoldable pub comes_first : SiteConfig → F64 → Bay → Bay → Bool
  unfolding rank laxity
  comes_first cfg t_s a b =
      if not (rank cfg t_s a == rank cfg t_s b)
      then ltb (rank cfg t_s a) (rank cfg t_s b)
      else if not (d.total_le (laxity b) (laxity a))
      then true
      else if not (d.total_le (laxity a) (laxity b))
      then false
      else d.total_le (session_of a.reading) (session_of b.reading)

  -- `sort_by` is stable: so is insertion before the first that does not come first.
  unfoldable pub insert_by : (Bay → Bay → Bool) → Bay → List Bay → List Bay
  insert_by first b [] = b ∷ []
  insert_by first b (x ∷ xs) =
      let rest = insert_by first b xs in if first b x then b ∷ (x ∷ xs) else x ∷ rest

  unfoldable pub sort_by : (Bay → Bay → Bool) → List Bay → List Bay
  unfolding insert_by
  sort_by first [] = []
  sort_by first (b ∷ bays) = insert_by first b (sort_by first bays)

  -- Step 2: as many of the cars in order as the budget has room for, at 6 A each.
  abbrev at_most : ℕ → ℕ → ℕ
  at_most n k = if leb n k then n else k

  unfoldable pub active_bays : F64 → List Bay → List Bay
  active_bays left order = take (at_most (d.to_nat (d.floor (left ⊘ min_kw))) (length order)) order

  abbrev pub spend_each : List Bay → F64 → F64
  spend_each [] left = left
  spend_each (b ∷ active) left = spend_each active (left ⊖ min_kw)

  -- Step 3a: top up the heat pumps to their demand.
  unfoldable pub top_up : List Pump → List F64 → F64 → List F64 × F64
  unfolding demand
  top_up [] gives left = (gives, left)
  top_up (h ∷ pumps) [] left = ([], left)
  top_up (h ∷ pumps) (give ∷ gives) left =
      let extra = min (max (demand h ⊖ give) (lit 0 1)) left in
      let more = not h.exempt && (h.spec.min_kw ≼ give ⊕ extra) in
      let (rest, left') = top_up pumps gives (if more then left ⊖ extra else left) in
      ((if more then give ⊕ extra else give) ∷ rest, left')

  -- Step 3b: an active charger, its current so far, and whether it may get more.
  pub record Fill : Type 0 where
    pub number : ℕ
    pub cap : F64
    pub current : F64
    pub is_open : Bool

  unfoldable pub count_open : List Fill → ℕ
  count_open [] = 0
  count_open (f ∷ fills) = if f.is_open then suc (count_open fills) else count_open fills

  -- One charger of a round, and what is spare after it.
  unfoldable pub pour : F64 → Fill → F64 → Fill × F64
  pour portion f spare_a =
      let room = d.floor (f.cap ⊖ f.current) in
      let add = min (min portion room) (d.floor spare_a) in
      if f.is_open
      then (record f { current = f.current ⊕ add; is_open = lit 1 1 ≼ room ⊖ add }, spare_a ⊖ add)
      else (f, spare_a)

  unfoldable pub round : F64 → List Fill → F64 → List Fill × F64
  unfolding pour
  round portion [] spare_a = ([], spare_a)
  round portion (f ∷ fills) spare_a =
      let (f', spare') = pour portion f spare_a in
      let (rest, spare'') = round portion fills spare' in (f' ∷ rest, spare'')

  unfoldable pub goes_on : List Fill → F64 → Bool
  unfolding count_open
  goes_on fills spare_a = (lit 1 1 ≼ spare_a) && not (count_open fills == 0)

  unfoldable pub fill_rounds : ℕ → List Fill → F64 → List Fill
  unfolding round
  fill_rounds zero fills spare_a = fills
  fill_rounds (suc fuel) fills spare_a = elim (goes_on fills spare_a) [
    | false ↦ fills
    | true ↦
        let portion = max (d.floor (spare_a ⊘ d.of_nat (count_open fills))) (lit 1 1) in
        let (fills', spare') = round portion fills spare_a in fill_rounds fuel fills' spare'
  ]

  abbrev opened : SiteConfig → Bay → Fill
  opened cfg b = record {
    number = b.number;
    cap = cap_a cfg b;
    current = ev_min_current_a;
    is_open = true;
  }

  -- Every round closes a charger or spends at least one ampere that was spare.
  unfoldable pub water_fill : SiteConfig → List Bay → F64 → List Fill
  water_fill cfg active spare_a =
      fill_rounds (suc (length active + d.to_nat spare_a)) (map (λ b. opened cfg b) active) spare_a

  abbrev pub current_of : ℕ → List Fill → F64
  current_of number [] = lit 0 1
  current_of number (f ∷ fills) = if f.number == number then f.current else current_of number fills

  abbrev pub is_among : ℕ → List Bay → Bool
  is_among number [] = false
  is_among number (b ∷ bays) = (b.number == number) || is_among number bays

  -- The currents, the limits of the heat pumps, and which chargers are on.
  pub record Allocation : Type 0 where
    pub currents : List F64
    pub pumps_kw : List F64
    pub on : List Bool

  abbrev limit_of : SiteConfig → List Fill → Bay → F64
  limit_of cfg fills b = if b.exempt then cap_a cfg b else current_of b.number fills

  unfoldable pub allocate_finite : SiteConfig → F64 → F64 → List Bay → List Pump → Allocation
  unfolding less_pumps less_chargers guarantee comes_first sort_by active_bays top_up water_fill
      is_waiting
  allocate_finite cfg t_s budget_kw bays pumps =
      let waiting = filter (λ b. is_waiting cfg b) bays in
      let free =
        max (less_chargers waiting (less_pumps pumps (max budget_kw (lit 0 1)))) (lit 0 1) in
      let (gives, left1) = guarantee pumps free in
      let order = sort_by (comes_first cfg t_s) (filter (λ (b : Bay). not b.exempt) waiting) in
      let active = active_bays left1 order in
      let (pumps_kw, left3) = top_up pumps gives (spend_each active left1) in
      let fills = water_fill cfg active (three_phase_current_a (max left3 (lit 0 1))) in
      let currents = map (λ b. limit_of cfg fills b) bays in
      record {
        currents = currents;
        pumps_kw = pumps_kw;
        on = map (λ b. (lit 0 1 ≺ limit_of cfg fills b) && is_among b.number waiting) bays;
      }

  unfoldable pub allocate : SiteConfig → F64 → F64 → List Bay → List Pump → Allocation
  unfolding allocate_finite is_waiting cap_a
  allocate cfg t_s budget_kw bays pumps =
      if is_infinite budget_kw
      then record {
        currents = map (λ b. cap_a cfg b) bays;
        pumps_kw = map (λ (h : Pump). h.spec.rated_kw) pumps;
        on = map (λ b. is_waiting cfg b) bays;
      }
      else allocate_finite cfg t_s budget_kw bays pumps
