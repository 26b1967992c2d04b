-- ===== src/Control/Accounting.antt =====
-- `crates/control/src/accounting.rs`: running totals of a day and of a year.
use grid_edge_gateway.Prelude.{Option, none, some, Bool, if◌then◌else◌}
use grid_edge_gateway.Prelude.Int.{ℤ, ◌==ℤ◌}
use grid_edge_gateway.Prelude.Doubles.{Doubles, F64, lit, ◌⊕◌, ◌⊖◌, ◌⊗◌, ◌⊘◌, max, clamp}

module _ ⦃d : Doubles⦄ where
  pub record Clock : Type 0 where
    pub t_s : F64
    pub day : ℤ
    pub year : ℤ

  pub record Totals : Type 0 where
    pub day : ℤ
    pub year : ℤ
    pub dimmed_s_today : F64
    pub produced_kwh_year : F64
    pub curtailed_kwh_year : F64

  abbrev pub max_step_s : F64
  max_step_s = lit 10 1

  pub record Accounting : Type 0 where
    pub totals : Totals
    pub last_t : Option F64

  unfoldable pub restore : Totals → Accounting
  restore totals = record { totals = totals; last_t = none }

  unfoldable pub roll_year : Totals → Clock → Totals
  roll_year t clock =
      if t.year ==ℤ clock.year
      then t
      else record t { year = clock.year; produced_kwh_year = lit 0 1; curtailed_kwh_year = lit 0 1 }

  unfoldable pub roll_day : Totals → Clock → Totals
  roll_day t clock =
      if t.day ==ℤ clock.day then t else record t { day = clock.day; dimmed_s_today = lit 0 1 }

  unfoldable pub roll : Accounting → Clock → Accounting
  unfolding roll_year roll_day
  roll a clock = record a { totals = roll_day (roll_year a.totals clock) clock }

  -- The time since the last cycle, at most `max_step_s`.
  abbrev pub step_s : Option F64 → F64 → F64
  step_s none t_s = lit 0 1
  step_s (some last) t_s = clamp (t_s ⊖ last) (lit 0 1) max_step_s

  abbrev pub or_zero : Option F64 → F64
  or_zero none = lit 0 1
  or_zero (some a) = a

  unfoldable pub advance : Accounting → Clock → Bool → Option F64 → F64 → Accounting
  unfolding roll
  advance a clock dimmed pv_kw curtailed_kw =
      let t = (roll a clock).totals in
      let dt = step_s a.last_t clock.t_s in
      record {
        totals = record t {
          dimmed_s_today = if dimmed then t.dimmed_s_today ⊕ dt else t.dimmed_s_today;
          produced_kwh_year = t.produced_kwh_year ⊕ max (or_zero pv_kw) (lit 0 1) ⊗ dt ⊘ lit 3600 1;
          curtailed_kwh_year = t.curtailed_kwh_year ⊕ max curtailed_kw (lit 0 1) ⊗ dt ⊘ lit 3600 1;
        };
        last_t = some clock.t_s;
      }
