-- ===== src/Tests/Control.antt =====
-- A control centre that selects, executes and interrogates, with whole numbers as the doubles.
use grid_edge_gateway.Prelude.{
  ℕ, ◌+◌, ◌-◌, ◌≤◌, ◌<◌, ◌≡◌, refl, [], true, false, none, some, arith, leb,
}
use grid_edge_gateway.Prelude.Int.{pos}
use grid_edge_gateway.Iec104.Element.{activation, activation_con, single_command, interrogation}
use grid_edge_gateway.Iec104.Asdu.{Asdu, single}
use grid_edge_gateway.Tests.Numbers.{whole_numbers}
use grid_edge_gateway.Gateway.Points.{DsoCommands, Snapshot}
use grid_edge_gateway.Gateway.Dso.{
  Station, Served, command, on_element, lookup, executed, refused, remove, handle, interrogate,
  spontaneous_reports,
}
use grid_edge_gateway.Gateway.Dso.Commands.{Obeys, handle-Obeys, command-after-select}
use grid_edge_gateway.Gateway.Dso.Reports.{spontaneous_reports-interrogate}

abbrev station : Station whole_numbers
station = record { common_address = 1; deadband_kw = 2 }

abbrev no_demands : DsoCommands whole_numbers
no_demands = record { dim = false; feed_in_limit_pct = 100; emergency = false; limit_kw = none }

abbrev served : Served whole_numbers
served = record { commands = no_demands; selected = []; reported_f = []; reported_b = [] }

abbrev snapshot : Snapshot whole_numbers
snapshot = record {
  time_ms = pos 1767225599999;
  dso_feed_in_limit_pct = 100;
  dso_emergency = false;
  mode = "normal";
  grid_kw = some 7;
  pv_kw = none;
  steuve_kw = 4;
  steuve_grid_kw = some 2;
  floor_kw = 4;
  feed_in_limit_in_force_pct = 100;
  pv_limit_pct = 100;
  batteries = [];
  dimmed_min_today = 0;
  curtailed_kwh_year = 0;
  curtailment_budget_used_pct = none;
  refusals = [];
  fallbacks = [];
}

abbrev choose : Asdu
choose = single activation 1 5001 (single_command true true 0)

abbrev execute : Asdu
execute = single activation 1 5001 (single_command true false 0)

handle-Obeys_example :
    Obeys whole_numbers station execute 900 served
      (handle whole_numbers station snapshot 900 (pos 1767225599999) execute served).1.commands
handle-Obeys_example =
    handle-Obeys whole_numbers station snapshot 900 (pos 1767225599999) execute served

obeyed :
    (handle whole_numbers station snapshot 900 (pos 1767225599999) execute served).1.commands.dim
    ≡ true
unfolding handle single on_element command lookup
obeyed = refl

command-after-select_example :
    let s' = (command whole_numbers choose 5001 true 900 (λ c. c) served).1 in
    let cleared = record s' { selected = remove 5001 s'.selected } in
    (11899 < 900 + 11000
      → command whole_numbers execute 5001 false 11899 (λ c. record c { dim = true }) s'
        ≡ (executed execute, record cleared { commands = record no_demands { dim = true } }))
    × (900 + 11000 ≤ 11899
        → command whole_numbers execute 5001 false 11899 (λ c. record c { dim = true }) s'
          ≡ (refused execute activation_con, cleared))
unfolding single
command-after-select_example =
    command-after-select whole_numbers choose execute 5001 900 11899 (λ c. c)
      (λ c. record c { dim = true }) served refl refl (omega arith)

abbrev ask : Asdu
ask = single activation 1 0 (interrogation 20)

still_kw : (x : ℕ) → leb 2 (x - x) ≡ false
still_kw x = ground arith

still_unit : (x : ℕ) → leb 1 (x - x) ≡ false
still_unit x = ground arith

spontaneous_reports-interrogate_example :
    let s' = (interrogate whole_numbers station snapshot ask served).1 in
    spontaneous_reports whole_numbers station snapshot s' ≡ ([], s')
unfolding single
spontaneous_reports-interrogate_example =
    spontaneous_reports-interrogate whole_numbers station snapshot ask served still_kw still_unit
      refl
