-- ===== src/Tests/Site.antt =====
-- A depot with a charger, a heat pump, a battery and two inverters, with whole numbers as the doubles.
use grid_edge_gateway.Prelude.{
  ℕ, ◌+◌, ◌%◌, ◌/◌, ◌≡◌, ◌↔◌, refl, inr, [], ◌∷◌, ◌++◌, true, false, none, some, arith, List,
  length,
}
use grid_edge_gateway.Prelude.Int.{pos, pos_part, ◌+ℤ◌, ◌*ℤ◌, div_euclid, ◌-ℤ◌, rem_euclid}
use grid_edge_gateway.Iec104.Time.{civil_from_days, year_of_era, day_of_year}
use grid_edge_gateway.Prelude.Text.{codes}
use grid_edge_gateway.Prelude.Doubles.{Doubles, ◌≼◌, ◌⊕◌}
use grid_edge_gateway.Tests.Numbers.{whole_numbers, whole_numbers-IsIeee}
use grid_edge_gateway.Control.Policy.{for_country, de}
use grid_edge_gateway.Control.Accounting.{Clock, roll}
use grid_edge_gateway.Control.Report.{
  iso8601_utc, Printing, DimmingReport, followed, to_csv, verify_csv,
}
use grid_edge_gateway.Control.Report.Csv.{verify_csv-to_csv}
use grid_edge_gateway.Control.Compliance.{Open, Recorder, new_recorder, close}
use grid_edge_gateway.Control.Compliance.Chain.{IsChained}
use grid_edge_gateway.Control.Compliance.Verdicts.{AllWithin, AreNumbers, close-followed}
use grid_edge_gateway.Control.Site.{plant_output, SiteConfig, Readings, dimmed}
use grid_edge_gateway.Control.Controller.{
  Controller, new, with_report_chain, legal_floor_kw, repeat,
}
use grid_edge_gateway.Control.Step.{step}
use grid_edge_gateway.Control.Step.Modes.{IsRefused, step-mode}
use grid_edge_gateway.Control.Step.Limits.{AllBelow, step-feed_in}
use grid_edge_gateway.Control.Step.History.{
  Event, cycle, reports_taken, run, IsFloor, run-IsChained, run-IsFloor,
}
use grid_edge_gateway.Gateway.Points.{DsoCommands}
use grid_edge_gateway.Gateway.Reports.{resume, write, file_name, valid_name, parse_u32, File}
use grid_edge_gateway.Gateway.Reports.Resume.{IsPadding, resume-write}

instance abbrev doubles : Doubles
doubles = whole_numbers

abbrev four_digits : ℕ → List ℕ
four_digits n = (48 + n / 1000 % 10) ∷ (48 + n / 100 % 10) ∷ (48 + n / 10 % 10) ∷ (48 + n % 10) ∷ []

-- A digest of 32 bytes, and numbers printed with four digits or with one.
abbrev printing : Printing doubles
printing = record {
  sha256 = λ text. repeat 32 (length text % 256);
  fixed = λ decimals n. (48 + n % 10) ∷ [];
  decimal = λ n. (48 + n % 10) ∷ [];
  padded = λ digits n. four_digits (pos_part n);
}

abbrev depot : SiteConfig
depot = record {
  policy = for_country de;
  pv_installed_kw = 100;
  connection_kw = 200;
  expected_annual_yield_kwh = 90000;
  chargers = record { max_current_a = 32; failsafe_current_a = 6; opted_out = false } ∷ [];
  heat_pumps = record { rated_kw = 14; min_kw = 3; opted_out = false } ∷ [];
  batteries =
      record {
        capacity_kwh = 50;
        max_charge_kw = 20;
        max_discharge_kw = 20;
        min_soc_pct = 10;
        max_soc_pct = 90;
      }
      ∷ [];
  feed_in_reference = plant_output;
  release_ramp_s = 60;
  release_delay_max_s = 0;
  release_delay_seed = 1;
  pv_follow_timeout_s = 30;
  compliance_grace_s = 60;
  site_id = codes "depot";
  pv_ramp_pct_per_s = 1;
  margin_kw = 1;
  min_dwell_s = 300;
  deadline_guard_s = 900;
  surplus_hold_s = 10;
  import_target_kw = 0;
}

abbrev readings : Readings
readings = record {
  grid_kw = some 30;
  pv_kw = some 80;
  pv_available_kw = none;
  inverters =
      record { online = true; kw = 60; rated_kw = 60 }
      ∷ record { online = true; kw = 20; rated_kw = 40 }
      ∷ [];
  chargers =
      record {
        online = true;
        car_waiting = true;
        current_a = 16;
        power_kw = 11;
        session_kwh = 4;
        remaining_kwh = some 20;
        departure_s = some 7200;
        car_max_current_a = none;
      }
      ∷ [];
  heat_pumps =
      record { online = true; power_kw = 9; demand_kw = 12; indoor_c = none; outdoor_c = none }
      ∷ [];
  batteries = record { online = true; soc_pct = 50; power_kw = 0 } ∷ [];
}

abbrev limited : DsoCommands doubles
limited = record { dim = true; feed_in_limit_pct = 60; emergency = false; limit_kw = some 12 }

abbrev at : ℕ → Clock
at t_s = record { t_s = t_s; day = pos 20000; year = pos 2026 }

-- Two cycles of a dimming, a cycle after it, and the reports taken.
abbrev day_of_events : List Event
day_of_events =
    cycle (at 100) limited readings
    ∷ cycle (at 170) limited readings
    ∷ cycle (at 180) (record limited { dim = false }) readings
    ∷ reports_taken
    ∷ []

abbrev running : Controller
running = (run printing day_of_events ([], new depot)).1

step-mode_example : ((step printing (new depot) (at 100) limited readings).0.1.mode ≡ dimmed) ↔ (
    (limited.dim ≡ true)
    × ¬ IsRefused depot.policy.consumption limited (roll (new depot).accounting (at 100)).totals)
unfolding new for_country
step-mode_example = step-mode printing (new depot) (at 100) limited readings

step-feed_in_example :
    let sp = (step printing (new depot) (at 100) limited readings).0.0 in
    ((sp.pv_limit_pct ≼ 60) ≡ true)
    × ((sp.pv_limit_pct ≼ 100) ≡ true)
    × AllBelow whole_numbers-IsIeee sp.pv_limit_pct sp.inverter_limit_pct
unfolding new for_country
step-feed_in_example =
    step-feed_in whole_numbers-IsIeee printing (new depot) (at 100) limited readings refl refl refl
      refl (inr refl)

run-IsFloor_example :
    IsFloor printing
      (legal_floor_kw depot depot.policy.consumption)
      limited
      (step printing running (at 200) limited readings).0.1.floor_kw
run-IsFloor_example =
    run-IsFloor printing whole_numbers-IsIeee depot day_of_events (at 200) limited readings
      (ground arith)

run-IsChained_example :
    let s = run printing day_of_events ([], with_report_chain (new depot) 7 (codes "ab")) in
    IsChained printing 7 (codes "ab") (s.0 ++ s.1.compliance.finished) s.1.compliance
run-IsChained_example = run-IsChained printing depot 7 (codes "ab") day_of_events

abbrev event : Open
event = record {
  start_s = 100;
  floor_kw = 12;
  emergency = false;
  samples =
      record { t_s = 100; steuve_grid_kw = some 40; budget_kw = some 12 }
      ∷ record { t_s = 170; steuve_grid_kw = some 11; budget_kw = some 12 }
      ∷ [];
  dropped = 0;
  last_kept_s = 170;
}

abbrev recorder : Recorder
recorder = new_recorder (codes "depot") 60 (pos 0)

close-followed_example : ((close printing recorder event 180).0.verdict ≡ followed) ↔ (
    AllWithin event.floor_kw (event.start_s ⊕ recorder.grace_s) 180 event.samples
    × (event.dropped ≡ 0))
unfolding new_recorder AreNumbers
close-followed_example =
    close-followed printing whole_numbers-IsIeee recorder event 180
      (ground arith, (ground arith, tt))

abbrev report : DimmingReport
report = (close printing recorder event 180).0

verify_csv-to_csv_example : verify_csv printing (to_csv printing report) ≡ true
unfolding close
verify_csv-to_csv_example = verify_csv-to_csv printing report (λ written. refl) refl

four_digits-read : IsPadding printing
unfolding parse_u32
four_digits-read n h = (refl, ground arith)

-- The report of the day before.
abbrev disk : List File
disk = record { name = codes "dimming-0000-x.csv"; text = [] } ∷ []

resume-write_example : resume (write printing disk report) ≡ (report.seq, report.sha256)
unfolding close file_name valid_name new_recorder iso8601_utc civil_from_days year_of_era
    day_of_year ◌+ℤ◌ ◌*ℤ◌ div_euclid ◌-ℤ◌ rem_euclid
resume-write_example =
    resume-write printing disk report four_digits-read (λ written. refl) refl (omega arith) refl
      (refl, tt)
