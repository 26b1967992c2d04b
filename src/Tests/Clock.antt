-- ===== src/Tests/Clock.antt =====
-- The clock change of March 2026 in Central Europe.
use grid_edge_gateway.Prelude.{◌≡◌, refl, arith}
use grid_edge_gateway.Prelude.Int.{pos, ◌+ℤ◌, ◌≤ℤ◌}
use grid_edge_gateway.Prelude.Int
use grid_edge_gateway.Planning.LocalTime.{
  as_i32, civil_from_days, days_from_civil, last_sunday, cet_offset_s,
}
use grid_edge_gateway.Planning.LocalTime.Sundays.{civil_from_days-eq, last_sunday_lem}
use grid_edge_gateway.Iec104.Time

year_of_20541 : (Time.civil_from_days (pos 20541)).0 ≡ pos 2026
unfolding Time.civil_from_days Int.◌+ℤ◌ Int.◌*ℤ◌ Int.div_euclid Int.rem_euclid
year_of_20541 = refl

civil_from_days-eq_example :
    ((
      (civil_from_days (pos 20541)).year,
      (civil_from_days (pos 20541)).month,
      (civil_from_days (pos 20541)).day,
    )
      ≡ Time.civil_from_days (pos 20541))
    × (days_from_civil
          (civil_from_days (pos 20541)).year
          (civil_from_days (pos 20541)).month
          (civil_from_days (pos 20541)).day
        ≡ pos 20541)
civil_from_days-eq_example =
    civil_from_days-eq (pos 20541) (rw year_of_20541 (omega arith, omega arith))

last_sunday_lem_example :
    ((civil_from_days (last_sunday (pos 2026) 3)).weekday ≡ 6)
    × (last_sunday (pos 2026) 3 ≤ℤ days_from_civil (pos 2026) 3 31)
    × (days_from_civil (pos 2026) 3 31 ≤ℤ last_sunday (pos 2026) 3 +ℤ pos 6)
last_sunday_lem_example = last_sunday_lem (pos 2026) 3

offset_before : cet_offset_s (pos 1774745999) ≡ 3600
unfolding cet_offset_s civil_from_days as_i32 days_from_civil Int.◌+ℤ◌ Int.◌-ℤ◌ Int.◌*ℤ◌
    Int.div_euclid Int.rem_euclid
offset_before = refl

offset_after : cet_offset_s (pos 1774746000) ≡ 7200
unfolding cet_offset_s civil_from_days as_i32 days_from_civil Int.◌+ℤ◌ Int.◌-ℤ◌ Int.◌*ℤ◌
    Int.div_euclid Int.rem_euclid
offset_after = refl
