-- ===== src/Iec104/Time/Calendar.antt =====
-- The civil calendar of `time.rs`: dates and day numbers, time tags and milliseconds.
use grid_edge_gateway.Prelude.{
  ℕ, ◌+◌, ◌-◌, ◌*◌, ◌/◌, ◌%◌, ◌<◌, ◌≤◌, ◌≡◌, ap, ◌∙◌, arith, if◌then◌else◌, ltb, leb,
}
use grid_edge_gateway.Prelude.Int.{
  ℤ, pos, ◌+ℤ◌, ◌-ℤ◌, ◌*ℤ◌, pos_part, neg_part, div_euclid, rem_euclid, int_laws, rem_euclid-lt,
  div_rem_euclid, div_euclid_unique, rem_euclid_unique,
}
use grid_edge_gateway.Iec104.Time.Wire.{IsTag}
use grid_edge_gateway.Iec104.Time.{
  year_of_era, day_of_year, civil_from_days, days_from_civil, from_unix_ms, to_unix_ms, year_octet,
}

-- Days of an era before its year `y`.
abbrev pub days_before : ℕ → ℕ
days_before y = 365 * y + y / 4 - y / 100

year_of_era-lt : (doe : ℕ) → doe < 146097 → year_of_era doe < 400
unfolding year_of_era
year_of_era-lt doe h = omega arith

year_of_era_starts : (doe : ℕ) → doe < 146097 → days_before (year_of_era doe) ≤ doe
unfolding year_of_era
year_of_era_starts doe h = omega arith

year_of_era_ends : (doe : ℕ) → doe < 146097 → doe ≤ days_before (year_of_era doe) + 365
unfolding year_of_era
year_of_era_ends doe h = omega arith

day_of_year_lem :
    (doe : ℕ)
    → doe < 146097
    → (days_before (year_of_era doe) + day_of_year doe ≡ doe) × (day_of_year doe ≤ 365)
unfolding day_of_year
day_of_year_lem doe h = omega (arith, year_of_era_starts doe h, year_of_era_ends doe h)

-- The month, counted from March, and the day of the month.
abbrev month_from_march : ℕ → ℕ
month_from_march doy = (5 * doy + 2) / 153

abbrev day_of_month : ℕ → ℕ
day_of_month doy = doy - (153 * month_from_march doy + 2) / 5 + 1

abbrev month_of_year : ℕ → ℕ
month_of_year doy =
    if ltb (month_from_march doy) 10 then month_from_march doy + 3 else month_from_march doy - 9

month_lem :
    (doy : ℕ)
    → doy ≤ 365
    → (1 ≤ month_of_year doy)
      × (month_of_year doy ≤ 12)
      × (1 ≤ day_of_month doy)
      × (day_of_month doy ≤ 31)
      × ((153 * month_from_march doy + 2) / 5 + day_of_month doy ≡ doy + 1)
      × ((if ltb 2 (month_of_year doy) then month_of_year doy - 3 else month_of_year doy + 9)
          ≡ month_from_march doy)
month_lem doy h = ground arith

abbrev march_month : ℕ → ℕ
march_month m = if ltb 2 m then m - 3 else m + 9

abbrev carry : ℕ → ℕ
carry m = if leb m 2 then 1 else 0

era_year : (era : ℤ) (yoe c : ℕ) → pos yoe +ℤ era *ℤ 400 +ℤ pos c -ℤ pos c ≡ era *ℤ 400 +ℤ pos yoe
era_year era yoe c = omega int_laws

-- The day number of a date whose year is put together from an era and a year of the era.
days_from_civil_parts :
    (era : ℤ) (yoe m d : ℕ)
    → yoe < 400
    → days_from_civil (pos yoe +ℤ era *ℤ 400 +ℤ pos (carry m)) m d
      ≡ era *ℤ 146097
        +ℤ (pos (yoe * 365 + yoe / 4 - yoe / 100)
            +ℤ (pos ((153 * march_month m + 2) / 5 + d) -ℤ pos 1))
        -ℤ pos 719468
unfolding days_from_civil
days_from_civil_parts era yoe m d h =
    rw
      (era_year era yoe (carry m), div_euclid_unique era 400 yoe h, rem_euclid_unique era 400 yoe h)

rejoin :
    (days : ℤ) (yoe mp d doy : ℕ)
    → days_before yoe + doy ≡ rem_euclid (days +ℤ pos 719468) 146097
    → (153 * mp + 2) / 5 + d ≡ doy + 1
    → div_euclid (days +ℤ pos 719468) 146097 *ℤ 146097
        +ℤ (pos (yoe * 365 + yoe / 4 - yoe / 100) +ℤ (pos ((153 * mp + 2) / 5 + d) -ℤ pos 1))
        -ℤ pos 719468
      ≡ days
rejoin days yoe mp d doy h k =
    let split = div_rem_euclid (days +ℤ pos 719468) 146097 (omega arith) in
    omega (int_laws, ap pos_part split, ap neg_part split)

-- On every day, a day number becomes a month from 1 to 12 and a day from 1 to 31, and the date
-- becomes the day number again.
pub days-civil :
    (days : ℤ)
    → let (y, m, d) = civil_from_days days in
      (1 ≤ m) × (m ≤ 12) × (1 ≤ d) × (d ≤ 31) × (days_from_civil y m d ≡ days)
unfolding civil_from_days
days-civil days =
    let z = days +ℤ pos 719468 in
    let doe = rem_euclid z 146097 in
    let doe_fits = rem_euclid-lt z 146097 (omega arith) in
    let (doe_eq, doy_fits) = day_of_year_lem doe doe_fits in
    let (m_lo, m_hi, d_lo, d_hi, d_eq, mp_eq) = month_lem (day_of_year doe) doy_fits in
    (
      m_lo,
      m_hi,
      d_lo,
      d_hi,
      days_from_civil_parts (div_euclid z 146097) (year_of_era doe)
            (month_of_year (day_of_year doe)) (day_of_month (day_of_year doe))
            (year_of_era-lt doe doe_fits)
          ∙ rw mp_eq (
              rejoin days (year_of_era doe) (month_from_march (day_of_year doe))
                (day_of_month (day_of_year doe)) (day_of_year doe) doe_eq d_eq),
    )

year_octet-eq : (n : ℕ) → n ≤ 99 → year_octet (pos (2000 + n)) ≡ n
unfolding year_octet ◌-ℤ◌
year_octet-eq n h = ground arith

year_octet-le : (y : ℤ) → year_octet y ≤ 99
unfolding year_octet
year_octet-le y = ground arith

time_of_day :
    (days : ℤ) (r : ℕ)
    → days *ℤ 86400000
        +ℤ pos (r / 3600000 * 3600000)
        +ℤ pos (r / 60000 % 60 * 60000)
        +ℤ pos (r % 60000)
      ≡ days *ℤ 86400000 +ℤ pos r
time_of_day days r = omega int_laws

-- A time tag holds any time of the years 2000 to 2099 to the millisecond: the tag made from a time
-- in milliseconds gives that time back.
pub to-from_unix_ms :
    (ms : ℤ) (n : ℕ)
    → (civil_from_days (div_euclid ms 86400000)).0 ≡ pos (2000 + n)
    → n ≤ 99
    → to_unix_ms (from_unix_ms ms) ≡ ms
unfolding to_unix_ms from_unix_ms
to-from_unix_ms ms n h k =
    let days = div_euclid ms 86400000 in
    let (m_lo, m_hi, d_lo, d_hi, back) = days-civil days in
    let month_fits : (civil_from_days days).1 % 256 ≡ (civil_from_days days).1 = omega arith in
    let day_fits : (civil_from_days days).2 % 256 ≡ (civil_from_days days).2 = omega arith in
    rw (h, year_octet-eq n k, month_fits, day_fits, rw h at back)
      (time_of_day days (rem_euclid ms 86400000) ∙ div_rem_euclid ms 86400000 (omega arith))

-- Every tag made from a time fits the wire format.
from_unix_ms-IsTag : (ms : ℤ) → IsTag (from_unix_ms ms)
unfolding from_unix_ms
from_unix_ms-IsTag ms =
    let days = div_euclid ms 86400000 in
    omega (
      arith,
      rem_euclid-lt ms 86400000 (omega arith),
      rem_euclid-lt (days +ℤ pos 3) 7 (omega arith),
      days-civil days,
      year_octet-le (civil_from_days days).0,
    )
