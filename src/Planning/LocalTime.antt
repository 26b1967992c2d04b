-- ===== src/Planning/LocalTime.antt =====
-- `crates/planning/src/localtime.rs`: Central European time. A time is whole seconds, an integer,
-- and a year is an `i32`, which the calendar casts to; the other casts keep their value.
-- A date that is passed in may have any year, month and day here, also those that the machine
-- integers of the source do not hold.
pub mod Sundays
use grid_edge_gateway.Prelude.{ℕ, ◌+◌, ◌-◌, ◌*◌, ◌/◌, ◌%◌, Bool, not, ◌&&◌, ltb, leb, if◌then◌else◌}
use grid_edge_gateway.Prelude.Int.{
  ℤ, pos, pos_part, ◌+ℤ◌, ◌-ℤ◌, ◌*ℤ◌, ltb_ℤ, div_euclid, rem_euclid,
}

-- `as i32` of an integer: its last 32 bits, as a signed number.
unfoldable pub as_i32 : ℤ → ℤ
as_i32 a =
    let bits = rem_euclid a 4294967296 in
    if ltb bits 2147483648 then pos bits else pos bits -ℤ pos 4294967296

-- `weekday` is 0 on a Monday.
pub record Civil : Type 0 where
  pub year : ℤ
  pub month : ℕ
  pub day : ℕ
  pub weekday : ℕ

-- `doe`, the day of the era, is never negative.
unfoldable pub civil_from_days : ℤ → Civil
civil_from_days days =
    let z = days +ℤ pos 719468 in
    let era = div_euclid z 146097 in
    let doe = pos_part (z -ℤ era *ℤ 146097) in
    let yoe = (doe - doe / 1460 + doe / 36524 - doe / 146096) / 365 in
    let doy = doe - (365 * yoe + yoe / 4 - yoe / 100) in
    let mp = (5 * doy + 2) / 153 in
    let day = doy - (153 * mp + 2) / 5 + 1 in
    let month = if ltb mp 10 then mp + 3 else mp - 9 in
    record {
      year = as_i32 (pos yoe +ℤ era *ℤ 400 +ℤ pos (if leb month 2 then 1 else 0));
      month = month;
      day = day;
      weekday = rem_euclid (days +ℤ pos 3) 7;
    }

unfoldable pub days_from_civil : ℤ → ℕ → ℕ → ℤ
days_from_civil year month day =
    let y = year -ℤ pos (if leb month 2 then 1 else 0) in
    let era = div_euclid y 400 in
    let yoe = pos_part (y -ℤ era *ℤ 400) in
    let doy = pos ((153 * (if ltb 2 month then month - 3 else month + 9) + 2) / 5 + day) -ℤ pos 1 in
    let doe = pos (yoe * 365 + yoe / 4 - yoe / 100) +ℤ doy in era *ℤ 146097 +ℤ doe -ℤ pos 719468

unfoldable pub unix_from_utc : ℤ → ℕ → ℕ → ℕ → ℕ → ℕ → ℤ
unfolding days_from_civil
unix_from_utc year month day hour minute second =
    days_from_civil year month day *ℤ 86400 +ℤ pos (hour * 3600) +ℤ pos (minute * 60) +ℤ pos second

unfoldable pub civil_from_unix : ℤ → Civil
civil_from_unix unix_s = civil_from_days (div_euclid unix_s 86400)

-- The day of the last Sunday of a month of 31 days.
unfoldable pub last_sunday : ℤ → ℕ → ℤ
last_sunday year month =
    let d31 = days_from_civil year month 31 in
    let back = ((civil_from_days d31).weekday + 1) % 7 in d31 -ℤ pos back

unfoldable pub last_sunday_0100 : ℤ → ℕ → ℤ
unfolding last_sunday
last_sunday_0100 year month = last_sunday year month *ℤ 86400 +ℤ pos 3600

unfoldable pub cet_offset_s : ℤ → ℕ
unfolding last_sunday_0100 civil_from_unix
cet_offset_s unix_s =
    let year = (civil_from_unix unix_s).year in
    let summer =
      not (ltb_ℤ unix_s (last_sunday_0100 year 3)) && ltb_ℤ unix_s (last_sunday_0100 year 10) in
    if summer then 7200 else 3600

unfoldable pub local_seconds_of_day : ℤ → ℕ
local_seconds_of_day unix_s = rem_euclid (unix_s +ℤ pos (cet_offset_s unix_s)) 86400
