-- ===== src/Iec104/Time.antt =====
-- `crates/iec104/src/time.rs`: the seven-octet time tag CP56Time2a and the civil calendar.
-- An `i64` is an integer; the days of a time in milliseconds stay below 2^37, so that no step of
-- the calendar can overflow. Quantities that the code keeps from 0 on are natural numbers.
pub mod Wire
pub mod Calendar
use grid_edge_gateway.Prelude.{
  ℕ, ◌+◌, ◌-◌, ◌*◌, ◌/◌, ◌%◌, ◌<◌, bit_and, bit_or, List, [], ◌∷◌, ◌++◌, Bool, false, not, length,
  ltb, leb, ◌==◌, if◌then◌else◌, Result, ok, err, ◌>>=◌, index,
}
use grid_edge_gateway.Prelude.Int.{
  ℤ, pos, ◌+ℤ◌, ◌-ℤ◌, ◌*ℤ◌, ltb_ℤ, pos_part, div_euclid, rem_euclid,
}
use grid_edge_gateway.Iec104.Apci.{Error, truncated, u16_to_le, u16_from_le}

pub record Cp56Time2a : Type 0 where
  pub millisecond : ℕ
  pub minute : ℕ
  pub hour : ℕ
  pub day : ℕ
  pub weekday : ℕ
  pub month : ℕ
  pub year : ℕ
  pub invalid : Bool
  pub summer_time : Bool

abbrev pub len : ℕ
len = 7

unfoldable pub encode : Cp56Time2a → List ℕ
encode t =
    u16_to_le t.millisecond
    ++ (bit_or (bit_and t.minute 0x3F) (if t.invalid then 0x80 else 0)
        ∷ bit_or (bit_and t.hour 0x1F) (if t.summer_time then 0x80 else 0)
        ∷ bit_or (bit_and t.day 0x1F) (bit_and t.weekday 0x07 * 32 % 256)
        ∷ bit_and t.month 0x0F
        ∷ bit_and t.year 0x7F
        ∷ [])

unfoldable pub decode : List ℕ → Result Error Cp56Time2a
decode b = if ltb (length b) len then err truncated else (do
  b0 ← index b 0
  b1 ← index b 1
  b2 ← index b 2
  b3 ← index b 3
  b4 ← index b 4
  b5 ← index b 5
  b6 ← index b 6
  ok (record {
    millisecond = u16_from_le b0 b1;
    minute = bit_and b2 0x3F;
    invalid = not (bit_and b2 0x80 == 0);
    hour = bit_and b3 0x1F;
    summer_time = not (bit_and b3 0x80 == 0);
    day = bit_and b4 0x1F;
    weekday = b4 / 32;
    month = bit_and b5 0x0F;
    year = bit_and b6 0x7F;
  }))

-- Howard Hinnant's civil calendar, year, month and day of a day number (0 is 1970-01-01). The day
-- of the era, `doe`, and what follows from it, is never negative.
unfoldable pub year_of_era : ℕ → ℕ
year_of_era doe = (doe - doe / 1460 + doe / 36524 - doe / 146096) / 365

unfoldable pub day_of_year : ℕ → ℕ
unfolding year_of_era
day_of_year doe = let yoe = year_of_era doe in doe - (365 * yoe + yoe / 4 - yoe / 100)

unfoldable pub civil_from_days : ℤ → ℤ × ℕ × ℕ
unfolding year_of_era day_of_year
civil_from_days days =
    let z = days +ℤ pos 719468 in
    let era = div_euclid z 146097 in
    let doe = rem_euclid z 146097 in
    let yoe = year_of_era doe in
    let doy = day_of_year doe in
    let mp = (5 * doy + 2) / 153 in
    let d = doy - (153 * mp + 2) / 5 + 1 in
    let m = if ltb mp 10 then mp + 3 else mp - 9 in
    let y = pos yoe +ℤ era *ℤ 400 +ℤ pos (if leb m 2 then 1 else 0) in (y, m, d)

unfoldable pub days_from_civil : ℤ → ℕ → ℕ → ℤ
days_from_civil year m d =
    let y = year -ℤ pos (if leb m 2 then 1 else 0) in
    let era = div_euclid y 400 in
    let yoe = rem_euclid y 400 in
    let mp = if ltb 2 m then m - 3 else m + 9 in
    let doy = pos ((153 * mp + 2) / 5 + d) -ℤ pos 1 in
    let doe = pos (yoe * 365 + yoe / 4 - yoe / 100) +ℤ doy in era *ℤ 146097 +ℤ doe -ℤ pos 719468

-- `(year - 2000).clamp(0, 99) as u8`
unfoldable pub year_octet : ℤ → ℕ
year_octet year =
    let since = year -ℤ pos 2000 in
    if ltb_ℤ since (pos 0) then 0 else if ltb_ℤ (pos 99) since then 99 else pos_part since

unfoldable pub from_unix_ms : ℤ → Cp56Time2a
from_unix_ms ms =
    let days = div_euclid ms 86400000 in
    let ms_of_day = rem_euclid ms 86400000 in
    let (year, month, day) = civil_from_days days in
    record {
      millisecond = ms_of_day % 60000;
      minute = ms_of_day / 60000 % 60;
      hour = ms_of_day / 3600000;
      day = day % 256;
      weekday = (rem_euclid (days +ℤ pos 3) 7 + 1) % 256;
      month = month % 256;
      year = year_octet year;
      invalid = false;
      summer_time = false;
    }

unfoldable pub to_unix_ms : Cp56Time2a → ℤ
to_unix_ms t =
    let days = days_from_civil (pos (2000 + t.year)) t.month t.day in
    days *ℤ 86400000 +ℤ pos (t.hour * 3600000) +ℤ pos (t.minute * 60000) +ℤ pos t.millisecond
