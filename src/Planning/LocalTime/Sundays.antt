-- ===== src/Planning/LocalTime/Sundays.antt =====
-- The calendar of the planning layer against that of the time tags, and the days of the clock
-- change.
use grid_edge_gateway.Prelude.{
  ℕ, ◌+◌, ◌-◌, ◌≤◌, ◌∙◌, false, ltb, ◌%◌, ◌<◌, ◌≡◌, refl, ap, arith, inl, inr, Bool-cases, tests,
  if◌then◌else◌, leb, ◌==◌,
}
use grid_edge_gateway.Prelude.Int.{
  ℤ, pos, pos_part, neg_part, ◌+ℤ◌, ◌-ℤ◌, ◌*ℤ◌, ◌≤ℤ◌, div_euclid, rem_euclid, int_laws, negsuc,
  div_rem_euclid, rem_euclid-lt, rem_euclid_unique, eq_of_parts,
}
use grid_edge_gateway.Planning.LocalTime.{as_i32, civil_from_days, days_from_civil, last_sunday}
use grid_edge_gateway.Iec104.Time
use grid_edge_gateway.Iec104.Time.Calendar.{days-civil}

rest_of : (z : ℤ) (d : ℕ) → 0 < d → pos_part (z -ℤ div_euclid z d *ℤ d) ≡ rem_euclid z d
rest_of z d h =
    let split = div_rem_euclid z d h in
    let same : z -ℤ div_euclid z d *ℤ d ≡ pos (rem_euclid z d) =
      eq_of_parts _ _ (omega (int_laws, ap pos_part split, ap neg_part split)) in
    ap pos_part same

-- What an `i32` can hold.
abbrev pub IsI32 : ℤ → Type 0
IsI32 a = (pos_part a < 2147483648) × (neg_part a ≤ 2147483648)

as_i32-IsI32 : (a : ℤ) → IsI32 a → as_i32 a ≡ a
unfolding as_i32 rem_euclid
as_i32-IsI32 (pos n) h = ground arith
as_i32-IsI32 (negsuc n) h =
    let bits = 4294967296 - 1 - n % 4294967296 in
    let high : ltb bits 2147483648 ≡ false = ground arith in
    rw high (eq_of_parts _ _ (omega (int_laws, h)))

civil_from_days_parts :
    (days : ℤ)
    → let (y, m, d) = Time.civil_from_days days in
      ((civil_from_days days).year ≡ as_i32 y)
      × ((civil_from_days days).month ≡ m)
      × ((civil_from_days days).day ≡ d)
unfolding civil_from_days Time.civil_from_days Time.year_of_era Time.day_of_year
civil_from_days_parts days =
    rw (rest_of (days +ℤ pos 719468) 146097 (omega arith)) (refl, refl, refl)

days_from_civil-eq : (year : ℤ) (m d : ℕ) → days_from_civil year m d ≡ Time.days_from_civil year m d
unfolding days_from_civil Time.days_from_civil
days_from_civil-eq year m d =
    rw (rest_of (year -ℤ pos (if leb m 2 then 1 else 0)) 400 (omega arith)) refl

-- On every day whose year fits an `i32`, the planning layer's calendar names the date that the calendar
-- of the time tags names, and its way back from that date leads to the day.
pub civil_from_days-eq :
    (days : ℤ)
    → IsI32 (Time.civil_from_days days).0
    → let c = civil_from_days days in
      ((c.year, c.month, c.day) ≡ Time.civil_from_days days)
      × (days_from_civil c.year c.month c.day ≡ days)
civil_from_days-eq days h =
    let (year, month, day) = civil_from_days_parts days in
    let same = year ∙ as_i32-IsI32 (Time.civil_from_days days).0 h in
    let (_, _, _, _, back) = days-civil days in
    (
      rw (same, month, day) refl,
      rw (same, month, day)
          (days_from_civil-eq (Time.civil_from_days days).0 (Time.civil_from_days days).1
              (Time.civil_from_days days).2
            ∙ back),
    )

six_left : (x q : ℤ) → x ≡ q *ℤ 7 +ℤ pos 6 → rem_euclid x 7 ≡ 6
six_left x q e = rw e (rem_euclid_unique q 7 6 (omega arith))

-- Going back by the number of days since the last Sunday leads to a Sunday.
back_to_sunday :
    (d : ℤ) → rem_euclid (d -ℤ pos ((rem_euclid (d +ℤ pos 3) 7 + 1) % 7) +ℤ pos 3) 7 ≡ 6
back_to_sunday d =
    let q = div_euclid (d +ℤ pos 3) 7 in
    let r = rem_euclid (d +ℤ pos 3) 7 in
    let split = div_rem_euclid (d +ℤ pos 3) 7 (omega arith) in
    let fits = rem_euclid-lt (d +ℤ pos 3) 7 (omega arith) in
    elim (Bool-cases (r == 6)) [
      | inl sunday ↦
          six_left _ q
            (eq_of_parts _ _ (omega (int_laws, tests, ap pos_part split, ap neg_part split)))
      | inr other ↦
          six_left _ (q -ℤ pos 1)
            (eq_of_parts _ _ (omega (int_laws, tests, ap pos_part split, ap neg_part split)))
    ]

-- The day on which the clock changes is a Sunday, and one of the seven days up to the 31st.
pub last_sunday_lem :
    (year : ℤ) (month : ℕ)
    → ((civil_from_days (last_sunday year month)).weekday ≡ 6)
      × (last_sunday year month ≤ℤ days_from_civil year month 31)
      × (days_from_civil year month 31 ≤ℤ last_sunday year month +ℤ pos 6)
unfolding last_sunday civil_from_days
last_sunday_lem year month =
    let d31 = days_from_civil year month 31 in (back_to_sunday d31, omega int_laws, omega int_laws)
