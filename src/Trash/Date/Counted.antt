-- ===== src/Trash/Date/Counted.antt =====
-- The date that is written is the one on which the seconds fall.
use omafile.Prelude.{
  ℕ, suc, ◌+◌, ◌-◌, ◌*◌, ◌/◌, ◌%◌, ◌≤◌, ◌<◌, true, false, ◌==◌, nat_eq, leb, ltb, Bool-cases, inl,
  inr, ◌≡◌, refl, arith,
}
use omafile.Trash.Date.{Civil, year_of_era, day_of_year, civil_of, civil_of_day, civil_from_unix}
use omafile.Prelude.Integers.{pos}
use omafile.Trash.Date.Calendar.{
  is_leap, days_in_month, days_before, days_before_year, ordinal, era_start, year_of_era_bounds,
  leap, days_before_year-suc, month_table, january, february, march_count, days_before_year-march,
  march_count-era, month_day,
}

spring :
    (y mp doy : ℕ)
    → mp < 10
    → (153 * mp + 2) / 5 ≤ doy
    → 1 ≤ y
    → days_before_year y + days_before y (suc (suc (suc mp))) + (doy - (153 * mp + 2) / 5 + 1) + 305
      ≡ march_count y + doy
spring y mp doy h k later = omega (arith, month_table y mp h, days_before_year-march y later)

winter :
    (y mp doy : ℕ)
    → 10 ≤ mp
    → mp < 12
    → (153 * mp + 2) / 5 ≤ doy
    → 1 ≤ y
    → days_before_year (suc y) + days_before (suc y) (mp - 9) + (doy - (153 * mp + 2) / 5 + 1) + 305
      ≡ march_count y + doy
winter y mp doy low high k later = elim (Bool-cases (mp == 10)) [
  | inl e ↦
      let ten : mp ≡ 10 = ground (arith, e) in
      rw ten (
        omega (
          arith,
          ten,
          january (suc y),
          days_before_year-suc y later,
          days_before_year-march y later,
        ))
  | inr e ↦
      let eleven : mp ≡ 11 = ground (arith, e) in
      rw eleven (
        omega (
          arith,
          eleven,
          february (suc y),
          days_before_year-suc y later,
          days_before_year-march y later,
        ))
]

ordinal-civil_of :
    (era yoe doy rest : ℕ)
    → doy < 366
    → 1 ≤ yoe + era * 400
    → ordinal (civil_of era yoe doy rest) + 305 ≡ march_count (yoe + era * 400) + doy
unfolding ordinal civil_of
ordinal-civil_of era yoe doy rest h later =
    let (high, k) = month_day doy h in
    elim (Bool-cases (ltb ((5 * doy + 2) / 153) 10)) [
      | inl e ↦
          let third : leb ((5 * doy + 2) / 153 + 3) 2 ≡ false = ground arith in
          let after : (5 * doy + 2) / 153 + 3 ≡ suc (suc (suc ((5 * doy + 2) / 153))) =
            omega arith in
          rw (e, third, after)
            (spring (yoe + era * 400) ((5 * doy + 2) / 153) doy (ground (arith, e)) k later)
      | inr e ↦
          let first : leb ((5 * doy + 2) / 153 - 9) 2 ≡ true = ground (arith, high) in
          let next : yoe + era * 400 + 1 ≡ suc (yoe + era * 400) = omega arith in
          rw (e, first, next)
            (winter (yoe + era * 400) ((5 * doy + 2) / 153) doy (ground (arith, e)) high k later)
    ]

doy_small : (doe : ℕ) → doe < 146097 → day_of_year doe (year_of_era doe) < 366
unfolding era_start
doy_small doe h = omega (arith, year_of_era_bounds doe h)

doy_known :
    (doe : ℕ) → doe < 146097 → era_start (year_of_era doe) + day_of_year doe (year_of_era doe) ≡ doe
unfolding era_start
doy_known doe h = omega (arith, year_of_era_bounds doe h)

-- The day that is written is the one asked for, in an era after the first.
pub ordinal-civil_of_day : (z s : ℕ) → 146097 ≤ z → ordinal (civil_of_day z s) + 305 ≡ z
ordinal-civil_of_day z s late =
    let doe = z % 146097 in
    let era = z / 146097 in
    let small : doe < 146097 = omega arith in
    let (yoe_small, _) = year_of_era_bounds doe small in
    omega (
      arith,
      ordinal-civil_of era (year_of_era doe) (day_of_year doe (year_of_era doe)) s
          (doy_small doe small) (omega (arith, late)),
      march_count-era (year_of_era doe) era yoe_small,
      doy_known doe small,
    )

-- A date of the calendar, and a time of the day.
pub record IsValid (c : Civil) : Type 0 where
  pub month_in : (1 ≤ c.month) × (c.month ≤ 12)
  pub day_in : (1 ≤ c.day) × (c.day ≤ days_in_month c.year c.month)
  pub time_in : (c.hour < 24) × ((c.minute < 60) × (c.second < 60))

-- What follows a leap day's year: a year from March is 366 days long only before one.
doy_bound :
    (doe era : ℕ)
    → doe < 146097
    → let yoe = year_of_era doe in day_of_year doe yoe < 365 + leap (suc (yoe + era * 400))
unfolding era_start leap is_leap
doy_bound doe era h = ground (arith, year_of_era_bounds doe h)

-- Every month's days lie within it.
month_fits :
    (y mp doy : ℕ)
    → mp ≡ (5 * doy + 2) / 153
    → mp < 10
    → doy < 366
    → doy - (153 * mp + 2) / 5 + 1 ≤ days_in_month y (mp + 3)
unfolding days_in_month
month_fits y mp doy e h k = ground (arith)

winter_fits :
    (y mp doy : ℕ)
    → mp ≡ (5 * doy + 2) / 153
    → 10 ≤ mp
    → doy < 365 + leap y
    → doy - (153 * mp + 2) / 5 + 1 ≤ days_in_month y (mp - 9)
unfolding days_in_month leap
winter_fits y mp doy e h k = ground (arith)

leap_le : (y : ℕ) → leap y ≤ 1
unfolding leap
leap_le y = ground arith

civil_of-IsValid :
    (era yoe doy rest : ℕ)
    → doy < 365 + leap (suc (yoe + era * 400))
    → rest < 86400
    → IsValid (civil_of era yoe doy rest)
unfolding civil_of
civil_of-IsValid era yoe doy rest h t =
    let mp = (5 * doy + 2) / 153 in
    let days : doy < 366 = omega (arith, leap_le (suc (yoe + era * 400)), h) in
    elim (Bool-cases (ltb mp 10)) [
      | inl e ↦
          let third : leb (mp + 3) 2 ≡ false = ground arith in
          rw (e, third)
            (record {
              month_in = (omega arith, ground (arith, e));
              day_in =
                  (omega arith, month_fits (yoe + era * 400) mp doy refl (ground (arith, e)) days);
              time_in = (omega arith, (omega arith, omega arith));
            })
      | inr e ↦
          let ten : 10 ≤ mp = ground (arith, e) in
          let eleven : mp < 12 = omega (arith, days) in
          let first : leb (mp - 9) 2 ≡ true = ground (arith, eleven) in
          let next : yoe + era * 400 + 1 ≡ suc (yoe + era * 400) = omega arith in
          rw (e, first, next)
            (record {
              month_in = (omega arith, omega arith);
              day_in = (omega arith, winter_fits (suc (yoe + era * 400)) mp doy refl ten h);
              time_in = (omega arith, (omega arith, omega arith));
            })
    ]

pub IsValid-civil_of_day : (z s : ℕ) → s < 86400 → IsValid (civil_of_day z s)
IsValid-civil_of_day z s small =
    let doe = z % 146097 in
    civil_of-IsValid (z / 146097) (year_of_era doe) (day_of_year doe (year_of_era doe)) s
      (doy_bound doe (z / 146097) (omega arith)) small

-- The seconds of the day.
abbrev pub time_of_day : Civil → ℕ
time_of_day c = 3600 * c.hour + (60 * c.minute + c.second)

pub time-civil_of_day : (z s : ℕ) → time_of_day (civil_of_day z s) ≡ s
unfolding civil_of
time-civil_of_day z s = omega arith

-- The fields that are written are a date of the calendar and a time of the day; the day's number in
-- the calendar is as many days after that of the first of January 1970, which is 719163, as there
-- are whole days in the seconds; and the time is what is left of them. It holds from 1970 on.
pub civil_from_unix_lem :
    (secs : ℕ)
    → IsValid (civil_from_unix (pos secs))
      × ((ordinal (civil_from_unix (pos secs)) ≡ secs / 86400 + 719163)
          × (3600 * (civil_from_unix (pos secs)).hour
                + (60 * (civil_from_unix (pos secs)).minute + (civil_from_unix (pos secs)).second)
              ≡ secs % 86400))
unfolding civil_from_unix
civil_from_unix_lem secs =
    let z = secs / 86400 + 719468 in
    (
      IsValid-civil_of_day z (secs % 86400) (omega arith),
      (
        omega (arith, ordinal-civil_of_day z (secs % 86400) (omega arith)),
        time-civil_of_day z (secs % 86400),
      ),
    )
