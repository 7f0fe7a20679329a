-- ===== src/Trash/Date/Calendar.antt =====
-- The Gregorian calendar, counted day by day.
use omafile.Prelude.{
  ℕ, zero, suc, ◌+◌, ◌-◌, ◌*◌, ◌/◌, ◌%◌, ◌≤◌, ◌<◌, Bool, true, false, ◌||◌, ◌==◌, nat_eq,
  if◌then◌else◌, ◌≡◌, arith,
}
use omafile.Trash.Date.{Civil, year_of_era}

-- The leap rule, and the days of the months.
unfoldable pub is_leap : ℕ → Bool
is_leap y = if y % 400 == 0 then true else if y % 100 == 0 then false else y % 4 == 0

unfoldable pub days_in_month : ℕ → ℕ → ℕ
days_in_month y m =
    if m == 2
    then (if is_leap y then 29 else 28)
    else if (m == 4) || ((m == 6) || ((m == 9) || (m == 11)))
    then 30
    else 31

-- The days of a year before a month.
abbrev pub days_before : ℕ → ℕ → ℕ
days_before y zero = 0
days_before y (suc zero) = 0
days_before y (suc (suc m)) = days_before y (suc m) + days_in_month y (suc m)

-- The days of the calendar from the year 1 on, before a year.
unfoldable pub days_before_year : ℕ → ℕ
days_before_year y = (y - 1) * 365 + (y - 1) / 4 - (y - 1) / 100 + (y - 1) / 400

-- The day's number, where the first of January of the year 1 is number 1.
unfoldable pub ordinal : Civil → ℕ
ordinal c = days_before_year c.year + days_before c.year c.month + c.day

-- The era's days before a year, which begins in March.
unfoldable pub era_start : ℕ → ℕ
era_start yoe = 365 * yoe + yoe / 4 - yoe / 100

pub year_of_era_bounds :
    (doe : ℕ)
    → doe < 146097
    → (year_of_era doe < 400)
      × ((era_start (year_of_era doe) ≤ doe)
          × (doe < era_start (suc (year_of_era doe)) + (suc (year_of_era doe)) / 400))
unfolding year_of_era era_start
year_of_era_bounds doe h = omega arith

unfoldable pub leap : ℕ → ℕ
leap y = if is_leap y then 1 else 0

pub days_before_year-suc :
    (y : ℕ) → 1 ≤ y → days_before_year (suc y) ≡ days_before_year y + 365 + leap y
unfolding days_before_year is_leap leap
days_before_year-suc y h = ground arith

-- The months from March on follow the code's formula.
pub month_table :
    (y mp : ℕ) → mp < 10 → days_before y (suc (suc (suc mp))) ≡ (153 * mp + 2) / 5 + 59 + leap y
unfolding days_in_month leap
month_table y zero h = ground arith
month_table y (suc zero) h = ground arith
month_table y (suc (suc zero)) h = ground arith
month_table y (suc (suc (suc zero))) h = ground arith
month_table y (suc (suc (suc (suc zero)))) h = ground arith
month_table y (suc (suc (suc (suc (suc zero))))) h = ground arith
month_table y (suc (suc (suc (suc (suc (suc zero)))))) h = ground arith
month_table y (suc (suc (suc (suc (suc (suc (suc zero))))))) h = ground arith
month_table y (suc (suc (suc (suc (suc (suc (suc (suc zero)))))))) h = ground arith
month_table y (suc (suc (suc (suc (suc (suc (suc (suc (suc zero))))))))) h = ground arith
month_table y (suc (suc (suc (suc (suc (suc (suc (suc (suc (suc mp)))))))))) h =
    absurd (omega arith)

-- The two that belong to the next year do too.
pub january : (y : ℕ) → days_before y 1 + 306 ≡ (153 * 10 + 2) / 5
january y = omega arith

pub february : (y : ℕ) → days_before y 2 + 306 ≡ (153 * 11 + 2) / 5
unfolding days_in_month
february y = omega arith

-- The days from the first of March of the year 0 on, by years that begin in March.
unfoldable pub march_count : ℕ → ℕ
march_count y = 365 * y + y / 4 - y / 100 + y / 400

pub days_before_year-march : (y : ℕ) → 1 ≤ y → days_before_year y + 365 + leap y ≡ march_count y
unfolding march_count days_before_year is_leap leap
days_before_year-march y h = ground arith

pub march_count-era :
    (yoe era : ℕ) → yoe < 400 → march_count (yoe + era * 400) ≡ 146097 * era + era_start yoe
unfolding march_count era_start
march_count-era yoe era h = omega arith

-- The month and the day of the month from the day of the year.
pub month_day :
    (doy : ℕ) → doy < 366 → let mp = (5 * doy + 2) / 153 in (mp < 12) × ((153 * mp + 2) / 5 ≤ doy)
month_day doy h = omega arith
