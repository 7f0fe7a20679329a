-- ===== src/Trash/Date/ReadBack.antt =====
-- daemon/src/trash.rs: the date in a trash record can be read back from its text.
use omafile.Prelude.{ℕ, ◌<◌, ◌≤◌, Bytes, some, length, take, drop, nat_eq, ◌≡◌, refl, arith}
use omafile.Prelude.Parse.{digits_value}
use omafile.Trash.Date.{Civil, two, four, iso8601}
use omafile.Trash.Date.Calendar.{days_in_month}
use omafile.Trash.Date.Counted.{IsValid}

digits_value-two : (n : ℕ) → n < 100 → digits_value 0 (two n) ≡ some n
unfolding digits_value
digits_value-two n h = ground (arith, h)

digits_value-four : (n : ℕ) → n < 10000 → digits_value 0 (four n) ≡ some n
unfolding digits_value
digits_value-four n h = ground (arith, h)

month_short : (y m : ℕ) → days_in_month y m ≤ 31
unfolding days_in_month
month_short y m = ground arith

-- The six fields, in digits at their places.
abbrev pub IsWritten : Civil → Bytes → Type 0
IsWritten c line =
    (length line ≡ 19)
    × (digits_value 0 (take 4 line) ≡ some c.year)
    × (digits_value 0 (take 2 (drop 5 line)) ≡ some c.month)
    × (digits_value 0 (take 2 (drop 8 line)) ≡ some c.day)
    × (digits_value 0 (take 2 (drop 11 line)) ≡ some c.hour)
    × (digits_value 0 (take 2 (drop 14 line)) ≡ some c.minute)
    × (digits_value 0 (take 2 (drop 17 line)) ≡ some c.second)

-- The text of a date and time of a year below 10000 has 19 characters, and each field is read back
-- from the digits at its place.
pub iso8601-IsWritten : (c : Civil) → c.year < 10000 → IsValid c → IsWritten c (iso8601 c)
unfolding iso8601
iso8601-IsWritten c early valid = (
  refl,
  digits_value-four c.year early,
  digits_value-two c.month (omega (arith, valid.month_in.1)),
  digits_value-two c.day (omega (arith, valid.day_in.1, month_short c.year c.month)),
  digits_value-two c.hour (omega (arith, valid.time_in.0)),
  digits_value-two c.minute (omega (arith, valid.time_in.1.0)),
  digits_value-two c.second (omega (arith, valid.time_in.1.1)),
)
