-- ===== src/Trash/Date.antt =====
-- daemon/src/trash.rs: `civil_from_unix` and `iso8601_local_now`, from the local time on, in seconds
-- since 1970. Days before the first of March of year 0 are not modelled.
pub mod Calendar
pub mod Counted
pub mod Line
pub mod Zone
pub mod ReadBack
use omafile.Prelude.{
  ℕ, zero, suc, ◌+◌, ◌-◌, ◌*◌, ◌/◌, ◌%◌, Bytes, codes, [], ◌∷◌, ◌++◌, leb, ltb, if◌then◌else◌,
}
use omafile.Prelude.Integers.{ℤ, pos, ◌+ℤ◌, div_euclid, rem_euclid, natural}

pub record Civil : Type 0 where
  pub year : ℕ
  pub month : ℕ
  pub day : ℕ
  pub hour : ℕ
  pub minute : ℕ
  pub second : ℕ

-- The year of an era of 400 years, from the day of the era.
unfoldable pub year_of_era : ℕ → ℕ
year_of_era doe = (doe - doe / 1460 + doe / 36524 - doe / 146096) / 365

abbrev pub day_of_year : ℕ → ℕ → ℕ
day_of_year doe yoe = doe - (365 * yoe + yoe / 4 - yoe / 100)

-- The year begins in March here.
unfoldable pub civil_of : ℕ → ℕ → ℕ → ℕ → Civil
civil_of era yoe doy rest =
    let mp = (5 * doy + 2) / 153 in
    let m = if ltb mp 10 then mp + 3 else mp - 9 in
    record {
      year = if leb m 2 then yoe + era * 400 + 1 else yoe + era * 400;
      month = m;
      day = doy - (153 * mp + 2) / 5 + 1;
      hour = rest / 3600;
      minute = rest % 3600 / 60;
      second = rest % 60;
    }

-- From the days since the first of March of year 0, and the seconds of the day.
abbrev pub civil_of_day : ℕ → ℕ → Civil
civil_of_day z rest =
    let era = z / 146097 in
    let doe = z % 146097 in let yoe = year_of_era doe in civil_of era yoe (day_of_year doe yoe) rest

unfoldable pub civil_from_unix : ℤ → Civil
civil_from_unix secs =
    civil_of_day (natural (div_euclid secs 86400 +ℤ pos 719468)) (rem_euclid secs 86400)

abbrev digit : ℕ → ℕ
digit n = n % 10 + 48

-- `{:02}` of a number below 100, and `{:04}` of one below 10000.
abbrev pub two : ℕ → Bytes
two n = digit (n / 10) ∷ digit n ∷ []

abbrev pub four : ℕ → Bytes
four n = digit (n / 1000) ∷ digit (n / 100) ∷ digit (n / 10) ∷ digit n ∷ []

unfoldable pub iso8601 : Civil → Bytes
iso8601 c =
    four c.year
    ++ (b'-'
        ∷ (two c.month
            ++ (b'-'
                ∷ (two c.day
                    ++ (b'T' ∷ (two c.hour ++ (b':' ∷ (two c.minute ++ (b':' ∷ two c.second)))))))))
