-- ===== src/Tests/Dates.antt =====
-- Dates, at concrete times.
use omafile.Prelude.{◌+◌, ◌<◌, ◌/◌, ◌*◌, ◌%◌, codes, false, some, list_eq, nat_eq, ◌≡◌, refl, arith}
use omafile.Prelude.Integers.{pos}
use omafile.Trash.Date.ReadBack.{IsWritten, iso8601-IsWritten}
use omafile.Trash.Date.{Civil, civil_from_unix, year_of_era, civil_of, iso8601}
use omafile.Trash.Date.Calendar.{ordinal}
use omafile.Prelude.Parse.{parse_i64, digits_value}
use omafile.Trash.Date.Zone.{
  iso8601_local_now, local_now, local_utc_offset_secs, offset_of, trim, trim_end, trim_start,
}
use omafile.Trash.Date.Zone.Local.{printed, local_now-printed}
use omafile.Trash.Date.Counted.{IsValid, time_of_day, civil_from_unix_lem}
use omafile.Tests.Starting.{now}

civil_from_unix_lem_example :
    IsValid (civil_from_unix (pos 1704067200))
    × ((ordinal (civil_from_unix (pos 1704067200)) ≡ 1704067200 / 86400 + 719163)
        × (3600 * (civil_from_unix (pos 1704067200)).hour
              + (60 * (civil_from_unix (pos 1704067200)).minute
                  + (civil_from_unix (pos 1704067200)).second)
            ≡ 1704067200 % 86400))
civil_from_unix_lem_example = civil_from_unix_lem 1704067200

new_year : iso8601 (civil_from_unix (pos 1704067200)) ≡ now
unfolding iso8601 civil_from_unix civil_of year_of_era
new_year = refl

-- An hour before 1970 in the west, and a zone that is not whole hours away.
still_december : iso8601_local_now (some 0) (some (codes "-0100")) ≡ codes "1969-12-31T23:00:00"
unfolding iso8601_local_now local_now local_utc_offset_secs offset_of trim trim_end trim_start
    parse_i64 digits_value iso8601 civil_from_unix civil_of year_of_era
still_december = refl

local_now-printed_example :
    IsValid (local_now (some 1704067200) (some (printed false 5 30)))
    × (86400 * ordinal (local_now (some 1704067200) (some (printed false 5 30)))
          + time_of_day (local_now (some 1704067200) (some (printed false 5 30)))
          + 0
        ≡ 86400 * 719163 + 1704067200 + (5 * 3600 + 30 * 60))
local_now-printed_example = local_now-printed false 5 30 1704067200 (omega arith) (omega arith)

-- A leap day, to the last second.
leap_day : iso8601 (civil_from_unix (pos 1709251199)) ≡ codes "2024-02-29T23:59:59"
unfolding iso8601 civil_from_unix civil_of year_of_era
leap_day = refl

abbrev new_year_civil : Civil
new_year_civil = civil_from_unix (pos 1704067200)

year_known : new_year_civil.year < 10000
unfolding civil_from_unix civil_of year_of_era
year_known = omega arith

iso8601-IsWritten_example : IsWritten new_year_civil (iso8601 new_year_civil)
iso8601-IsWritten_example =
    iso8601-IsWritten new_year_civil year_known (civil_from_unix_lem 1704067200).0
