-- ===== src/Trash/Date/Zone/Local.antt =====
-- daemon/src/trash.rs: the date that is written is the local one.
use omafile.Prelude.{
  ℕ, ◌+◌, ◌*◌, ◌<◌, Bytes, [], ◌∷◌, ◌++◌, Bool, true, false, some, nat_eq, if◌then◌else◌, ◌≡◌, refl,
  arith,
}
use omafile.Prelude.Integers.{ℤ, pos, negsuc, negated, ◌+ℤ◌, div_euclid, rem_euclid, natural}
use omafile.Prelude.Parse.{parse_i64, digits_value}
use omafile.Trash.Date.{two, civil_from_unix}
use omafile.Trash.Date.Calendar.{ordinal}
use omafile.Trash.Date.Counted.{
  IsValid, time_of_day, ordinal-civil_of_day, IsValid-civil_of_day, time-civil_of_day,
}
use omafile.Trash.Date.Zone.{
  trim, trim_end, trim_start, offset_of, local_utc_offset_secs, local_now,
}

-- What `date +%z` prints in a zone that many hours and minutes east or west of Greenwich.
abbrev pub printed : Bool → ℕ → ℕ → Bytes
printed west h m = (if west then b'-' else b'+') ∷ (two h ++ (two m ++ (10 ∷ [])))

abbrev pub offset : Bool → ℕ → ℤ
offset west n = if west then negated n else pos n

parse-two : (n : ℕ) → n < 100 → parse_i64 (two n) ≡ some (pos n)
unfolding parse_i64 digits_value
parse-two n h = ground (arith, h)

trim-printed :
    (west : Bool) (h m : ℕ)
    → trim (printed west h m) ≡ (if west then b'-' else b'+') ∷ (two h ++ two m)
unfolding trim trim_end trim_start
trim-printed true h m = ground arith
trim-printed false h m = ground arith

-- The seconds since the first of March of year 0, in days and a rest.
abbrev day : ℤ → ℕ
day secs = natural (div_euclid secs 86400 +ℤ pos 719468)

day-rem_euclid :
    (secs n : ℕ) (west : Bool)
    → n < 400000
    → 86400 * day (pos secs +ℤ offset west n)
        + rem_euclid (pos secs +ℤ offset west n) 86400
        + (if west then n else 0)
      ≡ secs + 719468 * 86400 + (if west then 0 else n)
day-rem_euclid secs n west h = ground (arith, h)

local_utc_offset_secs-printed :
    (west : Bool) (h m : ℕ)
    → h < 100
    → m < 100
    → local_utc_offset_secs (some (printed west h m)) ≡ offset west (h * 3600 + m * 60)
unfolding local_utc_offset_secs offset_of
local_utc_offset_secs-printed true h m hs ms =
    rw (trim-printed true h m, parse-two h hs, parse-two m ms) refl
local_utc_offset_secs-printed false h m hs ms =
    rw (trim-printed false h m, parse-two h hs, parse-two m ms) refl

rem_euclid_small : (secs : ℤ) → rem_euclid secs 86400 < 86400
rem_euclid_small (pos n) = omega arith
rem_euclid_small (negsuc n) = omega arith

-- What is written is a date of the calendar and a time of the day, and it is the local one: where the
-- clock counts `secs` seconds since 1970 and `date +%z` prints an offset of `h` hours and `m` minutes,
-- both below 100, it is the offset later than those seconds after the first of January 1970, whose
-- number in the calendar is 719163, or earlier if the offset is to the west.
pub local_now-printed :
    (west : Bool) (h m secs : ℕ)
    → h < 100
    → m < 100
    → let c = local_now (some secs) (some (printed west h m)) in
      let away = h * 3600 + m * 60 in
      IsValid c
      × (86400 * ordinal c + time_of_day c + (if west then away else 0)
          ≡ 86400 * 719163 + secs + (if west then 0 else away))
unfolding local_now civil_from_unix
local_now-printed west h m secs hs ms =
    let away = h * 3600 + m * 60 in
    let secs_then = pos secs +ℤ offset west away in
    let whole = day-rem_euclid secs away west (omega (arith, hs, ms)) in
    let small = rem_euclid_small secs_then in
    rw (local_utc_offset_secs-printed west h m hs ms) (
      IsValid-civil_of_day (day secs_then) (rem_euclid secs_then 86400) small,
      ground (
        arith,
        whole,
        small,
        ordinal-civil_of_day (day secs_then) (rem_euclid secs_then 86400)
            (ground (arith, whole, small)),
        time-civil_of_day (day secs_then) (rem_euclid secs_then 86400),
      ),
    )
