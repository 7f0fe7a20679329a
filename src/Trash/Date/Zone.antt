-- ===== src/Trash/Date/Zone.antt =====
-- daemon/src/trash.rs: `iso8601_local_now`, from the clock and from what `date +%z` printed, and
-- `local_utc_offset_secs`. The clock stands so low that no `i64` overflows, and the text is ASCII, so
-- that no slice splits a character.
pub mod Local
use omafile.Prelude.{
  ℕ, suc, Bytes, [], ◌∷◌, Bool, true, false, ◌&&◌, ◌||◌, Option, none, some, length, take, drop,
  ltb, leb, ◌==◌, nat_eq, if◌then◌else◌,
}
use omafile.Prelude.Integers.{ℤ, pos, negsuc, ◌+ℤ◌, negℤ, scaled}
use omafile.Prelude.Parse.{parse_i64}
use omafile.Trash.Date.{Civil, civil_from_unix, iso8601}

-- `str::trim`, on ASCII text.
abbrev is_space : ℕ → Bool
is_space c = c == 32 || (leb 9 c && leb c 13)

abbrev is_empty : Bytes → Bool
is_empty [] = true
is_empty (c ∷ cs) = false

unfoldable pub trim_end : Bytes → Bytes
trim_end [] = []
trim_end (c ∷ cs) = let rest = trim_end cs in if is_space c && is_empty rest then [] else c ∷ rest

unfoldable pub trim_start : Bytes → Bytes
trim_start [] = []
trim_start (c ∷ cs) = let rest = trim_start cs in if is_space c then rest else c ∷ cs

unfoldable pub trim : Bytes → Bytes
trim s = trim_end (trim_start s)

abbrev starts_with_minus : Bytes → Bool
starts_with_minus [] = false
starts_with_minus (c ∷ cs) = c == 45

abbrev signed : Bool → ℤ → ℤ
signed west n = if west then negℤ n else n

abbrev of_parts : Bool → Option ℤ → Option ℤ → Option ℤ
of_parts west (some h) (some m) = some (signed west (scaled h 3600 +ℤ scaled m 60))
of_parts west _ _ = none

-- The closure over the printed text.
unfoldable pub offset_of : Bytes → Option ℤ
offset_of s =
    if ltb (length s) 5
    then none
    else of_parts (starts_with_minus s) (parse_i64 (take 2 (drop 1 s)))
        (parse_i64 (take 2 (drop 3 s)))

abbrev or_zero : Option ℤ → ℤ
or_zero none = pos 0
or_zero (some n) = n

-- From the output of `date +%z`; none where the program does not run or its output is no UTF-8.
unfoldable pub local_utc_offset_secs : Option Bytes → ℤ
local_utc_offset_secs none = pos 0
local_utc_offset_secs (some printed) = or_zero (offset_of (trim printed))

-- The clock's seconds since 1970; none where it stands before.
abbrev pub seconds_since : Option ℕ → ℕ
seconds_since none = 0
seconds_since (some secs) = secs

unfoldable pub local_now : Option ℕ → Option Bytes → Civil
local_now clock printed =
    civil_from_unix (pos (seconds_since clock) +ℤ local_utc_offset_secs printed)

unfoldable pub iso8601_local_now : Option ℕ → Option Bytes → Bytes
iso8601_local_now clock printed = iso8601 (local_now clock printed)
