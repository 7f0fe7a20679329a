-- ===== src/Prelude/Parse.antt =====
-- `str::parse` at the integer types that the daemon parses.
use Prim.Native.Nat.{ℕ, ◌+◌, ◌-◌, ◌*◌, ◌^◌}
use mathlib.Core.Bool.{Bool, ◌&&◌}
use mathlib.Core.Option.{Option, none, some}
use mathlib.Core.List.{[], ◌∷◌}
use omafile.Prelude.Equality.{◌==◌, nat_eq}
use omafile.Prelude.Tests.{leb, if◌then◌else◌}
use omafile.Prelude.Lists.{Bytes}
use omafile.Prelude.Integers.{ℤ, pos, negated}

abbrev is_digit : ℕ → Bool
is_digit c = leb 48 c && leb c 57

-- The number that digits write, after some that were read before.
unfoldable pub digits_value : ℕ → Bytes → Option ℕ
digits_value read [] = some read
digits_value read (c ∷ cs) =
    let more = digits_value (read * 10 + (c - 48)) cs in if is_digit c then more else none

abbrev unsigned : Bytes → Option ℕ
unsigned [] = none
unsigned (c ∷ cs) = digits_value 0 (c ∷ cs)

abbrev at_most : ℕ → Option ℕ → Option ℕ
at_most most none = none
at_most most (some n) = if leb n most then some n else none

abbrev as_positive : Option ℕ → Option ℤ
as_positive none = none
as_positive (some n) = some (pos n)

abbrev as_negative : Option ℕ → Option ℤ
as_negative none = none
as_negative (some n) = some (negated n)

-- A sign `+` is allowed.
unfoldable pub parse_u32 : Bytes → Option ℕ
unfolding digits_value
parse_u32 [] = none
parse_u32 (c ∷ cs) =
    if c == 43 then at_most (2 ^ 32 - 1) (unsigned cs) else at_most (2 ^ 32 - 1) (unsigned (c ∷ cs))

-- At an integer type from -`half` to `half` - 1.
abbrev parse_signed : ℕ → Bytes → Option ℤ
unfolding digits_value
parse_signed half [] = none
parse_signed half (c ∷ cs) =
    if c == 43
    then as_positive (at_most (half - 1) (unsigned cs))
    else if c == 45
    then as_negative (at_most half (unsigned cs))
    else as_positive (at_most (half - 1) (unsigned (c ∷ cs)))

unfoldable pub parse_i32 : Bytes → Option ℤ
unfolding digits_value
parse_i32 s = parse_signed (2 ^ 31) s

unfoldable pub parse_i64 : Bytes → Option ℤ
unfolding digits_value
parse_i64 s = parse_signed (2 ^ 63) s
