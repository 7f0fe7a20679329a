-- ===== src/Trash/Escape.antt =====
-- daemon/src/trash.rs: `uri_escape`, `uri_unescape` and `hex_digit`. `String::from_utf8_lossy` is a
-- parameter; a byte string that is UTF-8 it leaves as it is.
pub mod RoundTrip
use omafile.Prelude.{
  ℕ, ◌+◌, ◌-◌, ◌*◌, ◌/◌, ◌%◌, Bytes, [], ◌∷◌, Bool, ◌&&◌, ◌||◌, Option, none, some, ltb, leb, ◌==◌,
  nat_eq, if◌then◌else◌,
}

abbrev pub between : ℕ → ℕ → ℕ → Bool
between low high b = leb low b && leb b high

-- The bytes that need no escape.
unfoldable pub is_unreserved : ℕ → Bool
is_unreserved b =
    between b'A' b'Z' b
    || (between b'a' b'z' b
        || (between b'0' b'9' b
            || (b == b'/' || (b == b'-' || (b == b'_' || (b == b'.' || b == b'~'))))))

-- One upper-case hexadecimal digit.
unfoldable pub upper_hex : ℕ → ℕ
upper_hex n = if ltb n 10 then n + 48 else n + 55

unfoldable pub uri_escape : Bytes → Bytes
uri_escape [] = []
uri_escape (b ∷ s) =
    let out = uri_escape s in
    if is_unreserved b then b ∷ out else b'%' ∷ upper_hex (b / 16) ∷ upper_hex (b % 16) ∷ out

unfoldable pub hex_digit : ℕ → Option ℕ
hex_digit b =
    if between b'0' b'9' b
    then some (b - b'0')
    else if between b'a' b'f' b
    then some (b - b'a' + 10)
    else if between b'A' b'F' b
    then some (b - b'A' + 10)
    else none

abbrev pub two_digits : Option ℕ → Option ℕ → Option ℕ
two_digits (some hi) (some lo) = some (hi * 16 + lo)
two_digits _ _ = none

-- The byte that three bytes stand for, if they are an escape.
unfoldable pub escaped : ℕ → ℕ → ℕ → Option ℕ
escaped c hi lo = if c == b'%' then two_digits (hex_digit hi) (hex_digit lo) else none

-- The loop: over what is left of the text, where `i + 2 < b.len()` is that two bytes follow.
unfoldable pub unescaped : Bytes → Bytes
unescaped [] = []
unescaped (c ∷ []) = c ∷ []
unescaped (c ∷ d ∷ []) = c ∷ d ∷ []
unescaped (c ∷ hi ∷ lo ∷ rest) = elim (escaped c hi lo) [
  | some byte ↦ byte ∷ unescaped rest
  | none ↦ c ∷ unescaped (hi ∷ lo ∷ rest)
]

unfoldable pub uri_unescape : (Bytes → Bytes) → Bytes → Bytes
uri_unescape from_utf8_lossy s = from_utf8_lossy (unescaped s)
