-- ===== src/Trash/Escape/RoundTrip.antt =====
-- What the escape writes, the unescape reads back; and what it writes is ASCII without a line break.
use omafile.Prelude.{
  ℕ, ◌/◌, ◌%◌, ◌<◌, Bytes, [], ◌∷◌, true, some, Bool-cases, nat_eq, ==_ne, ◌≡◌, ◌≢◌, inl, inr, refl,
  ap, ◌∙◌, arith,
}
use omafile.Trash.Escape.{
  is_unreserved, upper_hex, uri_escape, hex_digit, escaped, unescaped, uri_unescape,
}

-- Every byte of a text.
abbrev pub AreBytes : Bytes → Type 0
AreBytes [] = Unit {0}
AreBytes (b ∷ s) = (b < 256) × AreBytes s

hex_digit-upper_hex : (d : ℕ) → d < 16 → hex_digit (upper_hex d) ≡ some d
unfolding hex_digit upper_hex
hex_digit-upper_hex d h = ground arith

escaped-byte : (b : ℕ) → b < 256 → escaped b'%' (upper_hex (b / 16)) (upper_hex (b % 16)) ≡ some b
unfolding escaped
escaped-byte b h =
    rw (hex_digit-upper_hex (b / 16) (omega arith), hex_digit-upper_hex (b % 16) (omega arith))
      (ap some (omega arith))

unescaped-plain : (b : ℕ) (s : Bytes) → b ≢ b'%' → unescaped (b ∷ s) ≡ b ∷ unescaped s
unfolding unescaped escaped
unescaped-plain b [] h = refl
unescaped-plain b (c ∷ []) h = refl
unescaped-plain b (c ∷ d ∷ s) h = rw (unescaped, ==_ne b b'%' h) refl

unescaped-escape :
    (b : ℕ) (s : Bytes)
    → b < 256
    → unescaped (b'%' ∷ upper_hex (b / 16) ∷ upper_hex (b % 16) ∷ s) ≡ b ∷ unescaped s
unfolding unescaped
unescaped-escape b s h = rw (unescaped, escaped-byte b h) refl

percent_reserved : (b : ℕ) → is_unreserved b ≡ true → b ≢ b'%'
unfolding is_unreserved
percent_reserved b h = ground arith

unescaped-uri_escape : (s : Bytes) → AreBytes s → unescaped (uri_escape s) ≡ s
unfolding uri_escape unescaped
unescaped-uri_escape [] h = refl
unescaped-uri_escape (b ∷ s) (small, h) = elim (Bool-cases (is_unreserved b)) [
  | inl plain ↦ rw plain (
      unescaped-plain b (uri_escape s) (percent_reserved b plain)
      ∙ ap (λ t. b ∷ t) (unescaped-uri_escape s h))
  | inr other ↦
      rw other
        (unescaped-escape b (uri_escape s) small ∙ ap (λ t. b ∷ t) (unescaped-uri_escape s h))
]

-- A text of bytes that the decoder takes for UTF-8 comes back from its escaped form unchanged.
pub uri_unescape-uri_escape :
    (from_utf8_lossy : Bytes → Bytes) (s : Bytes)
    → AreBytes s
    → from_utf8_lossy s ≡ s
    → uri_unescape from_utf8_lossy (uri_escape s) ≡ s
unfolding uri_unescape
uri_unescape-uri_escape from_utf8_lossy s h valid =
    ap from_utf8_lossy (unescaped-uri_escape s h) ∙ valid
