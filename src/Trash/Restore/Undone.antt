-- ===== src/Trash/Restore/Undone.antt =====
-- What a trash record says is read back, so that restoring undoes trashing.
use omafile.Prelude.{
  ℕ, ◌/◌, ◌%◌, ◌<◌, Bytes, codes, [], ◌∷◌, ◌++◌, true, none, some, nat_eq, list_eq, Bool-cases, ◌≡◌,
  inl, inr, refl, ap, ◌∙◌, arith,
}
use omafile.Paths.{FilePath, display}
use omafile.Paths.Text.{
  lines, split, split-append, split-free, strip_prefix, IsFree, AreNames, path_of-display,
  drop_cr-free,
}
use omafile.Trash.Escape.{uri_escape, is_unreserved, upper_hex}
use omafile.Trash.Escape.RoundTrip.{AreBytes, uri_unescape-uri_escape}
use omafile.Trash.Bin.{trash_info}
use omafile.Trash.Restore.{original_in}

unreserved_high : (b : ℕ) → is_unreserved b ≡ true → 33 < b
unfolding is_unreserved
unreserved_high b h = ground arith

upper_hex_high : (d : ℕ) → 33 < upper_hex d
unfolding upper_hex
upper_hex_high d = ground arith

-- No control character stands in an escaped text.
IsFree-uri_escape : (at : ℕ) (s : Bytes) → at < 33 → IsFree at (uri_escape s)
unfolding uri_escape
IsFree-uri_escape at [] h = tt
IsFree-uri_escape at (b ∷ s) h = elim (Bool-cases (is_unreserved b)) [
  | inl e ↦ rw e (λ x. omega (arith, unreserved_high b e), IsFree-uri_escape at s h)
  | inr e ↦ rw e (
    λ x. omega arith,
    (
      λ x. omega (arith, upper_hex_high (b / 16)),
      (λ x. omega (arith, upper_hex_high (b % 16)), IsFree-uri_escape at s h),
    ),
  )
]

IsFree-append : (at : ℕ) (s t : Bytes) → IsFree at s → IsFree at t → IsFree at (s ++ t)
IsFree-append at [] t h k = k
IsFree-append at (c ∷ s) t (ne, h) k = (ne, IsFree-append at s t h k)

abbrev head_line : Bytes
head_line = codes "[Trash Info]"

abbrev path_line : Bytes → Bytes
path_line e = codes "Path=" ++ e

abbrev date_line : Bytes → Bytes
date_line now = codes "DeletionDate=" ++ now

three_lines :
    (a b c : Bytes)
    → IsFree 10 a
    → IsFree 10 b
    → IsFree 10 c
    → split 10 (a ++ (10 ∷ (b ++ (10 ∷ (c ++ (10 ∷ [])))))) ≡ a ∷ b ∷ c ∷ [] ∷ []
unfolding split
three_lines a b c p q r =
    split-append 10 a _
    ∙ (rw (split-free 10 a p) (
        ap (λ t. a ∷ t)
          (split-append 10 b _
            ∙ (rw (split-free 10 b q)
                (ap (λ t. b ∷ t) (split-append 10 c [] ∙ rw (split-free 10 c r) refl))))))

-- A date's text.
abbrev pub IsLine : Bytes → Type 0
IsLine s = IsFree 10 s × IsFree 13 s

lines-trash_info :
    (p : FilePath) (now : Bytes)
    → IsLine now
    → lines (trash_info p now) ≡ head_line ∷ path_line (uri_escape (display p)) ∷ date_line now ∷ []
unfolding lines trash_info
lines-trash_info p now (no_lf, no_cr) =
    let e = uri_escape (display p) in
    rw
      (three_lines head_line (path_line e) (date_line now) (omega arith)
        (IsFree-append 10 (codes "Path=") e (omega arith) (IsFree-uri_escape 10 _ (omega arith)))
        (IsFree-append 10 (codes "DeletionDate=") now (omega arith) no_lf))
      (rw
        (
          drop_cr-free (path_line e) (
              IsFree-append 13 (codes "Path=") e (omega arith)
                (IsFree-uri_escape 13 _ (omega arith))),
          drop_cr-free (date_line now)
              (IsFree-append 13 (codes "DeletionDate=") now (omega arith) no_cr),
        )
        refl)

-- The record that is written of a trashed path gives the path back.
-- It holds where the path's names are names and in UTF-8, and the date is one line.
pub original_in-trash_info :
    (from_utf8_lossy : Bytes → Bytes) (p : FilePath) (now : Bytes)
    → AreNames p
    → AreBytes (display p)
    → from_utf8_lossy (display p) ≡ display p
    → IsLine now
    → original_in from_utf8_lossy (lines (trash_info p now)) none ≡ some p
unfolding original_in strip_prefix
original_in-trash_info from_utf8_lossy p now names bytes valid line =
    rw
      (
        lines-trash_info p now line,
        uri_unescape-uri_escape from_utf8_lossy (display p) bytes valid,
        path_of-display p names,
      )
      refl
