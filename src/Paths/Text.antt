-- ===== src/Paths/Text.antt =====
-- The text of a path, read back, and the lines of a text.
use omafile.Prelude.{
  ℕ, Bytes, codes, List, [], ◌∷◌, ◌++◌, Bool, false, ◌||◌, ◌==◌, list_beq, ==_ne, ==_refl, Option,
  none, some, list_eq, nat_eq, if◌then◌else◌, Bool-cases, ◌≡◌, ◌≢◌, inl, inr, refl, ap, ◌∙◌,
}
use omafile.Paths.{FilePath, display, child}

abbrev first_to : ℕ → List Bytes → List Bytes
first_to c [] = (c ∷ []) ∷ []
first_to c (x ∷ xs) = (c ∷ x) ∷ xs

-- A text cut at each separator.
unfoldable pub split : ℕ → Bytes → List Bytes
split at [] = [] ∷ []
split at (c ∷ s) = let rest = split at s in if c == at then [] ∷ rest else first_to c rest

-- A component that `Path` passes over.
abbrev pub is_void : Bytes → Bool
is_void name = name == [] || name == codes "."

-- Components, the outermost first, from a directory on.
unfoldable pub enter : List Bytes → FilePath → FilePath
enter [] d = d
enter (name ∷ names) d = enter names (if is_void name then d else child d name)

-- `PathBuf::from` an absolute text.
unfoldable pub path_of : Bytes → FilePath
path_of text = enter (split b'/' text) []

-- A byte that does not stand in a text.
abbrev pub IsFree : ℕ → Bytes → Type 0
IsFree at [] = Unit {0}
IsFree at (c ∷ s) = (c ≢ at) × IsFree at s

pub split-free : (at : ℕ) (s : Bytes) → IsFree at s → split at s ≡ s ∷ []
unfolding split
split-free at [] h = refl
split-free at (c ∷ s) (ne, h) = rw (==_ne c at ne, split-free at s h) refl

split-cons : (at : ℕ) (s : Bytes) → (x : Bytes) × ((xs : List Bytes) × (split at s ≡ x ∷ xs))
unfolding split
split-cons at [] = ([], ([], refl))
split-cons at (c ∷ s) = elim (Bool-cases (c == at)) [
  | inl e ↦ ([], (split at s, rw e refl))
  | inr e ↦ let (x, (xs, more)) = split-cons at s in (c ∷ x, (xs, rw (e, more) refl))
]

first_to-split :
    (at c : ℕ) (s : Bytes) (rest : List Bytes)
    → first_to c (split at s ++ rest) ≡ first_to c (split at s) ++ rest
first_to-split at c s rest = let (x, (xs, e)) = split-cons at s in rw e refl

pub split-append : (at : ℕ) (s t : Bytes) → split at (s ++ (at ∷ t)) ≡ split at s ++ split at t
unfolding split
split-append at [] t = rw (==_refl at) refl
split-append at (c ∷ s) t = elim (Bool-cases (c == at)) [
  | inl e ↦ rw (e, split-append at s t) refl
  | inr e ↦ rw (e, split-append at s t) (first_to-split at c s (split at t))
]

enter-append : (xs ys : List Bytes) (d : FilePath) → enter (xs ++ ys) d ≡ enter ys (enter xs d)
unfolding enter
enter-append [] ys d = refl
enter-append (x ∷ xs) ys d = enter-append xs ys (if is_void x then d else child d x)

-- A name that a path can hold.
abbrev pub IsName : Bytes → Type 0
IsName name = (is_void name ≡ false) × IsFree b'/' name

abbrev pub AreNames : FilePath → Type 0
AreNames [] = Unit {0}
AreNames (name ∷ d) = IsName name × AreNames d

-- A path's text, from which it is read back.
path_of-child :
    (text name : Bytes) → IsName name → path_of (text ++ (b'/' ∷ name)) ≡ child (path_of text) name
unfolding path_of enter
path_of-child text name (solid, free) =
    rw
      (
        split-append b'/' text name,
        split-free b'/' name free,
        enter-append (split b'/' text) (name ∷ []) [],
        solid,
      )
      refl

path_of-root : (path_of (codes "/") ≡ []) × (path_of [] ≡ [])
unfolding path_of split enter list_beq
path_of-root = (refl, refl)

pub path_of-display : (p : FilePath) → AreNames p → path_of (display p) ≡ p
unfolding display
path_of-display [] h = path_of-root.0
path_of-display (name ∷ []) (h, _) = path_of-child [] name h ∙ ap (λ d. child d name) path_of-root.1
path_of-display (name ∷ (up ∷ dir)) (h, hs) =
    path_of-child (display (up ∷ dir)) name h
    ∙ ap (λ d. child d name) (path_of-display (up ∷ dir) hs)

abbrev pub drop_cr : Bytes → Bytes
drop_cr [] = []
drop_cr (c ∷ []) = if c == 13 then [] else c ∷ []
drop_cr (c ∷ s) = c ∷ drop_cr s

-- A carriage return goes with the line break after it.
abbrev pub ended : List Bytes → List Bytes
ended [] = []
ended ([] ∷ []) = []
ended ((c ∷ s) ∷ []) = (c ∷ s) ∷ []
ended (x ∷ (y ∷ ys)) = drop_cr x ∷ ended (y ∷ ys)

-- `str::lines`
unfoldable pub lines : Bytes → List Bytes
lines text = ended (split 10 text)

-- `strip_prefix`
unfoldable pub strip_prefix : Bytes → Bytes → Option Bytes
strip_prefix [] s = some s
strip_prefix (c ∷ p) [] = none
strip_prefix (c ∷ p) (x ∷ s) = let rest = strip_prefix p s in if c == x then rest else none

pub strip_prefix-append : (p s : Bytes) → strip_prefix p (p ++ s) ≡ some s
unfolding strip_prefix
strip_prefix-append [] s = refl
strip_prefix-append (c ∷ p) s = rw (==_refl c) (strip_prefix-append p s)

pub drop_cr-free : (s : Bytes) → IsFree 13 s → drop_cr s ≡ s
drop_cr-free [] h = refl
drop_cr-free (c ∷ []) (ne, _) = rw (==_ne c 13 ne) refl
drop_cr-free (c ∷ (x ∷ s)) (ne, h) = ap (λ t. c ∷ t) (drop_cr-free (x ∷ s) h)
