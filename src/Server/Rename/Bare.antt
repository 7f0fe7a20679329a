-- ===== src/Server/Rename/Bare.antt =====
-- daemon/src/server.rs: names that `rename_in_place` takes, and what `contains` says of a text.
use omafile.Prelude.{
  ℕ, Bytes, codes, [], ◌∷◌, Bool, true, false, ◌||◌, refl, list_eq, ◌==◌, nat_eq, ==_iff,
  Bool-cases, ◌≡◌, ◌≢◌, inl, inr, arith,
}
use omafile.Paths.{FilePath}
use omafile.Paths.Join.{join, join-child}
use omafile.Paths.Text.{IsFree}
use omafile.Server.Rename.{contains}

-- A name that is one component of a path and that a file can have.
abbrev pub IsBare : Bytes → Type 0
IsBare name =
    (name ≢ []) × (IsFree b'/' name × (IsFree 0 name × ((name ≢ codes ".") × (name ≢ codes ".."))))

other : (c x : ℕ) → (x == c) ≡ false → x ≢ c
other c x e same = ground (arith, e, same)

or_left : (a b : Bool) → (a || b) ≡ false → a ≡ false
or_left true b e = e
or_left false b e = refl

or_right : (a b : Bool) → (a || b) ≡ false → b ≡ false
or_right true b e = ground (arith, e)
or_right false b e = e

pub contains-IsFree : (c : ℕ) (s : Bytes) → contains c s ≡ false → IsFree c s
unfolding contains
contains-IsFree c [] h = tt
contains-IsFree c (x ∷ s) h = elim (Bool-cases (x == c)) [
  | inl e ↦ ground arith
  | inr e ↦ (other c x e, contains-IsFree c s (ground (arith, e, h)))
]

pub contains-true : (c : ℕ) (s : Bytes) → contains c s ≡ true → ¬ IsFree c s
unfolding contains
contains-true c [] h free = ground arith
contains-true c (x ∷ s) h (ne, free) = elim (Bool-cases (x == c)) [
  | inl e ↦ ne ((==_iff x c).0 e)
  | inr e ↦ contains-true c s (ground (arith, e, h)) free
]

unequal : (a b : Bytes) → (a == b) ≡ false → a ≢ b
unequal a b h e = ground (arith, (==_iff a b).1 e, h)

-- The tests that a name passes say that it is one.
pub tests-IsBare :
    (name : Bytes)
    → (name == []) ≡ false
    → (contains b'/' name || contains 0 name) ≡ false
    → (name == codes "." || name == codes "..") ≡ false
    → IsBare name
tests-IsBare name filled clean plain = (
  unequal name [] filled,
  (
    contains-IsFree b'/' name (or_left (contains b'/' name) (contains 0 name) clean),
    (
      contains-IsFree 0 name (or_right (contains b'/' name) (contains 0 name) clean),
      (
        unequal name (codes ".") (or_left (name == codes ".") (name == codes "..") plain),
        unequal name (codes "..") (or_right (name == codes ".") (name == codes "..") plain),
      ),
    ),
  ),
)

pub join-IsBare : (dir : FilePath) (name : Bytes) → IsBare name → join dir name ≡ name ∷ dir
join-IsBare dir name (filled, (free, (_, (here, up)))) = join-child dir name free filled here up
