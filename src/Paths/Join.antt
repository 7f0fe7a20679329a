-- ===== src/Paths/Join.antt =====
-- `Path::join`, by the components of the text.
use omafile.Prelude.{
  Bytes, codes, List, [], ◌∷◌, Bool, false, ◌==◌, list_eq, nat_eq, ==_ne, if◌then◌else◌, ◌≡◌, ◌≢◌,
  refl,
}
use omafile.Paths.{FilePath, child}
use omafile.Paths.Text.{split, is_void, IsFree, split-free}

abbrev above : FilePath → FilePath
above [] = []
above (name ∷ dir) = dir

-- The directory that a component leads to from another, as the system finds it without links.
abbrev followed : Bytes → FilePath → FilePath
followed name dir =
    if is_void name then dir else if name == codes ".." then above dir else child dir name

unfoldable pub follow : List Bytes → FilePath → FilePath
follow [] dir = dir
follow (name ∷ names) dir = follow names (followed name dir)

abbrev is_absolute : Bytes → Bool
is_absolute [] = false
is_absolute (c ∷ text) = c == b'/'

-- `dir.join(text)`: an absolute text is taken from the root.
unfoldable pub join : FilePath → Bytes → FilePath
join dir text = follow (split b'/' text) (if is_absolute text then [] else dir)

relative : (text : Bytes) → IsFree b'/' text → is_absolute text ≡ false
relative [] h = refl
relative (c ∷ text) (ne, _) = ==_ne c b'/' ne

-- A bare name is one component.
pub join-child :
    (dir : FilePath) (name : Bytes)
    → IsFree b'/' name
    → name ≢ []
    → name ≢ codes "."
    → name ≢ codes ".."
    → join dir name ≡ child dir name
unfolding join follow
join-child dir name free filled here up =
    rw
      (
        relative name free,
        split-free b'/' name free,
        ==_ne name [] filled,
        ==_ne name (codes ".") here,
        ==_ne name (codes "..") up,
      )
      refl
