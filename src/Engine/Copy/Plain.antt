-- ===== src/Engine/Copy/Plain.antt =====
-- Paths that no transfer uses for its working files.
use omafile.Prelude.{
  ℕ, Bytes, codes, [], ◌∷◌, length, length-append, ◌≢◌, ap, arith, list_eq, nat_eq,
}
use omafile.Paths.{FilePath, name_or_empty}
use omafile.Paths.Sibling.{below-root}
use omafile.Host.Machine.{Host}
use omafile.Host.Calls.{dir_of}
use omafile.FsOps.{temp_path_for}
use omafile.Journal.{Journal, path_for, part_for}
use omafile.Journal.Keeps.{IsOutside, IsAside, IsAside-outside}

-- A path that is no transfer's temporary file.
abbrev pub IsPlain : FilePath → Type 0
IsPlain q = (d : FilePath) → q ≢ temp_path_for d

-- A name that does not begin with a dot is no temporary file's.
pub IsPlain-undotted :
    (c : ℕ) (name : Bytes) (dir : FilePath) → c ≢ b'.' → IsPlain ((c ∷ name) ∷ dir)
unfolding temp_path_for
IsPlain-undotted c name dir ne d e = ne (cc)

pub IsPlain-root : IsPlain []
unfolding temp_path_for
IsPlain-root d e = cc

-- No path is its own temporary file, which has a longer name.
pub ne-temp : (p : FilePath) → p ≢ temp_path_for p
unfolding temp_path_for
ne-temp [] e = cc
ne-temp (name ∷ dir) e =
    omega
      (arith, ap (λ (q : FilePath). length (name_or_empty q)) e, length-append name (codes ".part"))

module _ (host : Host) (journal : Journal) where
  pub IsAside-root : (d : FilePath) → IsAside host journal [] d
  unfolding path_for part_for
  IsAside-root d = record { entry = below-root _ _; part = below-root _ _ }

  pub IsAside-dir : (p d : FilePath) → IsOutside journal (dir_of p) → IsAside host journal p d
  unfolding dir_of
  IsAside-dir [] d h = IsAside-root d
  IsAside-dir (name ∷ dir) d h = IsAside-outside host journal dir name d h

  pub IsAside-temp :
      (p d : FilePath) → IsOutside journal (dir_of p) → IsAside host journal (temp_path_for p) d
  unfolding temp_path_for
  IsAside-temp p d h = IsAside-outside host journal (dir_of p) _ d h
