-- ===== src/Server/Rename.antt =====
-- daemon/src/server.rs: `rename_in_place`. The text of an io::Error is a parameter.
pub mod Bare
pub mod InPlace
use omafile.Prelude.{
  ℕ, Bytes, codes, List, [], ◌∷◌, ◌++◌, Bool, true, false, ◌||◌, ◌==◌, list_eq, nat_eq,
  if◌then◌else◌, Exec, pure, raise, lift_err, ◌>>=◌, ◌>>◌,
}
use omafile.Paths.{FilePath, display}
use omafile.Paths.Join.{join}
use omafile.Error.{IoError}
use omafile.Host.Machine.{World, Host}
use omafile.Host.Calls.{exists, rename}

unfoldable pub contains : ℕ → Bytes → Bool
contains c [] = false
contains c (x ∷ xs) = x == c || contains c xs

module _ (host : Host) (io_text : IoError → Bytes) where
  -- From the target on.
  unfoldable pub rename_to : FilePath → Bytes → FilePath → Exec World Bytes FilePath
  rename_to from new_name to = if to == from then pure to else (do
    taken ← exists host to
    if taken
        then raise (new_name ++ codes " already exists here")
        else (do lift_err io_text (rename host from to); pure to))

  abbrev pub rename_beside : FilePath → Bytes → Exec World Bytes FilePath
  rename_beside [] new_name = raise (codes "no parent directory")
  rename_beside (name ∷ dir) new_name = rename_to (name ∷ dir) new_name (join dir new_name)

  unfoldable pub rename_in_place : FilePath → Bytes → Exec World Bytes FilePath
  rename_in_place path new_name =
      if new_name == []
      then raise (codes "a name cannot be empty")
      else if contains b'/' new_name || contains 0 new_name
      then raise (codes "a name cannot contain a path separator")
      else if new_name == codes "." || new_name == codes ".."
      then raise (codes "'" ++ (new_name ++ codes "' is not a usable name"))
      else (do
        there ← exists host path
        if there
            then rename_beside path new_name
            else raise (display path ++ codes " no longer exists"))
