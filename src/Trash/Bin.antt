-- ===== src/Trash/Bin.antt =====
-- daemon/src/trash.rs: the trash and its files. The trash's root and the date of deletion are given.
pub mod Kept
pub mod Recorded
pub mod Refused
use omafile.Prelude.{
  ℕ, zero, suc, Bytes, codes, List, [], ◌∷◌, ◌++◌, Bool, true, false, Option, none, some, decimal,
  ◌==◌, nat_eq, if◌then◌else◌, Result, ok, err, Exec, pure, raise, attempt, discard, lift_err,
  ◌>>=◌, ◌>>◌,
}
use omafile.Paths.{FilePath, display, child}
use omafile.Error.{IoError, TransferError, io, already_exists}
use omafile.Host.Machine.{Node, World, Host}
use omafile.Host.Calls.{stat, exists, dir_of, rename, remove_file, write_file}
use omafile.Host.Dirs.{create_dir_all}
use omafile.Trash.Escape.{uri_escape}

pub data Disposal : Type 0 where
  trashed : FilePath → FilePath → Disposal
  permanent : Disposal

-- `home_trash`, from the variable's value and the home directory.
unfoldable pub home_trash : Option FilePath → FilePath → FilePath
home_trash none home = child (child (child home (codes ".local")) (codes "share")) (codes "Trash")
home_trash (some base) home = child base (codes "Trash")

abbrev pub anchor_of : FilePath → Bool → FilePath
anchor_of root there = if there then root else dir_of root

abbrev pub candidate : Bytes → ℕ → Bytes
candidate stem zero = stem
candidate stem (suc n) = stem ++ (codes "." ++ decimal (suc n))

abbrev pub info_at : FilePath → Bytes → FilePath
info_at root name = child (child root (codes "info")) (name ++ codes ".trashinfo")

abbrev pub file_at : FilePath → Bytes → FilePath
file_at root name = child (child root (codes "files")) name

abbrev pub stem_of : FilePath → Bytes
stem_of [] = codes "file"
stem_of (name ∷ d) = name

-- The text of a `.trashinfo`.
unfoldable pub trash_info : FilePath → Bytes → Bytes
trash_info original now =
    codes "[Trash Info]"
    ++ (10
        ∷ (codes "Path="
            ++ (uri_escape (display original)
                ++ (10 ∷ (codes "DeletionDate=" ++ (now ++ (10 ∷ [])))))))

module _ (host : Host) where
  -- `dev()` of two paths' metadata, if both can be read.
  abbrev pub one_device : FilePath → FilePath → Result IoError Node → Result IoError Node → Bool
  one_device p q (ok _) (ok _) = host.device p == host.device q
  one_device p q _ _ = false

  unfoldable pub can_trash_in : {E : Type 0} → FilePath → FilePath → Exec World E Bool
  can_trash_in root path = do
    there ← exists host root
    a ← attempt (stat host (dir_of path))
    b ← attempt (stat host (anchor_of root there))
    pure (one_device (dir_of path) (anchor_of root there) a b)

  -- The loop from number `n` on, with the rounds that are left.
  unfoldable pub unique_name : FilePath → Bytes → ℕ → ℕ → Exec World IoError Bytes
  unique_name root stem zero n = raise already_exists
  unique_name root stem (suc rounds) n = do
    taken ← exists host (file_at root (candidate stem n))
    if taken then unique_name root stem rounds (suc n) else (do
      recorded ← exists host (info_at root (candidate stem n))
      if recorded then unique_name root stem rounds (suc n) else pure (candidate stem n))

  -- `canonicalize`, or the path itself: there are no links, so that they agree.
  unfoldable pub canonical : {E : Type 0} → FilePath → Exec World E FilePath
  canonical path = do attempt {F = IoError} (stat host path); pure path

  abbrev pub settled :
      FilePath → FilePath → Result IoError (Unit {0}) → Exec World TransferError Disposal
  settled dest info (ok _) = pure (trashed dest info)
  settled dest info (err e) = do discard (remove_file host info); raise (io e)

  -- From the unique name on.
  unfoldable pub trash_as : FilePath → FilePath → Bytes → Bytes → Exec World TransferError Disposal
  trash_as root path now name = do
    original ← canonical path
    lift_err io (write_file host (info_at root name) (trash_info original now))
    r ← attempt (rename host path (file_at root name))
    settled (file_at root name) (info_at root name) r

  unfoldable pub trash_where :
      FilePath → FilePath → Bytes → Bool → Exec World TransferError Disposal
  trash_where root path now false = pure permanent
  trash_where root path now true = do
    lift_err io (create_dir_all host (child root (codes "files")))
    lift_err io (create_dir_all host (child root (codes "info")))
    name ← lift_err io (unique_name root (stem_of path) 10000 0)
    trash_as root path now name

  unfoldable pub trash_in : FilePath → FilePath → Bytes → Exec World TransferError Disposal
  trash_in root path now = do can ← can_trash_in root path; trash_where root path now can

  -- `can_trash` and `trash`, by the variable's value and the home directory.
  abbrev pub can_trash : {E : Type 0} → Option FilePath → FilePath → FilePath → Exec World E Bool
  can_trash data_home home path = can_trash_in (home_trash data_home home) path

  abbrev pub trash :
      Option FilePath → FilePath → FilePath → Bytes → Exec World TransferError Disposal
  trash data_home home path now = trash_in (home_trash data_home home) path now
