-- ===== src/Trash/Restore.antt =====
-- daemon/src/trash.rs: `restore` and `delete_permanently`. `String::from_utf8_lossy` and the check
-- that a text is UTF-8 are parameters.
pub mod Undone
pub mod RoundTrip
pub mod Removal
pub mod Erased
use omafile.Prelude.{
  ℕ, Bytes, codes, List, [], ◌∷◌, Bool, true, false, Option, none, some, if◌then◌else◌, Result, ok,
  err, Exec, pure, raise, attempt, discard, lift_err, ◌>>=◌, ◌>>◌,
}
use omafile.Paths.{FilePath}
use omafile.Paths.Text.{path_of, lines, strip_prefix}
use omafile.Error.{IoError, TransferError, io, invalid_data}
use omafile.Host.Machine.{World, Host}
use omafile.Host.Calls.{read_file, rename, remove_file, settle}
use omafile.Host.Dirs.{create_dir_all, is_dir_at, remove_dir_all}
use omafile.Trash.Escape.{uri_unescape}
use omafile.Trash.Bin.{Disposal, permanent}

module _ (from_utf8_lossy : Bytes → Bytes) where
  abbrev pub taken : Option FilePath → Option Bytes → Option FilePath
  taken original none = original
  taken original (some v) = some (path_of (uri_unescape from_utf8_lossy v))

  -- The loop over the lines: the last `Path=` counts.
  unfoldable pub original_in : List Bytes → Option FilePath → Option FilePath
  original_in [] original = original
  original_in (line ∷ rest) original =
      original_in rest (taken original (strip_prefix (codes "Path=") line))

module _ (host : Host) where
  abbrev pub as_text : Bool → Bytes → Exec World IoError Bytes
  as_text true raw = pure raw
  as_text false raw = raise invalid_data

  -- `read_to_string`
  unfoldable pub read_to_string : (Bytes → Bool) → FilePath → Exec World IoError Bytes
  read_to_string is_utf8 p = do raw ← read_file host p; as_text (is_utf8 raw) raw

  -- `if let Some(parent)`
  abbrev pub make_parent : FilePath → Exec World IoError (Unit {0})
  make_parent [] = pure tt
  make_parent (name ∷ d) = create_dir_all host d

  abbrev pub put_back : FilePath → FilePath → Option FilePath → Exec World TransferError FilePath
  put_back trashed_as info none = raise (io invalid_data)
  put_back trashed_as info (some original) = do
    lift_err io (make_parent original)
    lift_err io (rename host trashed_as original)
    discard (remove_file host info)
    pure original

  unfoldable pub restore :
      (Bytes → Bytes) → (Bytes → Bool) → FilePath → FilePath → Exec World TransferError FilePath
  restore from_utf8_lossy is_utf8 trashed_as info = do
    raw ← lift_err io (read_to_string is_utf8 info)
    put_back trashed_as info (original_in from_utf8_lossy (lines raw) none)

  unfoldable pub delete_permanently :
      (ℕ → FilePath → Bool) → FilePath → Exec World TransferError Disposal
  delete_permanently spared path = do
    directory ← is_dir_at host path
    if directory
        then lift_err io (remove_dir_all host spared path)
        else lift_err io (remove_file host path)
    pure permanent
