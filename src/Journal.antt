-- ===== src/Journal.antt =====
-- daemon/src/journal.rs: the durable record of work that has not finished. Serde's encoding and the
-- digest are the host's; a path always encodes.
pub mod Keeps
pub mod Recorded
use omafile.Prelude.{
  ℕ, ◌/◌, ◌%◌, ◌+◌, Bytes, codes, List, [], ◌∷◌, ◌++◌, Option, none, some, ltb, ◌==◌, list_eq,
  nat_eq, if◌then◌else◌, Result, ok, err, Exec, pure, raise, attempt, ◌>>=◌, ◌>>◌,
}
use omafile.Paths.{FilePath, child, display, name_or_empty}
use omafile.Paths.Name.{extension}
use omafile.Error.{IoError, not_found, errno}
use omafile.Host.Machine.{Node, dir, World, Host, Entry}
use omafile.Host.Dirs.{create_dir_all}
use omafile.Host.Calls.{guarded, open_read, sync_all, rename, remove_file, read_file, write_file}

-- One lower-case hexadecimal digit.
unfoldable pub hex_char : ℕ → ℕ
hex_char n = if ltb n 10 then n + 48 else n + 87

-- `{:x}` of a digest.
unfoldable pub hex : Bytes → Bytes
unfolding hex_char
hex [] = []
hex (b ∷ bs) = hex_char (b / 16) ∷ hex_char (b % 16) ∷ hex bs

pub record Journal : Type 0 where
  pub folder : FilePath

-- The folder, from the variable's value and the home directory.
abbrev pub default_folder : Option FilePath → FilePath → FilePath
default_folder none home =
    child (child (child (child home (codes ".local")) (codes "state")) (codes "omafile"))
      (codes "journal")
default_folder (some base) home = child (child base (codes "omafile")) (codes "journal")

module _ (host : Host) where
  unfoldable pub open_at : FilePath → Exec World IoError Journal
  open_at folder = do create_dir_all host folder; pure (record { folder = folder })

  abbrev pub open_default : Option FilePath → FilePath → Exec World IoError Journal
  open_default state_home home = open_at (default_folder state_home home)

module _ (host : Host) (journal : Journal) where
  unfoldable pub path_for : FilePath → FilePath
  path_for destination =
      child journal.folder (hex (host.sha256 (display destination)) ++ codes ".json")

  -- `with_extension("json.part")` on that path.
  unfoldable pub part_for : FilePath → FilePath
  part_for destination =
      child journal.folder (hex (host.sha256 (display destination)) ++ codes ".json.part")

  unfoldable pub record_entry : Entry → Exec World IoError (Unit {0})
  record_entry e = do
    write_file host (part_for e.destination) (host.to_vec_pretty e)
    open_read host (part_for e.destination)
    sync_all host (part_for e.destination)
    rename host (part_for e.destination) (path_for e.destination)

  abbrev pub decoded : Result IoError Bytes → Option Entry
  decoded (ok raw) = host.from_slice raw
  decoded (err e) = none

  unfoldable pub get : {E : Type 0} → FilePath → Exec World E (Option Entry)
  get destination = do raw ← attempt (read_file host (path_for destination)); pure (decoded raw)

  abbrev pub cleared : Result IoError (Unit {0}) → Exec World IoError (Unit {0})
  cleared (ok _) = pure tt
  cleared (err not_found) = pure tt
  cleared (err e) = raise e

  unfoldable pub clear : FilePath → Exec World IoError (Unit {0})
  clear destination = do r ← attempt (remove_file host (path_for destination)); cleared r

  abbrev with_entry : Option Entry → List Entry → List Entry
  with_entry none out = out
  with_entry (some e) out = out ++ (e ∷ [])

  -- The loop over the directory. A file that is no record is passed over.
  unfoldable pub collect :
      List (Result IoError FilePath) → List Entry → Exec World IoError (List Entry)
  collect [] out = pure out
  collect (err e ∷ rest) out = raise e
  collect (ok p ∷ rest) out =
      if extension (name_or_empty p) == codes "json"
      then (do raw ← attempt (read_file host p); collect rest (with_entry (decoded raw) out))
      else collect rest out

  abbrev listed :
      List (Result IoError FilePath)
      → Option Node
      → Exec World IoError (List (Result IoError FilePath))
  listed names none w = (err not_found, w)
  listed names (some dir) w = (ok names, w)
  listed names (some _) w = (err (errno 20), w)

  -- `fs::read_dir`
  unfoldable pub read_dir : FilePath → Exec World IoError (List (Result IoError FilePath))
  unfolding guarded
  read_dir p = guarded host (λ w. listed (host.listing w.clock w.files p) (w.files p) w)

  unfoldable pub unfinished : Exec World IoError (List Entry)
  unfinished = do names ← read_dir journal.folder; collect names []
