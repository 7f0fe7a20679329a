-- ===== src/Journal/Keeps.antt =====
-- What the journal leaves alone: every path outside its folder.
use omafile.Prelude.{Bytes, none, ◌≡◌, ◌≢◌, sym, Result, ok, err}
use omafile.Prelude.Action.Post.{Keeps, keeps_rules}
use omafile.Paths.{FilePath, below, below-eq-none, child}
use omafile.Paths.Sibling.{below_outside}
use omafile.Error.{IoError, not_found}
use omafile.Host.Machine.{Entry, Host}
use omafile.Host.Calls.{write_file}
use omafile.Host.Reads.{read_file-Keeps}
use omafile.Host.Keeps.{
  node_at, remove_file-Keeps, create-Keeps, open_read-Keeps, write_all-Keeps, sync_all-Keeps,
  rename-Keeps,
}
use omafile.Journal.{Journal, path_for, part_for, record_entry, get, clear, cleared}

-- A directory outside the journal's folder.
abbrev pub IsOutside : Journal → FilePath → Type 0
IsOutside journal d = below journal.folder d ≡ none

module _ (host : Host) (journal : Journal) where
  -- A path that is neither a destination's record nor its part, nor inside one.
  pub record IsAside (q d : FilePath) : Type 0 where
    pub entry : below (path_for host journal d) q ≡ none
    pub part : below (part_for host journal d) q ≡ none

  pub IsAside-outside :
      (dir : FilePath) (name : Bytes) (d : FilePath)
      → IsOutside journal dir
      → IsAside (child dir name) d
  unfolding path_for part_for
  IsAside-outside dir name d h = record {
    entry = below_outside journal.folder _ dir name h;
    part = below_outside journal.folder _ dir name h;
  }

  pub get-Keeps : {E : Type 0} (q d : FilePath) → Keeps {E = E} (node_at q) (get host journal d)
  unfolding get
  get-Keeps q d = search (keeps_rules, read_file-Keeps)

  module _ (q d : FilePath) (aside : IsAside q d) where
    pub off_entry : q ≢ path_for host journal d
    off_entry e = below-eq-none _ q aside.entry (sym e)

    pub off_part : q ≢ part_for host journal d
    off_part e = below-eq-none _ q aside.part (sym e)

    cleared-Keeps : (r : Result IoError (Unit {0})) → Keeps (node_at q) (cleared host journal r)
    cleared-Keeps (ok u) = search keeps_rules
    cleared-Keeps (err not_found) = search keeps_rules
    cleared-Keeps (err e) = search keeps_rules

    pub clear-Keeps : Keeps (node_at q) (clear host journal d)
    unfolding clear
    clear-Keeps = search (keeps_rules, remove_file-Keeps, off_entry, cleared-Keeps)

    pub record_entry-Keeps :
        (e : Entry) → e.destination ≡ d → Keeps (node_at q) (record_entry host journal e)
    unfolding record_entry write_file
    record_entry-Keeps e h = rw h (
        search (
          keeps_rules, create-Keeps, write_all-Keeps, open_read-Keeps, sync_all-Keeps, rename-Keeps,
          off_part, aside.part, aside.entry,
        ))
