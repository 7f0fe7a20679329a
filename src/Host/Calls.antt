-- ===== src/Host/Calls.antt =====
-- The system calls that std::fs makes for the daemon, on the world of Host/Machine.
use omafile.Prelude.{
  ℕ, suc, ◌+◌, Bytes, List, [], ◌∷◌, ◌++◌, Bool, true, false, Option, none, some, length, take,
  drop, ◌==◌, list_eq, nat_eq, if◌then◌else◌, Result, ok, err, is_ok, Exec, pure, attempt, ◌>>=◌,
  ◌>>◌,
}
use omafile.Paths.{FilePath, below}
use omafile.Error.{IoError, not_found, errno}
use omafile.Host.Machine.{
  Node, file, dir, socket, Read, failed, payload, read_error, Phase, Files, World, Host,
}

abbrev pub tick : World → World
tick w = record w { clock = suc w.clock }

abbrev pub put_node : FilePath → Option Node → Files → Files
put_node p v files q = if q == p then v else files q

abbrev pub with_files : Files → World → World
with_files files w = record w { files = files }

-- The bytes of a file with some overwritten or added. The position is never past the end.
abbrev pub write_at : ℕ → Bytes → Bytes → Bytes
write_at at data_bytes old = take at old ++ (data_bytes ++ drop (at + length data_bytes) old)

-- Renaming a directory takes what is inside it along.
unfoldable pub relocate : FilePath → FilePath → Files → Files
relocate from to files q = elim (below to q) [
  | some rest ↦ files (rest ++ from)
  | none ↦ elim (below from q) [ some rest ↦ none | none ↦ files q ]
]

unfoldable pub dir_of : FilePath → FilePath
dir_of [] = []
dir_of (name ∷ d) = d

-- What a rename makes of the files.
unfoldable pub arrive : FilePath → FilePath → Node → Files → Files
unfolding relocate
arrive from to dir files = relocate from to files
arrive from to n files = put_node to (some n) (put_node from none files)

abbrev pub is_dir : Option Node → Bool
is_dir (some dir) = true
is_dir _ = false

abbrev pub overwrite : ℕ → Bytes → Option Node → Option Node
overwrite at data_bytes (some (file old durable)) = some (file (write_at at data_bytes old) false)
overwrite at data_bytes other = other

abbrev flushed : Option Node → Option Node
flushed (some (file content durable)) = some (file content true)
flushed other = other

-- A file may replace a file, and a directory an empty directory; the target's directory is there,
-- and no directory moves into itself.
abbrev may_replace : Node → Option Node → Bool → Bool → Bool → Option IoError
may_replace n old empty false inside = some not_found
may_replace dir old empty true true = some (errno 22)
may_replace dir none empty true false = none
may_replace dir (some dir) true true false = none
may_replace dir (some dir) false true false = some (errno 39)
may_replace dir (some _) empty true false = some (errno 20)
may_replace _ (some dir) empty true inside = some (errno 21)
may_replace _ _ empty true inside = none

abbrev is_inside : Option FilePath → Bool
is_inside (some (name ∷ rest)) = true
is_inside _ = false

module _ (host : Host) where
  -- A call that the machine may make fail before it has any effect.
  unfoldable pub guarded : {A : Type 0} → Exec World IoError A → Exec World IoError A
  guarded m w = elim (host.fault w.clock) [ some e ↦ (err e, tick w) | none ↦ m (tick w) ]

  abbrev found : Option Node → Exec World IoError Node
  found none w = (err not_found, w)
  found (some n) w = (ok n, w)

  -- `metadata`
  unfoldable pub stat : FilePath → Exec World IoError Node
  stat p w = elim (host.stat_fault w.clock) [
    | some e ↦ (err e, tick w)
    | none ↦ found (w.files p) (tick w)
  ]

  -- `Path::exists`: an error counts as absence.
  unfoldable pub exists : {E : Type 0} → FilePath → Exec World E Bool
  exists p = do r ← attempt (stat p); pure (is_ok r)

  -- `Metadata::len`
  unfoldable pub node_len : Node → ℕ
  node_len (file content durable) = length content
  node_len dir = host.dir_size
  node_len socket = 0

  abbrev pub removed : FilePath → Option Node → Exec World IoError (Unit {0})
  removed p none w = (err not_found, w)
  removed p (some dir) w = (err (errno 21), w)
  removed p (some _) w = (ok tt, with_files (put_node p none w.files) w)

  unfoldable pub remove_file : FilePath → Exec World IoError (Unit {0})
  unfolding guarded
  remove_file p = guarded (λ w. removed p (w.files p) w)

  abbrev created : FilePath → Option Node → Bool → Exec World IoError (Unit {0})
  created p (some dir) in_dir w = (err (errno 21), w)
  created p (some socket) in_dir w = (err (errno 6), w)
  created p (some (file c d)) in_dir w =
      (ok tt, with_files (put_node p (some (file [] false)) w.files) w)
  created p none true w = (ok tt, with_files (put_node p (some (file [] false)) w.files) w)
  created p none false w = (err not_found, w)

  -- `OpenOptions::new().write(true).create(true).truncate(true).open(p)`
  unfoldable pub create : FilePath → Exec World IoError (Unit {0})
  unfolding guarded dir_of
  create p = guarded (λ w. created p (w.files p) (is_dir (w.files (dir_of p))) w)

  abbrev opened : Option Node → Exec World IoError (Unit {0})
  opened none w = (err not_found, w)
  opened (some dir) w = (err (errno 21), w)
  opened (some socket) w = (err (errno 6), w)
  opened (some (file c d)) w = (ok tt, w)

  -- `OpenOptions::new().write(true).open(p)`
  unfoldable pub open_write : FilePath → Exec World IoError (Unit {0})
  unfolding guarded
  open_write p = guarded (λ w. opened (w.files p) w)

  -- `File::open`. A directory opens, and its reads fail.
  unfoldable pub open_read : FilePath → Exec World IoError Node
  unfolding guarded
  open_read p = guarded (λ w. found (w.files p) w)

  -- `seek` to a position within the file.
  unfoldable pub seek : Exec World IoError (Unit {0})
  unfolding guarded pure
  seek = guarded (pure tt)

  abbrev pub tape : ℕ → ℕ → Option Node → List Read
  tape t from (some (file content durable)) = host.reads t (drop from content)
  tape t from _ = failed (errno 21) ∷ []

  -- The results of the reads of an open file from a position on.
  unfoldable pub read_tape : {E : Type 0} → FilePath → ℕ → Exec World E (List Read)
  read_tape p from w = (ok (tape w.clock from (w.files p)), tick w)

  -- `write_all` at a position. A write that fails may have written a part.
  unfoldable pub write_all : FilePath → ℕ → Bytes → Exec World IoError (Unit {0})
  write_all p at data_bytes w = elim (host.fault w.clock) [
    | some e ↦ (
      err e,
      with_files
          (put_node p (overwrite at (take (host.torn w.clock) data_bytes) (w.files p)) w.files)
          (tick w),
    )
    | none ↦ (ok tt, with_files (put_node p (overwrite at data_bytes (w.files p)) w.files) (tick w))
  ]

  -- `sync_all`
  unfoldable pub sync_all : FilePath → Exec World IoError (Unit {0})
  unfolding guarded
  sync_all p = guarded (λ w. (ok tt, with_files (put_node p (flushed (w.files p)) w.files) w))

  abbrev is_nil : {A : Type 0} → List A → Bool
  is_nil [] = true
  is_nil (x ∷ xs) = false

  abbrev pub moved_by : FilePath → FilePath → Node → Option IoError → Exec World IoError (Unit {0})
  moved_by from to n (some e) w = (err e, w)
  moved_by from to n none w = (ok tt, with_files (arrive from to n w.files) w)

  abbrev pub renamed : FilePath → FilePath → Option Node → Exec World IoError (Unit {0})
  renamed from to none w = (err not_found, w)
  renamed from to (some n) w =
      if host.device (dir_of from) == host.device (dir_of to)
      then moved_by from to n
          (may_replace n (w.files to) (is_nil (host.listing w.clock w.files to))
            (is_dir (w.files (dir_of to))) (is_inside (below from to)))
          w
      else (err (errno 18), w)

  -- `rename`: all of it or nothing.
  unfoldable pub rename : FilePath → FilePath → Exec World IoError (Unit {0})
  unfolding guarded
  rename from to = guarded (λ w. renamed from to (w.files from) w)

  abbrev pub all_read : List Read → Result IoError Bytes
  all_read reads = elim (read_error reads) [ some e ↦ err e | none ↦ ok (payload reads) ]

  abbrev pub settle : {A : Type 0} → Result IoError A → Exec World IoError A
  settle r w = (r, w)

  -- `fs::read`
  unfoldable pub read_file : FilePath → Exec World IoError Bytes
  read_file p = do open_read p; reads ← read_tape p 0; settle (all_read reads)

  -- `fs::write`
  unfoldable pub write_file : FilePath → Bytes → Exec World IoError (Unit {0})
  write_file p data_bytes = do create p; write_all p 0 data_bytes

-- The progress callback.
unfoldable pub report : {E : Type 0} → Phase → ℕ → ℕ → Exec World E (Unit {0})
report phase done total w = (
  ok tt,
  record w { reported = record { phase = phase; done = done; total = total } ∷ w.reported },
)
