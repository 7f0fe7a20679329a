-- ===== src/Tests/Records.antt =====
-- The journal on the concrete machine.
use omafile.Prelude.{
  ℕ, Bytes, codes, [], ◌∷◌, false, none, some, ok, list_beq, list_eq, nat_eq, ◌≡◌, refl, ◌>>=◌,
}
use mathlib.Core.List.{append-nil}
use omafile.Prelude.Action.Post.{Post}
use omafile.Paths.{display, below}
use omafile.Error.{IoError}
use omafile.Host.Machine.{file, Files, World, Host, Entry, chunk, read_error}
use omafile.Host.Calls.{
  put_node, with_files, create, write_all, write_file, open_read, sync_all, rename, arrive, dir_of,
}
use omafile.Host.Reads.{IsHonest}
use omafile.Journal.{hex, hex_char, path_for, part_for, record_entry, get}
use omafile.Engine.Stream.{resume_offset}
use omafile.Engine.Stream.Restarts.{resume_offset_restarts}
use omafile.Host.Keeps.{node_at}
use omafile.Journal.Recorded.{IsRecorded, record_entry-IsRecorded, get-record_entry}
use omafile.Tests.Machine.{ideal, src, dst, journal, start, failing}

abbrev entry : Entry
entry = record {
  source = src;
  destination = dst;
  temp = codes ".a.txt.omafile-part" ∷ codes "d" ∷ [];
  expected_size = 5;
  bytes_done = 0;
  checksum_requested = false;
}

-- Every read returns all that is left.
abbrev reading : Host
reading = record ideal {
  reads = λ t c. chunk c ∷ [];
  to_vec_pretty = λ e. codes "entry";
  from_slice = λ raw. some entry;
}

reading-IsHonest : IsHonest reading
reading-IsHonest t [] h = refl
reading-IsHonest t (b ∷ bs) h = append-nil (b ∷ bs)

never_fails : (t : ℕ) (c : Bytes) → read_error (chunk c ∷ []) ≡ none
never_fails t [] = refl
never_fails t (b ∷ bs) = refl

record_entry-IsRecorded_example :
    Post (IsRecorded failing journal entry start) (record_entry failing journal entry) start
record_entry-IsRecorded_example = record_entry-IsRecorded failing journal entry start

recorded : (record_entry reading journal entry start).0 ≡ ok tt
unfolding record_entry create write_all write_file open_read sync_all rename arrive dir_of path_for
    part_for hex hex_char display list_beq ◌>>=◌ below
recorded = refl

get-record_entry_example :
    Post {E = IoError}
      (λ r t. r ≡ ok (some entry))
      (get reading journal dst)
      (record_entry reading journal entry start).1
get-record_entry_example =
    get-record_entry reading journal entry start reading-IsHonest (λ t. refl, never_fails) refl
      recorded

abbrev after_record : World
after_record = (record_entry reading journal entry start).1

abbrev recorded_files : Files
recorded_files = after_record.files

-- The temporary file of an interrupted copy, three of five bytes long.
abbrev interrupted : World
interrupted =
    with_files (put_node entry.temp (some (file (codes "hel") false)) recorded_files) after_record

still_recorded :
    node_at (path_for reading journal dst) interrupted
    ≡ node_at (path_for reading journal dst) (record_entry reading journal entry start).1
unfolding path_for list_beq hex hex_char display
still_recorded = refl

resume_offset_restarts_example :
    Post (λ r _. r ≡ ok 0) (resume_offset reading journal dst entry.temp 5 false) interrupted
resume_offset_restarts_example =
    resume_offset_restarts reading journal entry start interrupted reading-IsHonest refl refl
      recorded still_recorded entry.temp 5 false
