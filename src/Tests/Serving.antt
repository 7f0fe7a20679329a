-- ===== src/Tests/Serving.antt =====
-- Jobs, renames, a connection and an escaped name, at concrete data.
use omafile.Prelude.{
  ◌+◌, ◌≤◌, Bytes, codes, List, [], ◌∷◌, true, false, none, some, ok, list_beq, list_eq, nat_eq,
  ◌≡◌, refl, arith, if◌then◌else◌, pure, attempt, lift_err, ◌>>=◌,
}
use omafile.Prelude.Action.Post.{Post}
use omafile.Paths.{below}
use omafile.Paths.Join.{join, follow}
use omafile.Paths.Text.{split}
use omafile.Error.{IoError}
use omafile.Engine.Stream.{add64}
use omafile.Tier.{size_checked, checksummed, strength}
use omafile.Host.Machine.{file, copying}
use omafile.Host.Calls.{stat, exists, rename, arrive, dir_of}
use omafile.Host.Keeps.{node_at}
use omafile.Engine.Types.{Outcome, copied, skipped_existing}
use omafile.Server.Protocol.{JobView}
use omafile.Server.Tally.{no_files}
use omafile.Server.Tally.Verdict.{record_all, Claims, record_all-finish}
use omafile.Server.Job.{Order, run_job, base_view}
use omafile.Server.Job.Puts.{thread_views}
use omafile.Server.Job.Puts.Story.{Told, thread_views-Told}
use omafile.Server.Rename.{rename_in_place, rename_to, contains}
use omafile.Server.Rename.InPlace.{InPlace, rename_in_place-InPlace}
use omafile.Server.Registry.{
  Shared, no_jobs, put, put-IsKeyed, insert, views_of, IsKeyed, contains_job, is_terminal,
  snapshot_for, untold, next_seq,
}
use omafile.Server.Writer.{Connection, write_pass, push_jobs, event_of}
use omafile.Server.Writer.Once.{endings, write_passes, write_passes_once}
use omafile.Trash.Escape.{
  uri_escape, uri_unescape, is_unreserved, upper_hex, hex_digit, escaped, unescaped,
}
use omafile.Trash.Escape.RoundTrip.{uri_unescape-uri_escape}
use omafile.Tests.Machine.{ideal, ideal-StatsWork, src, dst, journal, start}
use omafile.Tests.Transfers.{skipping}

abbrev pub io_text : IoError → Bytes
io_text e = codes "it failed"

-- A name with a space and a percent sign.
abbrev odd_name : Bytes
odd_name = codes "/s/50% of it"

escaped_name : uri_escape odd_name ≡ codes "/s/50%25%20of%20it"
unfolding uri_escape is_unreserved upper_hex
escaped_name = refl

-- A sign is no digit, and an escape cut short stays.
left_alone : unescaped (codes "%+1%4") ≡ codes "%+1%4"
unfolding unescaped escaped hex_digit
left_alone = refl

uri_unescape-uri_escape_example : uri_unescape (λ s. s) (uri_escape odd_name) ≡ odd_name
uri_unescape-uri_escape_example = uri_unescape-uri_escape (λ s. s) odd_name (omega arith) refl

-- A file copied, one left alone, and one copied with a checksum.
abbrev outcomes : List (Bytes × Outcome)
outcomes =
    (codes "a.txt", copied size_checked 5 true dst)
    ∷ (codes "b.txt", skipped_existing)
    ∷ (codes "c.txt", copied checksummed 7 false (codes "c.txt" ∷ codes "d" ∷ []))
    ∷ []

record_all-finish_example :
    Post {E = IoError}
      (Claims IoError ideal (codes "copied", some 1))
      (record_all ideal outcomes (no_files false))
      start
unfolding strength
record_all-finish_example = record_all-finish IoError ideal outcomes false start (omega arith)

abbrev order : Order
order = record {
  job = codes "j1";
  sources = src ∷ (codes "gone" ∷ codes "s" ∷ []) ∷ src ∷ [];
  destination_dir = codes "d" ∷ [];
  opts = skipping;
  is_move = false;
}

thread_views-Told_example :
    Told IoError
      (codes "j1")
      (run_job ideal io_text (ok journal) order (base_view order 10) start).0
      (thread_views ideal io_text (ok journal) order (base_view order 10) start).0
thread_views-Told_example = thread_views-Told IoError ideal io_text (ok journal) order 10 start

src_there : node_at src start ≡ some (file (codes "hello") true)
unfolding list_beq
src_there = refl

rename_in_place-InPlace_example :
    Post
      (InPlace ideal io_text
        (codes "a.txt")
        (codes "s" ∷ [])
        (codes "b.txt")
        (file (codes "hello") true)
        start
        src_there
        ideal-StatsWork)
      (rename_in_place ideal io_text src (codes "b.txt"))
      start
rename_in_place-InPlace_example =
    rename_in_place-InPlace ideal io_text (codes "a.txt") (codes "s" ∷ []) (codes "b.txt")
      (file (codes "hello") true) start src_there ideal-StatsWork

renamed_as_asked :
    (rename_in_place ideal io_text src (codes "b.txt") start).0
    ≡ ok (codes "b.txt" ∷ codes "s" ∷ [])
unfolding rename_in_place rename_to contains exists stat rename arrive dir_of list_beq attempt pure
    lift_err ◌>>=◌ below join follow split
renamed_as_asked = refl

joined_up :
    (join (codes "s" ∷ []) (codes "../x") ≡ codes "x" ∷ [])
    × (join (codes "s" ∷ []) (codes "/x") ≡ codes "x" ∷ [])
unfolding join follow split list_beq
joined_up = (refl, refl)

abbrev pub view : JobView
view = record {
  job = codes "j1";
  label = codes "a.txt";
  file = codes "a.txt";
  source = src;
  destination = codes "d" ∷ [];
  phase = some copying;
  done = (0, 1);
  files_done = 0;
  files_total = 1;
  files_skipped = 0;
  files_replaced = 0;
  files_skipped_existing = 0;
  bytes = 0;
  expected = 5;
  outcome = none;
  tier = none;
  strength = none;
  detail = none;
  landed_as = [];
  error = none;
}

abbrev pub ended : JobView
ended = record view { tier = some (codes "Size checked"); done = (1, 1); files_done = 1 }

-- A job under way; ended; and ended with another job begun.
abbrev pub first_state : Shared
first_state = put view no_jobs

abbrev pub second_state : Shared
second_state = put ended first_state

abbrev pub third_state : Shared
third_state = put (record view { job = codes "j2" }) second_state

abbrev pub connection : Connection
connection = record { terminal_sent = []; last_revision = 0; idle = 0 }

pub no_views : (job : Bytes) → views_of job [] ≤ 1
unfolding views_of
no_views job = omega arith

pub first-IsKeyed : IsKeyed first_state.jobs
first-IsKeyed = put-IsKeyed view no_jobs no_views

second-IsKeyed : IsKeyed second_state.jobs
second-IsKeyed = put-IsKeyed ended first_state first-IsKeyed

third-IsKeyed : IsKeyed third_state.jobs
third-IsKeyed = put-IsKeyed (record view { job = codes "j2" }) second_state second-IsKeyed

write_passes_once_example :
    endings (codes "j1") (write_passes connection (first_state ∷ second_state ∷ third_state ∷ []))
      + (if contains_job (codes "j1") [] then 1 else 0)
    ≤ 1
write_passes_once_example =
    write_passes_once (codes "j1") connection (first_state ∷ second_state ∷ third_state ∷ [])
      (first-IsKeyed, (second-IsKeyed, (third-IsKeyed, tt)))

told_of_once :
    endings (codes "j1") (write_passes connection (first_state ∷ second_state ∷ third_state ∷ []))
    ≡ 1
unfolding write_passes write_pass push_jobs event_of snapshot_for untold is_terminal contains_job
    next_seq put insert list_beq add64
told_of_once = refl
