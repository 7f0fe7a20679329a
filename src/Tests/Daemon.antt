-- ===== src/Tests/Daemon.antt =====
-- The program's command line and its start, the registry, a writer, free space and the calendar, at
-- concrete data.
use omafile.Prelude.{
  ◌≤◌, ◌<◌, ◌^◌, Bytes, codes, List, [], ◌∷◌, true, false, none, some, Result, ok, err, list_beq,
  list_eq, nat_eq, ◌≡◌, refl, inl, inr, ◌+◌, pure, arith,
}
use mathlib.Core.Path.{subst}
use omafile.Engine.Stream.{add64}
use omafile.Prelude.Action.Post.{Post}
use omafile.Prelude.Integers.{pos, negsuc}
use omafile.Prelude.Parse.{parse_u32, parse_i32}
use omafile.Paths.{below}
use omafile.Paths.Text.{path_of, split, enter, strip_prefix}
use omafile.Error.{IoError, connection_refused}
use omafile.Host.Machine.{file}
use omafile.Host.Calls.{dir_of, node_len}
use omafile.Host.Keeps.{node_at}
use omafile.Journal.{Journal, default_folder}
use omafile.Journal.Keeps.{IsOutside}
use omafile.Engine.Copy.Plain.{IsPlain}
use omafile.Server.Activation.{
  Variables, Descriptor, Process, activated_listener, is_listening_stream_socket, text_or_default,
}
use omafile.Server.Activation.Adopted.{IsAdopted, activated_listener-IsAdopted}
use omafile.CommandLine.{Setting, main, positional, has_flag}
use omafile.CommandLine.Flags.{main-preserves}
use omafile.Server.Registry.{IsKeyed, no_jobs, is_terminal, put, insert, put-IsKeyed}
use omafile.Server.Writer.{Connection, write_pass, open_connection}
use omafile.Server.Writer.Once.{endings, write_passes}
use omafile.Server.Writer.Opened.{open_connection_silent}
use omafile.Server.Writer.Announced.{IsAnnounced, AllDue, write_pass-Announced}
use omafile.Server.Writer.Tells.{IsIn, beats, write_passes-beats}
use omafile.Space.{StatVfs, query}
use omafile.Space.Room.{IsRoom, query-IsRoom}
use omafile.Tests.Machine.{ideal, ideal-IsBounded, ideal-StatsWork, src, dst, start}
use omafile.Tests.Transfers.{src-IsPlain, dst-IsPlain}
use omafile.Tests.Serving.{
  io_text, ended, first_state, second_state, third_state, view, connection, first-IsKeyed,
}
use omafile.Tests.Starting.{answer, socket_path}

-- systemd passed its socket to process 42.
abbrev variables : Variables
variables = record {
  listen_pid = some (codes "42");
  listen_fds = some (codes "1");
  listen_fdnames = none;
}

abbrev descriptor : Descriptor
descriptor = record { accept_conn = some 1; domain = some 1; socket_type = some 1 }

abbrev process : Process
process = record { world = start; variables = variables; started = [] }

activated_listener-IsAdopted_example :
    Post (IsAdopted 42 descriptor variables) (activated_listener 42 descriptor) variables
activated_listener-IsAdopted_example = activated_listener-IsAdopted 42 descriptor variables

adopted : (activated_listener 42 descriptor variables).0 ≡ ok (some 3)
unfolding activated_listener parse_u32 parse_i32 text_or_default is_listening_stream_socket pure
adopted = refl

numbers_parsed :
    (parse_i32 (codes "-12") ≡ some (negsuc 11))
    × ((parse_i32 (codes "+7") ≡ some (pos 7)) × (parse_u32 (codes "4294967296") ≡ none))
unfolding parse_u32 parse_i32
numbers_parsed = (refl, (refl, refl))

ended_there : IsIn ended second_state.jobs
unfolding put insert list_beq
ended_there = inl refl

-- The writer has seen the first view of a job that has ended since.
abbrev caught_up : Connection
caught_up = record connection { last_revision = 1 }

first_seen : caught_up.last_revision ≡ first_state.revision
unfolding put add64
first_seen = refl

first_fits : first_state.revision + 1 < 2 ^ 64
unfolding put add64
first_fits = omega arith

write_pass-Announced_example :
    IsAnnounced ended (write_pass caught_up second_state).0
    × AllDue second_state.jobs [] (write_pass caught_up second_state).0
write_pass-Announced_example =
    write_pass-Announced ended caught_up first_state first_seen first_fits (inr (λ bad. bad))

-- Two passes after the nineteenth.
write_passes-beats_example :
    beats (write_passes (record connection { idle = 19 }) (no_jobs ∷ no_jobs ∷ [])) ≡ 1
write_passes-beats_example =
    write_passes-beats (record connection { idle = 19 }) (no_jobs ∷ no_jobs ∷ []) (refl, (refl, tt))
      (omega arith)

abbrev IsSane : Result IoError StatVfs → Type 0
IsSane (ok st) = st.f_bavail ≤ st.f_blocks
IsSane (err e) = Unit {0}

answer_sane :
    (st : StatVfs)
    → ◌≡◌ {A = Result IoError StatVfs} (ok answer) (ok st)
    → st.f_bavail ≤ st.f_blocks
answer_sane st e = subst IsSane e (omega arith)

query-IsRoom_example :
    IsRoom io_text (λ p. ok answer) socket_path (query io_text (λ p. ok answer) socket_path)
query-IsRoom_example = query-IsRoom io_text (λ p. ok answer) socket_path answer_sane

-- A copy beside a file that is there.
abbrev arguments : List Bytes
arguments = codes "copy" ∷ codes "/s/a.txt" ∷ codes "--keep-both" ∷ codes "/d/a.txt" ∷ []

abbrev setting : Setting
setting = record {
  host = ideal;
  connects = λ k. err connection_refused;
  io_text = io_text;
  usage = codes "Usage:";
  state_home = some (codes "state" ∷ []);
  home = codes "home" ∷ [];
  runtime_dir = none;
  pid = 42;
  descriptor = descriptor;
  incoming = [];
}

words : positional arguments ≡ codes "copy" ∷ codes "/s/a.txt" ∷ codes "/d/a.txt" ∷ []
unfolding positional strip_prefix
words = refl

not_replacing : has_flag (codes "--replace") arguments ≡ false
unfolding has_flag list_beq
not_replacing = refl

source_path : path_of (codes "/s/a.txt") ≡ src
unfolding path_of split enter list_beq
source_path = refl

source_there : node_at (path_of (codes "/s/a.txt")) start ≡ some (file (codes "hello") true)
unfolding path_of split enter list_beq
source_there = refl

target_there : node_at dst start ≡ some (file (codes "old") true)
unfolding list_beq
target_there = refl

source-IsPlain : IsPlain (path_of (codes "/s/a.txt"))
source-IsPlain = rw source_path src-IsPlain

hello_short : node_len ideal (file (codes "hello") true) < 2 ^ 63
unfolding node_len
hello_short = omega arith

abbrev journal_of : Journal
journal_of = record { folder = default_folder (some (codes "state" ∷ [])) (codes "home" ∷ []) }

d_outside : IsOutside journal_of (dir_of dst)
unfolding below dir_of list_beq
d_outside = refl

target_outside : IsOutside journal_of (dir_of (path_of (codes "/d/a.txt")))
unfolding below dir_of list_beq path_of split enter
target_outside = refl

main-preserves_example :
    Post {E = IoError}
      (λ _ t. node_at dst t.world ≡ some (file (codes "old") true))
      (main setting arguments)
      process
main-preserves_example =
    main-preserves setting (codes "/s/a.txt") (codes "/d/a.txt") (file (codes "hello") true) dst
      (file (codes "old") true) ideal-IsBounded ideal-StatsWork hello_short source-IsPlain
      dst-IsPlain target_outside d_outside arguments not_replacing [] process words source_there
      target_there

-- A client that comes when a job has ended.
second-IsKeyed : IsKeyed second_state.jobs
second-IsKeyed = put-IsKeyed ended first_state first-IsKeyed

third-IsKeyed : IsKeyed third_state.jobs
third-IsKeyed = put-IsKeyed (record view { job = codes "j2" }) second_state second-IsKeyed

open_connection_silent_example :
    endings (codes "j1") (
      write_passes
        (open_connection (codes "1") 1 second_state second_state).1
        (second_state ∷ third_state ∷ []))
    ≡ 0
unfolding is_terminal
open_connection_silent_example =
    open_connection_silent (codes "1") 1 second_state second_state ended
      (second_state ∷ third_state ∷ []) ended_there refl (second-IsKeyed, (third-IsKeyed, tt))
