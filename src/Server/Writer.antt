-- ===== src/Server/Writer.antt =====
-- daemon/src/server.rs: the writer thread of a connection, in `handle`. Each pass of its loop sees the
-- shared state as the other threads have left it. The events are those given to `send`, up to the
-- first that fails, which ends the thread.
pub mod Once
pub mod Tells
pub mod Announced
pub mod Opened
use omafile.Prelude.{
  ℕ, ◌+◌, ◌*◌, Bytes, codes, List, [], ◌∷◌, ◌++◌, Bool, true, false, leb, ◌==◌, nat_eq,
  if◌then◌else◌,
}
use omafile.Engine.Stream.{add64}
use omafile.Server.Protocol.{JobView, Event, tick, greeting, snapshot, progress, finished, failed}
use omafile.Server.Registry.{Shared, next_seq, is_some, is_terminal, snapshot_for}

abbrev pub coalesce_hz : ℕ
coalesce_hz = 10

abbrev pub heartbeat_secs : ℕ
heartbeat_secs = 2

pub record Connection : Type 0 where
  pub terminal_sent : List Bytes
  pub last_revision : ℕ
  pub idle : ℕ

-- The event that tells of one job.
unfoldable pub event_of : ℕ → JobView → Event
event_of seq j =
    if is_some j.error
    then failed seq j
    else if is_some j.tier
    then finished seq j
    else progress seq j

-- The loop over the jobs of one pass: the events, the jobs told of at last, and the shared state.
unfoldable pub push_jobs : List JobView → List Bytes → Shared → List Event × (List Bytes × Shared)
push_jobs [] sent s = ([], (sent, s))
push_jobs (j ∷ js) sent s =
    let (seq, s') = next_seq s in
    let told = if is_terminal j then j.job ∷ sent else sent in
    let (events, after) = push_jobs js told s' in (event_of seq j ∷ events, after)

abbrev beat : Connection → Shared → List Event × (Connection × Shared)
beat c s = let (seq, s') = next_seq s in (tick seq ∷ [], (record c { idle = 0 }, s'))

-- One pass of the loop.
unfoldable pub write_pass : Connection → Shared → List Event × (Connection × Shared)
write_pass c s =
    if s.revision == c.last_revision
    then (if leb (coalesce_hz * heartbeat_secs) (add64 c.idle 1)
        then beat c s
        else ([], (record c { idle = add64 c.idle 1 }, s)))
    else (let (events, (sent, s')) = push_jobs (snapshot_for c.terminal_sent s) c.terminal_sent s in
        (events, (record { terminal_sent = sent; last_revision = s.revision; idle = 0 }, s')))

unfoldable pub finished_jobs : List JobView → List Bytes
finished_jobs [] = []
finished_jobs (j ∷ js) = let rest = finished_jobs js in if is_terminal j then j.job ∷ rest else rest

-- What a new connection is sent first, and its writer's first state. The revision is read later than
-- the snapshot is taken: `later` is the shared state by then.
unfoldable pub open_connection : Bytes → ℕ → Shared → Shared → List Event × Connection
open_connection daemon_version protocol s later = (
  greeting s.seq daemon_version protocol ∷ snapshot (add64 s.seq 1) s.jobs ∷ [],
  record { terminal_sent = finished_jobs s.jobs; last_revision = later.revision; idle = 0 },
)
