-- ===== src/Server/Interleaved.antt =====
-- daemon/src/server.rs: one connection's opening, its writer and its reader in `handle`, a shared
-- access at a time, between the accesses of all the other threads.
pub mod Told
pub mod Due
pub mod CaughtUp
pub mod Once
use omafile.Prelude.{
  ℕ, suc, ◌+◌, ◌-◌, ◌*◌, ◌^◌, ◌<◌, ◌≤◌, Bytes, List, [], ◌∷◌, Bool, true, false, ◌||◌, leb, ◌≡◌,
  ◌≢◌, if◌then◌else◌,
}
use omafile.Engine.Stream.{add64}
use omafile.Server.Protocol.{JobView, Event, tick, greeting, snapshot, progress, finished, failed}
use omafile.Server.Registry.{Shared, insert, without, is_terminal, untold}
use omafile.Server.Writer.{coalesce_hz, heartbeat_secs, event_of, finished_jobs}

-- The shared state, and what the connection's threads keep. `unbumped` is how many `put`s have
-- inserted their view and not raised the revision yet; `told` has the newest event first; `raced` is
-- whether the revision rose between the opening snapshot and the writer's first look at it.
pub record Memory : Type 0 where
  pub shared : Shared
  pub unbumped : ℕ
  pub opening : List JobView
  pub terminal_sent : List Bytes
  pub last_revision : ℕ
  pub idle : ℕ
  pub told : List Event
  pub raced : Bool

-- Where the connection stands.
pub data Place : Type 0 where
  accepted : Place  -- the head of `handle`
  greeted : Place  -- before `snapshot`
  snapped : Place  -- before the opening `State` is sent
  spawning : Place  -- before the writer reads the revision for the first time
  asleep : Place  -- the head of the writer's loop
  woken : Place  -- before `snapshot_for`
  telling : List JobView → Place  -- in the loop over the jobs
  stopped : Place  -- a send has failed; a connection may end at any place

-- An event with the next sequence number.
abbrev pub say : (ℕ → Event) → Memory → Memory
say ev m = record m {
  told = ev m.shared.seq ∷ m.told;
  shared = record m.shared { seq = add64 m.shared.seq 1 };
}

abbrev pub mark : JobView → Memory → Memory
mark j m = record m {
  terminal_sent = if is_terminal j then j.job ∷ m.terminal_sent else m.terminal_sent;
}

abbrev pub idle_limit : ℕ
idle_limit = coalesce_hz * heartbeat_secs

-- A step of the connection.
pub data Move (m : Memory) : Place → Memory → Place → Type 0 where
  greet :
      {version : Bytes} {protocol : ℕ}
      → Move m accepted (say (λ seq. greeting seq version protocol) m) greeted
  snap :
      Move m greeted
        (record m { opening = m.shared.jobs; terminal_sent = finished_jobs m.shared.jobs })
        snapped
  send_state : Move m snapped (say (λ seq. snapshot seq m.opening) m) spawning
  look_first : Move m spawning (record m { last_revision = m.shared.revision; idle = 0 }) asleep
  rest :
      m.shared.revision ≡ m.last_revision
      → leb idle_limit (add64 m.idle 1) ≡ false
      → Move m asleep (record m { idle = add64 m.idle 1 }) asleep
  send_tick :
      m.shared.revision ≡ m.last_revision
      → leb idle_limit (add64 m.idle 1) ≡ true
      → Move m asleep (say tick (record m { idle = 0 })) asleep
  wake :
      m.shared.revision ≢ m.last_revision
      → Move m asleep (record m { last_revision = m.shared.revision; idle = 0 }) woken
  look : Move m woken m (telling (untold m.terminal_sent m.shared.jobs))
  tell_job :
      {j : JobView} {js : List JobView}
      → Move m (telling (j ∷ js)) (say (λ seq. event_of seq j) (mark j m)) (telling js)
  finish_pass : Move m (telling []) m asleep
  fail : {p : Place} → Move m p m stopped

-- A step of any other thread. A `put` is two: under the lock, and after it. `early` is whether the
-- connection is between its snapshot and its first look at the revision.
pub data Outside (early : Bool) (m : Memory) : Memory → Type 0 where
  inserts :
      (v : JobView)
      → Outside early m (record m {
        shared = record m.shared { jobs = insert v m.shared.jobs };
        unbumped = suc m.unbumped;
      })
  bumps :
      0 < m.unbumped
      → suc m.shared.revision < 2 ^ 64
      → Outside early m (record m {
        shared = record m.shared { revision = add64 m.shared.revision 1 };
        unbumped = m.unbumped - 1;
        raced = m.raced || early;
      })
  removes :
      (job : Bytes)
      → Outside early m (record m { shared = record m.shared { jobs = without job m.shared.jobs } })
  takes_number :
      Outside early m (record m { shared = record m.shared { seq = add64 m.shared.seq 1 } })

abbrev pub is_early : Place → Bool
is_early snapped = true
is_early spawning = true
is_early _ = false

-- The reader starts with the writer.
abbrev pub is_open : Place → Bool
is_open accepted = false
is_open greeted = false
is_open snapped = false
is_open _ = true

-- The events that the reader sends in answer to requests: all but the opening's and the writer's.
unfoldable pub is_answer : Event → Bool
is_answer (tick seq) = false
is_answer (greeting seq version protocol) = false
is_answer (progress seq v) = false
is_answer (finished seq v) = false
is_answer (failed seq v) = false
is_answer _ = true

-- The reader sends one. Its number and what it says, as the views of a snapshot, were taken before.
pub data Answer (m : Memory) : Memory → Type 0 where
  answers : (ev : Event) → is_answer ev ≡ true → Answer m (record m { told = ev ∷ m.told })

pub data Step (m : Memory) (p : Place) : Memory → Place → Type 0 where
  moves : {n : Memory} {q : Place} → Move m p n q → Step m p n q
  others : {n : Memory} → Outside (is_early p) m n → Step m p n p
  replies : {n : Memory} → is_open p ≡ true → Answer m n → Step m p n p

-- A connection that was just accepted, whatever the registry holds.
abbrev pub connected : Shared → ℕ → Memory
connected s unbumped = record {
  shared = s;
  unbumped = unbumped;
  opening = [];
  terminal_sent = [];
  last_revision = 0;
  idle = 0;
  told = [];
  raced = false;
}

pub data Reach (s : Shared) (unbumped : ℕ) : Memory → Place → Type 0 where
  start : Reach s unbumped (connected s unbumped) accepted
  later : {m n : Memory} {p q : Place} → Reach s unbumped m p → Step m p n q → Reach s unbumped n q
