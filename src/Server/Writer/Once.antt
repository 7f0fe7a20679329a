-- ===== src/Server/Writer/Once.antt =====
-- Nobody is told twice that a job has come to its end.
use omafile.Prelude.{
  ℕ, ◌+◌, ◌≤◌, Bytes, List, [], ◌∷◌, ◌++◌, Bool, true, not, ◌||◌, leb, ◌*◌, ◌==◌, list_eq, nat_eq,
  ==_iff, Bool-cases, if◌then◌else◌, ◌≡◌, inl, inr, refl, arith,
}
use omafile.Server.Protocol.{JobView, Event, finished, failed}
use omafile.Server.Registry.{
  Shared, next_seq, is_terminal, contains_job, untold, snapshot_for, views_of, IsKeyed,
}
use omafile.Engine.Stream.{add64}
use omafile.Server.Writer.{coalesce_hz, heartbeat_secs, Connection, event_of, push_jobs, write_pass}

-- How many of the events say that a job has ended.
abbrev pub said : Bytes → Event → ℕ
said job (finished seq j) = if j.job == job then 1 else 0
said job (failed seq j) = if j.job == job then 1 else 0
said job _ = 0

abbrev pub endings : Bytes → List Event → ℕ
endings job [] = 0
endings job (e ∷ es) = said job e + endings job es

abbrev pub one_if : Bool → ℕ
one_if b = if b then 1 else 0

pub said-event_of :
    (job : Bytes) (seq : ℕ) (j : JobView)
    → said job (event_of seq j) ≡ (if is_terminal j then one_if (j.job == job) else 0)
unfolding event_of is_terminal
said-event_of job seq j = ground arith

abbrev sent_one : Bytes → List Bytes → ℕ
sent_one job sent = one_if (contains_job job sent)

abbrev told : JobView → List Bytes → List Bytes
told j sent = if is_terminal j then j.job ∷ sent else sent

told_one :
    (job : Bytes) (seq : ℕ) (j : JobView) (sent : List Bytes)
    → said job (event_of seq j) + sent_one job sent ≤ 1
    → sent_one job (told j sent) ≡ said job (event_of seq j) + sent_one job sent
unfolding contains_job
told_one job seq j sent h = ground (arith, said-event_of job seq j)

-- The jobs that are told of are then marked as told.
push-marks :
    (job : Bytes) (js : List JobView) (sent : List Bytes) (s : Shared)
    → endings job (push_jobs js sent s).0 + sent_one job sent ≤ 1
    → sent_one job (push_jobs js sent s).1.0
      ≡ endings job (push_jobs js sent s).0 + sent_one job sent
unfolding push_jobs
push-marks job [] sent s h = omega arith
push-marks job (j ∷ js) sent s h =
    let marked = told_one job (next_seq s).0 j sent (omega (arith, h)) in
    omega (arith, marked, push-marks job js (told j sent) (next_seq s).1 (omega (arith, h, marked)))

abbrev is_untold : JobView → List Bytes → Bool
is_untold j marked = not (is_terminal j) || not (contains_job j.job marked)

-- What is told of once for each view at most.
push-views :
    (job : Bytes) (marked sent : List Bytes) (js : List JobView) (s : Shared)
    → endings job (push_jobs (untold marked js) sent s).0 ≤ views_of job js
unfolding push_jobs untold views_of
push-views job marked sent [] s = omega arith
push-views job marked sent (j ∷ js) s = elim (Bool-cases (is_untold j marked)) [
  | inl kept ↦
      let more = push-views job marked (told j sent) js (next_seq s).1 in
      rw kept (ground (arith, said-event_of job (next_seq s).0 j, more))
  | inr dropped ↦ rw dropped (omega (arith, push-views job marked sent js s))
]

said_unmarked :
    (job : Bytes) (seq : ℕ) (j : JobView) (marked : List Bytes)
    → is_untold j marked ≡ true
    → contains_job job marked ≡ true
    → said job (event_of seq j) ≡ 0
said_unmarked job seq j marked kept h = elim (Bool-cases (j.job == job)) [
  | inl own ↦
      let same : contains_job j.job marked ≡ true = rw ((==_iff j.job job).0 own) h in
      ground (arith, said-event_of job seq j)
  | inr other ↦ ground (arith, said-event_of job seq j)
]

-- What is marked is not told of.
push-marked :
    (job : Bytes) (marked sent : List Bytes) (js : List JobView) (s : Shared)
    → contains_job job marked ≡ true
    → endings job (push_jobs (untold marked js) sent s).0 ≡ 0
unfolding push_jobs untold
push-marked job marked sent [] s h = refl
push-marked job marked sent (j ∷ js) s h = elim (Bool-cases (is_untold j marked)) [
  | inl kept ↦
      let more = push-marked job marked (told j sent) js (next_seq s).1 h in
      let none_said = said_unmarked job (next_seq s).0 j marked kept h in
      rw kept (omega (arith, more, none_said))
  | inr dropped ↦ rw dropped (push-marked job marked sent js s h)
]

push_once :
    (job : Bytes) (sent : List Bytes) (js : List JobView) (s : Shared)
    → views_of job js ≤ 1
    → endings job (push_jobs (untold sent js) sent s).0 + sent_one job sent ≤ 1
push_once job sent js s h = elim (Bool-cases (contains_job job sent)) [
  | inl e ↦ rw (e, push-marked job sent sent js s e) (omega arith)
  | inr e ↦ rw e (omega (arith, push-views job sent sent js s, h))
]

-- Of a pass: it tells of an end at most once, not of one told of before, and marks what it tells of.
abbrev TellsOnce : Bytes → Connection → List Event × (Connection × Shared) → Type 0
TellsOnce job c r =
    (endings job r.0 + sent_one job c.terminal_sent ≤ 1)
    × (sent_one job r.1.0.terminal_sent ≡ endings job r.0 + sent_one job c.terminal_sent)

unmarked : (job : Bytes) (c : Connection) → sent_one job c.terminal_sent ≤ 1
unmarked job c = ground arith

pass-TellsOnce :
    (job : Bytes) (c : Connection) (s : Shared) → IsKeyed s.jobs → TellsOnce job c (write_pass c s)
unfolding write_pass snapshot_for
pass-TellsOnce job c s h = elim (Bool-cases (s.revision == c.last_revision)) [
  | inl same ↦ elim (Bool-cases (leb (coalesce_hz * heartbeat_secs) (add64 c.idle 1))) [
    | inl e ↦ rw (same, e) (omega (arith, unmarked job c), omega arith)
    | inr e ↦ rw (same, e) (omega (arith, unmarked job c), omega arith)
  ]
  | inr other ↦
      let once = push_once job c.terminal_sent s.jobs s (h job) in
      rw other (once, push-marks job (untold c.terminal_sent s.jobs) c.terminal_sent s once)
]

-- The passes of a connection, each one over the shared state that it finds.
unfoldable pub write_passes : Connection → List Shared → List Event
write_passes c [] = []
write_passes c (s ∷ ss) = let (events, (c', after)) = write_pass c s in events ++ write_passes c' ss

endings-append :
    (job : Bytes) (es fs : List Event) → endings job (es ++ fs) ≡ endings job es + endings job fs
endings-append job [] fs = omega arith
endings-append job (e ∷ es) fs = omega (arith, endings-append job es fs)

abbrev pub AllKeyed : List Shared → Type 0
AllKeyed [] = Unit {0}
AllKeyed (s ∷ ss) = IsKeyed s.jobs × AllKeyed ss

-- However the other threads change the registry between the passes of a connection's writer, as long
-- as it has one view for each job, the client is told at most once that a job has ended, and not at
-- all if the job was marked as told of before the first pass.
pub write_passes_once :
    (job : Bytes) (c : Connection) (ss : List Shared)
    → AllKeyed ss
    → endings job (write_passes c ss) + (if contains_job job c.terminal_sent then 1 else 0) ≤ 1
unfolding write_passes
write_passes_once job c [] h = omega (arith, unmarked job c)
write_passes_once job c (s ∷ ss) (keyed, h) =
    let (once, marks) = pass-TellsOnce job c s keyed in
    omega (
      arith,
      endings-append job (write_pass c s).0 (write_passes (write_pass c s).1.0 ss),
      once,
      marks,
      write_passes_once job (write_pass c s).1.0 ss h,
    )
