-- ===== src/Tests/Interleaved.antt =====
-- A connection and another thread's `put`, an access at a time.
use omafile.Prelude.{
  ◌+◌, ◌≤◌, codes, [], ◌∷◌, true, list_eq, nat_eq, refl, arith, inl, inr, if◌then◌else◌,
}
use omafile.Engine.Stream.{add64}
use omafile.Server.Protocol.{greeting, snapshot}
use omafile.Server.Registry.{no_jobs, insert, is_terminal, contains_job, untold}
use omafile.Server.Writer.{finished_jobs, event_of}
use omafile.Server.Writer.Once.{endings}
use omafile.Server.Interleaved.{
  Memory, asleep, spawning, greet, snap, send_state, look_first, wake, look, tell_job, finish_pass,
  inserts, bumps, Reach, start, later, moves, others, replies, answers, is_answer, connected, say,
  mark,
}
use omafile.Server.Interleaved.Told.{IsToldOf}
use omafile.Server.Interleaved.CaughtUp.{asleep-IsToldOf}
use omafile.Server.Interleaved.Due.{contradictory}
use omafile.Server.Interleaved.Once.{Reach_once}
use omafile.Tests.Serving.{ended, no_views}

-- The connection at the writer's first look at the revision.
abbrev greeted_client : Memory
greeted_client = say (λ seq. greeting seq (codes "1") 1) (connected no_jobs 0)

abbrev opened : Memory
opened = record greeted_client { opening = []; terminal_sent = [] }

abbrev ready : Memory
ready = say (λ seq. snapshot seq []) opened

ready-Reach : Reach no_jobs 0 ready spawning
unfolding finished_jobs
ready-Reach = later (later (later start (moves greet)) (moves snap)) (moves send_state)

-- A job's last view is put.
abbrev inserted : Memory → Memory
inserted m = record m {
  shared = record m.shared { jobs = insert ended m.shared.jobs };
  unbumped = m.unbumped + 1;
}

abbrev bumped : Memory → Memory
bumped m = record m { shared = record m.shared { revision = 1 }; unbumped = 0 }

-- In good time: the writer wakes and tells of it.
abbrev woken_up : Memory
woken_up = record (bumped (inserted ready)) { last_revision = 1; idle = 0 }

abbrev told_client : Memory
told_client = say (λ seq. event_of seq ended) (mark ended woken_up)

told_client-Reach : Reach no_jobs 0 told_client asleep
unfolding insert untold is_terminal add64 contains_job
told_client-Reach =
    let asleep_first = later ready-Reach (moves look_first) in
    let stored =
      later (later asleep_first (others (inserts ended)))
        (others (bumps (omega arith) (omega arith))) in
    later
      (later
        (later (later stored (moves (wake (λ same. absurd (omega (arith, same)))))) (moves look))
        (moves tell_job))
      (moves finish_pass)

asleep-IsToldOf_example : IsToldOf (codes "j1") told_client
unfolding insert is_terminal
asleep-IsToldOf_example = asleep-IsToldOf told_client-Reach refl refl refl ended (inl refl) refl

-- The client then asks for the state, and is told of the ended job again.
abbrev resynced : Memory
resynced = record told_client { told = snapshot 9 (ended ∷ []) ∷ told_client.told }

resynced-Reach : Reach no_jobs 0 resynced asleep
unfolding is_answer
resynced-Reach = later told_client-Reach (replies refl (answers (snapshot 9 (ended ∷ [])) refl))

Reach_once_example :
    endings (codes "j1") resynced.told
      + (if contains_job (codes "j1") (finished_jobs resynced.opening) then 1 else 0)
    ≤ 1
Reach_once_example = Reach_once (codes "j1") no_views resynced-Reach

-- Too early: the revision has risen when the writer first looks, and the client is not told of the job
-- until another view is put.
abbrev missed : Memory
missed = record (inserted ready) {
  shared = record (inserted ready).shared { revision = 1 };
  unbumped = 0;
  last_revision = 1;
  raced = true;
}

missed-Reach : Reach no_jobs 0 missed asleep
unfolding add64
missed-Reach =
    let stored =
      later (later ready-Reach (others (inserts ended)))
        (others (bumps (omega arith) (omega arith))) in
    later stored (moves look_first)

missed_not_told : IsToldOf (codes "j1") missed → ⊥
unfolding contains_job finished_jobs
missed_not_told (inl e) = absurd (contradictory e refl)
missed_not_told (inr h) = omega (arith, h)
