-- ===== src/Server/Interleaved/Once.antt =====
-- daemon/src/server.rs: however the threads interleave, nobody is told twice that a job has ended.
use omafile.Prelude.{
  ℕ, ◌+◌, ◌≤◌, Bytes, List, [], ◌∷◌, Bool, true, ◌==◌, list_eq, nat_eq, ==_iff, Bool-cases, ◌≡◌,
  ◌∙◌, inl, inr, refl, arith, if◌then◌else◌,
}
use omafile.Server.Protocol.{JobView, Event}
use omafile.Server.Registry.{
  Shared, put, remove, is_terminal, contains_job, untold, views_of, IsKeyed,
}
use omafile.Server.Registry.Map.{stored, released, apply-IsKeyed}
use omafile.Server.Writer.{event_of, finished_jobs}
use omafile.Server.Writer.Once.{said, endings, one_if, said-event_of}
use omafile.Server.Interleaved.Told.{said-answer}
use omafile.Server.Interleaved.{
  Memory, Place, accepted, greeted, snapped, spawning, asleep, woken, telling, stopped, mark, Move,
  greet, snap, send_state, look_first, rest, send_tick, wake, look, tell_job, finish_pass, fail,
  Outside, inserts, bumps, removes, takes_number, Step, moves, others, replies, answers, is_answer,
  Reach, start, later,
}

-- How many of the views say that a job has ended.
abbrev ends : Bytes → List JobView → ℕ
ends job [] = 0
ends job (j ∷ js) = (if is_terminal j then one_if (j.job == job) else 0) + ends job js

abbrev marked_one : Bytes → Memory → ℕ
marked_one job m = one_if (contains_job job m.terminal_sent)

ends-untold_views :
    (job : Bytes) (sent : List Bytes) (js : List JobView)
    → ends job (untold sent js) ≤ views_of job js
unfolding untold views_of
ends-untold_views job sent [] = omega arith
ends-untold_views job sent (j ∷ js) = ground (arith, ends-untold_views job sent js)

ends-untold_marked :
    (job : Bytes) (sent : List Bytes) (js : List JobView)
    → contains_job job sent ≡ true
    → ends job (untold sent js) ≡ 0
unfolding untold
ends-untold_marked job sent [] c = refl
ends-untold_marked job sent (j ∷ js) c = elim (Bool-cases (j.job == job)) [
  | inl own ↦
      let same : contains_job j.job sent ≡ true = rw ((==_iff j.job job).0 own) c in
      ground (arith, ends-untold_marked job sent js c, same)
  | inr other ↦ ground (arith, ends-untold_marked job sent js c)
]

ends-untold :
    (job : Bytes) (sent : List Bytes) (js : List JobView)
    → views_of job js ≤ 1
    → ends job (untold sent js) + one_if (contains_job job sent) ≤ 1
ends-untold job sent js one = elim (Bool-cases (contains_job job sent)) [
  | inl c ↦ rw (c, ends-untold_marked job sent js c) (omega arith)
  | inr c ↦ rw c (omega (arith, one, ends-untold_views job sent js))
]

-- What the place says of a job: before the snapshot nothing was told; in the loop over the jobs, what
-- is still to be told was not told before.
abbrev FreshAt : Bytes → List Event → List Bytes → Place → Type 0
FreshAt job told sent accepted = endings job told ≡ 0
FreshAt job told sent greeted = endings job told ≡ 0
FreshAt job told sent (telling js) = ends job js + one_if (contains_job job sent) ≤ 1
FreshAt job told sent _ = Unit {0}

abbrev Fresh : Bytes → Memory → Place → Type 0
Fresh job m p = FreshAt job m.told m.terminal_sent p

-- Each end is told of in the snapshot or in an event, and is then marked.
abbrev Counted : Bytes → Memory → Type 0
Counted job m =
    endings job m.told + one_if (contains_job job (finished_jobs m.opening)) ≡ marked_one job m

record Inv (job : Bytes) (m : Memory) (p : Place) : Type 0 where
  keyed : IsKeyed m.shared.jobs
  counted : Counted job m
  fresh : Fresh job m p

mark_counts :
    (job : Bytes) (j : JobView) (m : Memory)
    → said job (event_of m.shared.seq j) + marked_one job m ≤ 1
    → marked_one job (mark j m) ≡ said job (event_of m.shared.seq j) + marked_one job m
unfolding contains_job
mark_counts job j m h = ground (arith, said-event_of job m.shared.seq j)

tell_counts :
    (job : Bytes) (j : JobView) (js : List JobView) (m : Memory)
    → ends job (j ∷ js) + marked_one job m ≤ 1
    → marked_one job (mark j m) ≡ said job (event_of m.shared.seq j) + marked_one job m
tell_counts job j js m h = mark_counts job j m (omega (arith, h, said-event_of job m.shared.seq j))

Move-Inv : (job : Bytes) {m n : Memory} {p q : Place} → Move m p n q → Inv job m p → Inv job n q
Move-Inv job greet inv = record {
  keyed = inv.keyed;
  counted = omega (arith, inv.counted);
  fresh = omega (arith, inv.fresh);
}
Move-Inv job {m} snap inv = record {
  keyed = inv.keyed;
  counted = omega (arith, inv.fresh);
  fresh = tt;
}
Move-Inv job send_state inv = record {
  keyed = inv.keyed;
  counted = omega (arith, inv.counted);
  fresh = tt;
}
Move-Inv job look_first inv = record { keyed = inv.keyed; counted = inv.counted; fresh = tt }
Move-Inv job (rest same few) inv = record { keyed = inv.keyed; counted = inv.counted; fresh = tt }
Move-Inv job (send_tick same full) inv = record {
  keyed = inv.keyed;
  counted = omega (arith, inv.counted);
  fresh = tt;
}
Move-Inv job (wake seen) inv = record { keyed = inv.keyed; counted = inv.counted; fresh = tt }
Move-Inv job {m} look inv = record {
  keyed = inv.keyed;
  counted = inv.counted;
  fresh = ends-untold job m.terminal_sent m.shared.jobs (inv.keyed job);
}
Move-Inv job {m} (tell_job {j} {js}) inv =
    let marks = tell_counts job j js m inv.fresh in
    record {
      keyed = inv.keyed;
      counted = omega (arith, marks, inv.counted);
      fresh = omega (arith, marks, inv.fresh, said-event_of job m.shared.seq j);
    }
Move-Inv job finish_pass inv = record { keyed = inv.keyed; counted = inv.counted; fresh = tt }
Move-Inv job fail inv = record { keyed = inv.keyed; counted = inv.counted; fresh = tt }

Outside-IsKeyed :
    {early : Bool} {m n : Memory}
    → Outside early m n
    → IsKeyed m.shared.jobs
    → IsKeyed n.shared.jobs
unfolding put remove
Outside-IsKeyed {m = m} (inserts v) h = apply-IsKeyed (stored v) m.shared h
Outside-IsKeyed (bumps some_left fits) h = h
Outside-IsKeyed {m = m} (removes job) h = apply-IsKeyed (released job) m.shared h
Outside-IsKeyed takes_number h = h

Outside-Counted :
    (job : Bytes) {early : Bool} {m n : Memory} → Outside early m n → Counted job m → Counted job n
Outside-Counted job (inserts v) h = h
Outside-Counted job (bumps some_left fits) h = h
Outside-Counted job (removes r) h = h
Outside-Counted job takes_number h = h

Outside-Fresh :
    (job : Bytes) {early : Bool} {m n : Memory} (p : Place)
    → Outside early m n
    → Fresh job m p
    → Fresh job n p
Outside-Fresh job p (inserts v) h = h
Outside-Fresh job p (bumps some_left fits) h = h
Outside-Fresh job p (removes r) h = h
Outside-Fresh job p takes_number h = h

answered_none :
    (job : Bytes) (ev : Event) (told : List Event)
    → is_answer ev ≡ true
    → endings job (ev ∷ told) ≡ endings job told
answered_none job ev told kind = omega (arith, said-answer job ev kind)

FreshAt-answer :
    (job : Bytes) (ev : Event) (told : List Event) (sent : List Bytes) (p : Place)
    → is_answer ev ≡ true
    → FreshAt job told sent p
    → FreshAt job (ev ∷ told) sent p
FreshAt-answer job ev told sent accepted kind h = answered_none job ev told kind ∙ h
FreshAt-answer job ev told sent greeted kind h = answered_none job ev told kind ∙ h
FreshAt-answer job ev told sent snapped kind h = tt
FreshAt-answer job ev told sent spawning kind h = tt
FreshAt-answer job ev told sent asleep kind h = tt
FreshAt-answer job ev told sent woken kind h = tt
FreshAt-answer job ev told sent (telling js) kind h = h
FreshAt-answer job ev told sent stopped kind h = tt

Step-Inv : (job : Bytes) {m n : Memory} {p q : Place} → Step m p n q → Inv job m p → Inv job n q
Step-Inv job (moves mv) inv = Move-Inv job mv inv
Step-Inv job {p = p} (others mv) inv = record {
  keyed = Outside-IsKeyed mv inv.keyed;
  counted = Outside-Counted job mv inv.counted;
  fresh = Outside-Fresh job p mv inv.fresh;
}
Step-Inv job {m} {p = p} (replies live (answers ev kind)) inv = record {
  keyed = inv.keyed;
  counted = omega (arith, inv.counted, answered_none job ev m.told kind);
  fresh = FreshAt-answer job ev m.told m.terminal_sent p kind inv.fresh;
}

Reach-Inv :
    (job : Bytes) {s : Shared} {unbumped : ℕ} {m : Memory} {p : Place}
    → IsKeyed s.jobs
    → Reach s unbumped m p
    → Inv job m p
unfolding finished_jobs contains_job
Reach-Inv job keyed start = record { keyed = keyed; counted = refl; fresh = refl }
Reach-Inv job keyed (later r step) = Step-Inv job step (Reach-Inv job keyed r)

-- However the threads interleave, a client is told of the end of a job at most once by the snapshot
-- that opens its connection and the `Finished` and `Failed` events together, if the registry had one
-- view of each job when it connected and the revision stays below 2^64. The snapshots that the
-- client asks for itself, which say again which jobs have ended, are not counted.
pub Reach_once :
    (job : Bytes) {s : Shared} {unbumped : ℕ} {m : Memory} {p : Place}
    → IsKeyed s.jobs
    → Reach s unbumped m p
    → endings job m.told + (if contains_job job (finished_jobs m.opening) then 1 else 0) ≤ 1
Reach_once job {m = m} keyed r = let inv = Reach-Inv job keyed r in ground (arith, inv.counted)
