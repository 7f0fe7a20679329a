-- ===== src/Server/Interleaved/Due.antt =====
-- daemon/src/server.rs: why a connection will tell of a job that has ended and is not marked.
use omafile.Prelude.{
  ℕ, suc, ◌-◌, ◌<◌, ◌≤◌, Bytes, List, [], ◌∷◌, Bool, true, false, ◌||◌, ◌==◌, list_eq, nat_eq,
  ==_refl, Bool-cases, ◌≡◌, ◌⊎◌, inl, inr, refl, sym, arith,
}
use omafile.Engine.Stream.{add64}
use omafile.Server.Protocol.{JobView}
use omafile.Server.Registry.{without, is_terminal, contains_job}
use omafile.Server.Writer.Tells.{IsIn, untold-IsIn}
use omafile.Server.Writer.Opened.{contains_job-finished_jobs}
use omafile.Server.Interleaved.{
  Memory, Place, accepted, greeted, snapped, spawning, asleep, woken, telling, stopped, mark, Move,
  greet, snap, send_state, look_first, rest, send_tick, wake, look, tell_job, finish_pass, fail,
  Outside, inserts, bumps, removes, takes_number, is_early,
}

pub IsIn-without :
    (v : JobView) (job : Bytes) (js : List JobView) → IsIn v (without job js) → IsIn v js
unfolding without
IsIn-without v job [] h = h
IsIn-without v job (j ∷ js) h = elim (Bool-cases (j.job == job)) [
  | inl e ↦ let h' : IsIn v (without job js) = rw e at h in inr (IsIn-without v job js h')
  | inr e ↦
      let h' : (v ≡ j) ⊎ IsIn v (without job js) = rw e at h in
      elim h' [ inl own ↦ inl own | inr old ↦ inr (IsIn-without v job js old) ]
]

-- The writer has something to find: a view whose revision is still to rise, or a new revision.
abbrev IsDirty : ℕ → ℕ → ℕ → Type 0
IsDirty unbumped last revision = (0 < unbumped) ⊎ (last < revision)

-- Why a job that has ended and is not marked will be told of.
abbrev pub DueAt : ℕ → ℕ → ℕ → Place → JobView → Type 0
DueAt unbumped last revision snapped v = 0 < unbumped
DueAt unbumped last revision spawning v = 0 < unbumped
DueAt unbumped last revision asleep v = IsDirty unbumped last revision
DueAt unbumped last revision (telling js) v = IsIn v js ⊎ IsDirty unbumped last revision
DueAt unbumped last revision _ v = Unit {0}

abbrev pub Due : Memory → Place → JobView → Type 0
Due m p v = DueAt m.unbumped m.last_revision m.shared.revision p v

pub contradictory : {b : Bool} → b ≡ true → b ≡ false → ⊥
contradictory t f = cc

contains_job-cons_false :
    (job x : Bytes) (xs : List Bytes)
    → contains_job job (x ∷ xs) ≡ false
    → contains_job job xs ≡ false
unfolding contains_job
contains_job-cons_false job x xs h = ground arith

contains_own : (job : Bytes) (xs : List Bytes) → contains_job job (job ∷ xs) ≡ true
unfolding contains_job
contains_own job xs = rw (==_refl job) refl

mark-false :
    (job : Bytes) (j : JobView) (m : Memory)
    → contains_job job (mark j m).terminal_sent ≡ false
    → contains_job job m.terminal_sent ≡ false
mark-false job j m c = elim (Bool-cases (is_terminal j)) [
  | inl e ↦
      let c' : contains_job job (j.job ∷ m.terminal_sent) ≡ false = rw e at c in
      contains_job-cons_false job j.job m.terminal_sent c'
  | inr e ↦ let c' : contains_job job m.terminal_sent ≡ false = rw e at c in c'
]

mark_itself :
    (j : JobView) (m : Memory)
    → is_terminal j ≡ true
    → contains_job j.job (mark j m).terminal_sent ≡ true
mark_itself j m e = rw e (contains_own j.job m.terminal_sent)

marks_itself :
    (v j : JobView) (m : Memory)
    → v ≡ j
    → is_terminal v ≡ true
    → contains_job v.job (mark j m).terminal_sent ≡ true
marks_itself v j m e t = let t' : is_terminal j ≡ true = rw (sym e) t in rw e (mark_itself j m t')

abbrev pub AllDue : Memory → Place → Type 0
AllDue m p =
    m.raced ≡ false
    → (v : JobView) → IsIn v m.shared.jobs
    → is_terminal v ≡ true
    → contains_job v.job m.terminal_sent ≡ false
    → Due m p v

pub Move-behind :
    {m n : Memory} {p q : Place}
    → Move m p n q
    → m.last_revision ≤ m.shared.revision
    → n.last_revision ≤ n.shared.revision
Move-behind look_first h = omega arith
Move-behind (wake fresh) h = omega arith
Move-behind mv h = h

pub Outside-behind :
    {early : Bool} {m n : Memory}
    → Outside early m n
    → m.last_revision ≤ m.shared.revision
    → n.last_revision ≤ n.shared.revision
unfolding add64
Outside-behind (bumps some_left fits) h = omega (arith, fits)
Outside-behind mv h = h

pub Move-due :
    {m n : Memory} {p q : Place}
    → Move m p n q
    → m.last_revision ≤ m.shared.revision
    → AllDue m p
    → AllDue n q
Move-due greet b h r v i t c = tt
Move-due {m} snap b h r v i t c =
    absurd (contradictory (contains_job-finished_jobs v m.shared.jobs i t) c)
Move-due send_state b h r v i t c = h r v i t c
Move-due look_first b h r v i t c = inl (h r v i t c)
Move-due (rest same few) b h r v i t c = h r v i t c
Move-due (send_tick same full) b h r v i t c = h r v i t c
Move-due (wake fresh) b h r v i t c = tt
Move-due {m} look b h r v i t c =
    inl (untold-IsIn v m.terminal_sent m.shared.jobs (rw (t, c) refl) i)
Move-due {m} (tell_job {j} {js}) b h r v i t c = elim (h r v i t (mark-false v.job j m c)) [
  | inl (inl e) ↦ absurd (contradictory (marks_itself v j m e t) c)
  | inl (inr more) ↦ inl more
  | inr dirty ↦ inr dirty
]
Move-due finish_pass b h r v i t c = elim (h r v i t c) [
  | inl none_left ↦ absurd none_left
  | inr dirty ↦ dirty
]
Move-due fail b h r v i t c = tt

-- A view that was put is due until the revision has risen.
unbumped-DueAt :
    (unbumped last revision : ℕ) (p : Place) (v : JobView)
    → 0 < unbumped
    → DueAt unbumped last revision p v
unbumped-DueAt unbumped last revision snapped v h = h
unbumped-DueAt unbumped last revision spawning v h = h
unbumped-DueAt unbumped last revision asleep v h = inl h
unbumped-DueAt unbumped last revision (telling js) v h = inr (inl h)
unbumped-DueAt unbumped last revision accepted v h = tt
unbumped-DueAt unbumped last revision greeted v h = tt
unbumped-DueAt unbumped last revision woken v h = tt
unbumped-DueAt unbumped last revision stopped v h = tt

or_true : (b : Bool) → (b || true) ≡ false → ⊥
or_true true e = cc
or_true false e = cc

-- A revision that has risen is seen, unless it rose too early.
bumped-DueAt :
    (raced : Bool) (unbumped last revision : ℕ) (p : Place) (v : JobView)
    → (raced || is_early p) ≡ false
    → last < revision
    → DueAt unbumped last revision p v
bumped-DueAt raced unbumped last revision snapped v e h = absurd (or_true raced e)
bumped-DueAt raced unbumped last revision spawning v e h = absurd (or_true raced e)
bumped-DueAt raced unbumped last revision asleep v e h = inr h
bumped-DueAt raced unbumped last revision (telling js) v e h = inr (inr h)
bumped-DueAt raced unbumped last revision accepted v e h = tt
bumped-DueAt raced unbumped last revision greeted v e h = tt
bumped-DueAt raced unbumped last revision woken v e h = tt
bumped-DueAt raced unbumped last revision stopped v e h = tt

pub Outside-due :
    {m n : Memory} (p : Place)
    → Outside (is_early p) m n
    → m.last_revision ≤ m.shared.revision
    → AllDue m p
    → AllDue n p
unfolding add64
Outside-due {m} p (inserts u) b h r v i t c =
    unbumped-DueAt (suc m.unbumped) m.last_revision m.shared.revision p v (omega arith)
Outside-due {m} p (bumps some_left fits) b h r v i t c =
    bumped-DueAt m.raced (m.unbumped - 1) m.last_revision (add64 m.shared.revision 1) p v r
      (omega (arith, fits))
Outside-due {m} p (removes job) b h r v i t c = h r v (IsIn-without v job m.shared.jobs i) t c
Outside-due p takes_number b h r v i t c = h r v i t c
