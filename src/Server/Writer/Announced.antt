-- ===== src/Server/Writer/Announced.antt =====
-- daemon/src/server.rs: what a pass of a connection's writer says of the jobs after a `put`.
use omafile.Prelude.{
  ℕ, ◌+◌, ◌<◌, ◌^◌, Bytes, List, [], ◌∷◌, true, false, Option, none, some, ◌==◌, list_eq, nat_eq,
  ==_iff, Bool-cases, Option-cases, ◌≡◌, ◌⊎◌, inl, inr, refl, arith,
}
use omafile.Engine.Stream.{add64}
use omafile.Server.Protocol.{JobView, Event, progress, finished, failed}
use omafile.Server.Registry.{
  Shared, next_seq, insert, put, is_terminal, contains_job, untold, snapshot_for,
}
use omafile.Server.Writer.{Connection, event_of, push_jobs, write_pass}
use omafile.Server.Writer.Tells.{IsIn, untold-IsIn, is_due}

-- The event for a view, by its error and its tier.
abbrev pub EndsAs : Option Bytes → Option Bytes → JobView → ℕ → Event → Type 0
EndsAs (some error) _ v seq ev = ev ≡ failed seq v
EndsAs none (some tier) v seq ev = ev ≡ finished seq v
EndsAs none none v seq ev = ev ≡ progress seq v

abbrev pub Announces : JobView → Event → Type 0
Announces v ev = (seq : ℕ) × EndsAs v.error v.tier v seq ev

-- One of the events announces a view.
abbrev pub IsAnnounced : JobView → List Event → Type 0
IsAnnounced v [] = ⊥
IsAnnounced v (ev ∷ evs) = Announces v ev ⊎ IsAnnounced v evs

abbrev pub IsMarked : Bytes → List Bytes → Type 0
IsMarked job [] = ⊥
IsMarked job (x ∷ xs) = (x ≡ job) ⊎ IsMarked job xs

-- A view is to be told of: its job has not ended, or its end has not been told.
abbrev pub IsDue : List Bytes → JobView → Type 0
IsDue marked v = ((v.error ≡ none) × (v.tier ≡ none)) ⊎ (¬ IsMarked v.job marked)

-- Each event announces a view of the registry that is to be told of.
abbrev pub AllDue : List JobView → List Bytes → List Event → Type 0
AllDue jobs marked [] = Unit {0}
AllDue jobs marked (ev ∷ evs) =
    ((v : JobView) × (IsIn v jobs × (IsDue marked v × Announces v ev))) × AllDue jobs marked evs

contains_job-IsMarked :
    (job : Bytes) (xs : List Bytes) → contains_job job xs ≡ true → IsMarked job xs
unfolding contains_job
contains_job-IsMarked job [] h = ground arith
contains_job-IsMarked job (x ∷ xs) h = elim (Bool-cases (x == job)) [
  | inl e ↦ inl ((==_iff x job).0 e)
  | inr e ↦ inr (contains_job-IsMarked job xs (ground (arith, e, h)))
]

contains_job-false :
    (job : Bytes) (xs : List Bytes) → contains_job job xs ≡ false → ¬ IsMarked job xs
unfolding contains_job
contains_job-false job [] h bad = bad
contains_job-false job (x ∷ xs) h (inl e) = ground (arith, (==_iff x job).1 e, h)
contains_job-false job (x ∷ xs) h (inr i) = contains_job-false job xs (ground (arith, h)) i

event_of-Announces : (v : JobView) (seq : ℕ) → Announces v (event_of seq v)
unfolding event_of
event_of-Announces v seq = elim (Option-cases v.error) [
  | inr (x, e) ↦ (seq, rw e refl)
  | inl e ↦ elim (Option-cases v.tier) [
    | inl t ↦ (seq, rw (e, t) refl)
    | inr (x, t) ↦ (seq, rw (e, t) refl)
  ]
]

is_due-IsDue : (v : JobView) (marked : List Bytes) → is_due v marked ≡ true → IsDue marked v
unfolding is_terminal
is_due-IsDue v marked h = elim (Bool-cases (contains_job v.job marked)) [
  | inr c ↦ inr (contains_job-false v.job marked c)
  | inl c ↦ elim (Option-cases v.error) [
    | inr (x, e) ↦ ground (arith, c, e, h)
    | inl e ↦ elim (Option-cases v.tier) [
      | inl t ↦ inl (e, t)
      | inr (x, t) ↦ ground (arith, c, e, t, h)
    ]
  ]
]

IsDue-is_due : (v : JobView) (marked : List Bytes) → IsDue marked v → is_due v marked ≡ true
unfolding is_terminal
IsDue-is_due v marked (inl (e, t)) = rw (e, t) refl
IsDue-is_due v marked (inr unmarked) = elim (Bool-cases (contains_job v.job marked)) [
  | inl c ↦ absurd (unmarked (contains_job-IsMarked v.job marked c))
  | inr c ↦ ground (arith, c)
]

insert-IsIn : (v : JobView) (js : List JobView) → IsIn v (insert v js)
unfolding insert
insert-IsIn v [] = inl refl
insert-IsIn v (j ∷ js) = elim (Bool-cases (j.job == v.job)) [
  | inl e ↦ rw e (inl refl)
  | inr e ↦ rw e (inr (insert-IsIn v js))
]

untold-AllIn :
    (v : JobView) (marked : List Bytes) (js : List JobView)
    → IsIn v (untold marked js)
    → IsIn v js × (is_due v marked ≡ true)
unfolding untold
untold-AllIn v marked [] bad = absurd bad
untold-AllIn v marked (j ∷ js) h = elim (Bool-cases (is_due j marked)) [
  | inr dropped ↦
      let h' : IsIn v (untold marked js) = rw dropped at h in
      let (i, due) = untold-AllIn v marked js h' in (inr i, due)
  | inl kept ↦
      let h' : (v ≡ j) ⊎ IsIn v (untold marked js) = rw kept at h in
      elim h' [
        | inl own ↦ (inl own, rw own kept)
        | inr i ↦ let (i', due) = untold-AllIn v marked js i in (inr i', due)
      ]
]

module _ (jobs : List JobView) (marked : List Bytes) where
  push-AllDue :
      (js : List JobView) (sent : List Bytes) (s : Shared)
      → ((v : JobView) → IsIn v js → IsIn v jobs × (is_due v marked ≡ true))
      → AllDue jobs marked (push_jobs js sent s).0
  unfolding push_jobs
  push-AllDue [] sent s h = tt
  push-AllDue (j ∷ js) sent s h =
      let (i, due) = h j (inl refl) in
      (
        (j, (i, (is_due-IsDue j marked due, event_of-Announces j (next_seq s).0))),
        push-AllDue js _ (next_seq s).1 (λ v i'. h v (inr i')),
      )

push-IsAnnounced :
    (v : JobView) (js : List JobView) (sent : List Bytes) (s : Shared)
    → IsIn v js
    → IsAnnounced v (push_jobs js sent s).0
unfolding push_jobs
push-IsAnnounced v [] sent s bad = bad
push-IsAnnounced v (j ∷ js) sent s (inl e) = inl (rw e (event_of-Announces j (next_seq s).0))
push-IsAnnounced v (j ∷ js) sent s (inr h) = inr (push-IsAnnounced v js _ (next_seq s).1 h)

new_revision :
    (c : Connection) (s : Shared)
    → c.last_revision ≡ s.revision
    → s.revision + 1 < 2 ^ 64
    → (add64 s.revision 1 == c.last_revision) ≡ false
unfolding add64
new_revision c s seen small = ground (arith, seen, small)

-- A writer that has seen the shared state up to a `put` of a view, and is to tell of that view since
-- its job has not ended or its end was not told, announces it in its next pass: as `Failed` if it has
-- an error, else as `Finished` if it has a tier, else as `Progress`. All that the pass sends are
-- announcements of this kind, of views of the registry that are to be told of. The revision before
-- the `put` is not the last of 64 bits.
pub write_pass-Announced :
    (v : JobView) (c : Connection) (s : Shared)
    → c.last_revision ≡ s.revision
    → s.revision + 1 < 2 ^ 64
    → IsDue c.terminal_sent v
    → IsAnnounced v (write_pass c (put v s)).0
      × AllDue (put v s).jobs c.terminal_sent (write_pass c (put v s)).0
unfolding write_pass snapshot_for put
write_pass-Announced v c s seen small due = rw (new_revision c s seen small) (
  push-IsAnnounced v (untold c.terminal_sent (insert v s.jobs)) c.terminal_sent (put v s) (
      untold-IsIn v c.terminal_sent (insert v s.jobs) (IsDue-is_due v c.terminal_sent due)
        (insert-IsIn v s.jobs)),
  push-AllDue (insert v s.jobs) c.terminal_sent (untold c.terminal_sent (insert v s.jobs))
      c.terminal_sent (put v s) (λ w i. untold-AllIn w c.terminal_sent (insert v s.jobs) i),
)
