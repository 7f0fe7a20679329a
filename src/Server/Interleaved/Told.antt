-- ===== src/Server/Interleaved/Told.antt =====
-- daemon/src/server.rs: what a connection has marked as told of, its client has been told.
use omafile.Prelude.{
  ℕ, ◌<◌, Bytes, Bool, true, ◌==◌, list_eq, nat_eq, Bool-cases, ◌≡◌, ◌⊎◌, inl, inr, refl, ◌∙◌,
  arith,
}
use omafile.Server.Protocol.{JobView, Event, tick, greeting, snapshot}
use omafile.Server.Registry.{is_terminal, contains_job}
use omafile.Server.Writer.{event_of, finished_jobs}
use omafile.Server.Writer.Once.{said, endings, said-event_of}
use omafile.Server.Interleaved.{
  Memory, Place, say, mark, Move, greet, snap, send_state, send_tick, tell_job, Outside, inserts,
  bumps, removes, takes_number, Answer, answers, is_answer,
}

-- The client has been told that a job has ended.
abbrev pub IsToldOf : Bytes → Memory → Type 0
IsToldOf job m = (contains_job job (finished_jobs m.opening) ≡ true) ⊎ (0 < endings job m.told)

told_more : (job : Bytes) (ev : ℕ → Event) (m : Memory) → IsToldOf job m → IsToldOf job (say ev m)
told_more job ev m (inl e) = inl e
told_more job ev m (inr h) = inr (omega (arith, h))

told_end :
    (job : Bytes) (j : JobView) (m : Memory)
    → is_terminal j ≡ true
    → (j.job == job) ≡ true
    → 0 < endings job (say (λ seq. event_of seq j) m).told
told_end job j m ended own =
    let one : said job (event_of m.shared.seq j) ≡ 1 =
      said-event_of job m.shared.seq j ∙ rw (ended, own) refl in
    omega (arith, one)

mark-told :
    (job : Bytes) (j : JobView) (m : Memory)
    → (contains_job job m.terminal_sent ≡ true → IsToldOf job m)
    → contains_job job (mark j m).terminal_sent ≡ true
    → IsToldOf job (say (λ seq. event_of seq j) (mark j m))
unfolding contains_job
mark-told job j m h c = elim (Bool-cases (is_terminal j)) [
  | inl ended ↦ elim (Bool-cases (j.job == job)) [
    | inl own ↦ inr (told_end job j (mark j m) ended own)
    | inr other ↦
        let old : contains_job job m.terminal_sent ≡ true = rw (ended, other) at c in
        told_more job (λ seq. event_of seq j) (mark j m) (h old)
  ]
  | inr runs ↦
      let old : contains_job job m.terminal_sent ≡ true = rw runs at c in
      told_more job (λ seq. event_of seq j) (mark j m) (h old)
]

pub Move-marked :
    {m n : Memory} {p q : Place}
    → Move m p n q
    → ((job : Bytes) → contains_job job m.terminal_sent ≡ true → IsToldOf job m)
    → (job : Bytes) → contains_job job n.terminal_sent ≡ true
    → IsToldOf job n
Move-marked {m} (greet {version} {protocol}) h job c =
    told_more job (λ seq. greeting seq version protocol) m (h job c)
Move-marked snap h job c = inl c
Move-marked {m} send_state h job c = told_more job (λ seq. snapshot seq m.opening) m (h job c)
Move-marked {m} (send_tick same full) h job c = told_more job tick (record m { idle = 0 }) (h job c)
Move-marked {m} (tell_job {j} {js}) h job c = mark-told job j m (h job) c
Move-marked mv h job c = h job c

pub Outside-marked :
    {early : Bool} {m n : Memory}
    → Outside early m n
    → ((job : Bytes) → contains_job job m.terminal_sent ≡ true → IsToldOf job m)
    → (job : Bytes) → contains_job job n.terminal_sent ≡ true
    → IsToldOf job n
Outside-marked (inserts u) h job c = h job c
Outside-marked (bumps some_left fits) h job c = h job c
Outside-marked (removes r) h job c = h job c
Outside-marked takes_number h job c = h job c

pub said-answer : (job : Bytes) (ev : Event) → is_answer ev ≡ true → said job ev ≡ 0
unfolding is_answer
said-answer job ev h = ground arith

pub Answer-marked :
    {m n : Memory}
    → Answer m n
    → ((job : Bytes) → contains_job job m.terminal_sent ≡ true → IsToldOf job m)
    → (job : Bytes) → contains_job job n.terminal_sent ≡ true
    → IsToldOf job n
Answer-marked {m} (answers ev kind) h job c = elim (h job c) [
  | inl e ↦ inl e
  | inr told ↦ inr (omega (arith, told))
]
