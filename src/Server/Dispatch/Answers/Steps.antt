-- ===== src/Server/Dispatch/Answers/Steps.antt =====
-- daemon/src/server.rs: steps of `dispatch` that say nothing, and steps that answer.
use mathlib.Core.List.{append-nil}
use omafile.Prelude.{
  ℕ, Bytes, List, [], ◌∷◌, ◌++◌, none, some, length, Result, ok, err, Exec, pure, attempt, ◌>>=◌,
  ◌≡◌, refl, ap, ◌∙◌,
}
use omafile.Prelude.Action.Post.{Post, bind-Post}
use omafile.Error.{IoError}
use omafile.Host.Machine.{World}
use omafile.Server.Protocol.{JobView, Event}
use omafile.Server.Job.{Order}
use omafile.Server.Session.{
  Session, Env, on_world, sequence_number, registered, forgotten, known_jobs, send, tell,
}
use omafile.Server.Dispatch.{new_job, spawned}
use omafile.Server.Dispatch.Answers.Events.{event_id, answers, answers-append}
use omafile.Server.Dispatch.Answers.Done.{IsDone, Runs}

-- Some requests more have been answered.
abbrev pub Answered : List ℕ → Session → {A : Type 0} → Result IoError A → Session → Type 0
Answered ids s (ok _) t = answers t.sent ≡ answers s.sent ++ ids
Answered ids s (err _) t = ⊥

-- What has nothing to say.
abbrev pub Quiet : Session → {A : Type 0} → Result IoError A → Session → Type 0
Quiet s (ok _) t = answers t.sent ≡ answers s.sent
Quiet s (err _) t = ⊥

pub on_world-Quiet :
    {A : Type 0} (m : Exec World IoError A) (s : Session) → Runs m → Post (Quiet s) (on_world m) s
unfolding on_world
on_world-Quiet {A = A} m s runs = go (m s.world).0 (runs s.world)
  where
    go : (r : Result IoError A) → IsDone r → Quiet s r (record s { world = (m s.world).1 })
    go (ok a) h = refl
    go (err e) bad = bad

pub attempt_world-Quiet :
    {F A : Type 0} (m : Exec World F A) (s : Session) → Post (Quiet s) (attempt (on_world m)) s
unfolding on_world attempt
attempt_world-Quiet m s = refl

pub sequence-Quiet : (s : Session) → Post (Quiet s) sequence_number s
unfolding sequence_number
sequence-Quiet s = refl

pub after_quiet :
    {A : Type 0} (ids : List ℕ) (s t u : Session) (r : Result IoError A)
    → answers t.sent ≡ answers s.sent
    → Answered ids t r u
    → Answered ids s r u
after_quiet ids s t u (ok b) same h = h ∙ ap (λ x. x ++ ids) same
after_quiet ids s t u (err e) same bad = bad

-- One step that says nothing, then others.
pub quietly :
    {A B : Type 0} (ids : List ℕ) (m : Exec Session IoError A) (f : A → Exec Session IoError B)
    (s : Session)
    → Post (Quiet s) m s
    → ((a : A) (t : Session) → Post (Answered ids t) (f a) t)
    → Post (Answered ids s) (m >>= f) s
quietly ids m f s quiet next =
    bind-Post (Quiet s) (Answered ids s) m f s quiet
      (λ a t same. after_quiet ids s t (f a t).1 (f a t).0 same (next a t)) (λ _ _ bad. bad)

-- After an answer, what answers no other request.
pub after_answer :
    {A : Type 0} (ids : List ℕ) (s t u : Session) (r : Result IoError A)
    → answers t.sent ≡ answers s.sent ++ ids
    → Answered [] t r u
    → Answered ids s r u
after_answer ids s t u (ok b) h more = more ∙ append-nil (answers t.sent) ∙ h
after_answer ids s t u (err e) h bad = bad

-- After a step that answered, one that says nothing.
pub then_quietly :
    {B : Type 0} (ids : List ℕ) (m : Exec Session IoError (Unit {0}))
    (f : Unit {0} → Exec Session IoError B) (s : Session)
    → Post (Answered ids s) m s
    → ((t : Session) → Post (Quiet t) (f tt) t)
    → Post (Answered ids s) (m >>= f) s
then_quietly {B = B} ids m f s answered next =
    bind-Post (Answered ids s) (Answered ids s) m f s answered
      (λ _ t h. later (f tt t).0 (f tt t).1 t h (next t)) (λ _ _ bad. bad)
  where
    later :
        (r : Result IoError B) (u t : Session)
        → answers t.sent ≡ answers s.sent ++ ids
        → Quiet t r u
        → Answered ids s r u
    later (ok b) u t h same = same ∙ h
    later (err e) u t h bad = bad

pub registered-Quiet : (v : JobView) (s : Session) → Post (Quiet s) (registered v) s
unfolding registered
registered-Quiet v s = refl

pub forgotten-Quiet : (job : Bytes) (s : Session) → Post (Quiet s) (forgotten job) s
unfolding forgotten
forgotten-Quiet job s = refl

pub known_jobs-Quiet : (s : Session) → Post (Quiet s) known_jobs s
unfolding known_jobs
known_jobs-Quiet s = refl

pub new_job-Quiet : (s : Session) → Post (Quiet s) new_job s
unfolding new_job
new_job-Quiet s = refl

pub spawned-Quiet : (order : Order) (v : JobView) (s : Session) → Post (Quiet s) (spawned order v) s
unfolding spawned
spawned-Quiet order v s = refl

pub pure-Quiet : {A : Type 0} (a : A) (s : Session) → Post (Quiet s) (pure a) s
unfolding pure
pure-Quiet a s = refl

module _ (env : Env) (willing : (n : ℕ) → env.accepts n ≡ none) where
  pub send-Answered :
      (ev : Event) (ids : List ℕ) (s : Session)
      → answers (ev ∷ []) ≡ ids
      → Post (Answered ids s) (send env ev) s
  unfolding send
  send-Answered ev ids s e =
      rw (willing (length s.sent), send)
        (answers-append s.sent (ev ∷ []) ∙ ap (λ x. answers s.sent ++ x) e)

  pub tell-Answered :
      (ev : ℕ → Event) (id : ℕ) (s : Session)
      → ((seq : ℕ) → event_id (ev seq) ≡ some id)
      → Post (Answered (id ∷ []) s) (tell env ev) s
  unfolding tell
  tell-Answered ev id s h =
      quietly (id ∷ []) sequence_number (λ seq. send env (ev seq)) s (sequence-Quiet s)
        (λ seq t. send-Answered (ev seq) (id ∷ []) t (rw (h seq) refl))
