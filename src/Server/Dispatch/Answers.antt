-- ===== src/Server/Dispatch/Answers.antt =====
-- Every request is answered once, under its own number.
pub mod Events
pub mod Done
pub mod Steps
use mathlib.Core.List.{append_assoc, append-nil}
use omafile.Prelude.{
  ℕ, Bytes, List, [], ◌∷◌, ◌++◌, Bool, true, false, Option, none, some, length, if◌then◌else◌,
  Result, ok, err, Exec, pure, attempt, ◌>>=◌, ◌>>◌, ◌≡◌, refl, sym, ap, ◌∙◌,
}
use omafile.Prelude.Action.Post.{Post, bind-Post, pure-Post, attempt-bind-Post}
use omafile.Paths.{FilePath}
use omafile.Error.{IoError, TransferError}
use omafile.Host.Machine.{World}
use omafile.Host.Calls.{stat, exists}
use omafile.Engine.Types.{Conflict}
use omafile.Engine.Stream.{add64}
use omafile.Server.Protocol.{
  Request, hello, copy, move, conflicts, delete, can_trash, restore, rename, release, space,
  JobView, Event, tick, greeting, snapshot, reply, deleted, trash_available, restored, renamed,
  in_the_way, room, progress, finished, failed, request_id,
}
use omafile.Server.Tally.{len_or_zero}
use omafile.Server.Job.{Order, base_view, expected_size, joined, file_name_of}
use omafile.Server.Rename.{rename_in_place}
use omafile.Server.Session.{
  Session, Env, on_world, sequence_number, registered, forgotten, known_jobs, send, tell,
}
use omafile.Server.Dispatch.{
  new_job, spawned, accept_job, taken_names, after_trash, delete_file, dispatch, deleted_for_good,
  renamed_event, room_event, restored_event,
}
use omafile.Space.{Space, query}
use omafile.Trash.Bin.{Disposal, trashed, permanent, can_trash_in, trash_in, anchor_of}
use omafile.Trash.Restore
use omafile.Server.Dispatch.Answers.Events.{
  event_id, answers, answers-append, event_id-reply, event_id-snapshot, deleted_for_good-id,
  renamed_event-id, room_event-id, restored_event-id, in_the_way-id, trash_available-id,
}
use omafile.Server.Dispatch.Answers.Done.{
  IsDone, Runs, expected_size-Runs, taken_names-Runs, can_trash-Runs,
}
use omafile.Server.Dispatch.Answers.Steps.{
  Answered, send-Answered, Quiet, on_world-Quiet, attempt_world-Quiet, sequence-Quiet, after_quiet,
  quietly, after_answer, tell-Answered, then_quietly, registered-Quiet, forgotten-Quiet,
  known_jobs-Quiet, new_job-Quiet, spawned-Quiet,
}

module _ (env : Env) (willing : (n : ℕ) → env.accepts n ≡ none) where
  accept_job-Answered :
      (id : ℕ) (sources : List FilePath) (dir : FilePath) (checksum : Bool) (on_conflict : Conflict)
      (is_move : Bool) (s : Session)
      → Post (Answered (id ∷ []) s) (accept_job env id sources dir checksum on_conflict is_move) s
  unfolding accept_job
  accept_job-Answered id sources dir checksum on_conflict is_move s =
      quietly (id ∷ []) new_job _ s (new_job-Quiet s) (λ job t.
        quietly (id ∷ []) (on_world (expected_size env.host env.io_text sources 0)) _ t
          (on_world-Quiet _ t (expected_size-Runs env sources 0))
          (λ total u. quietly (id ∷ []) (registered _) _ u (registered-Quiet _ u) (λ _ v.
            then_quietly (id ∷ []) (tell env (λ seq. reply seq id (some job) none)) _ v
              (tell-Answered env willing (λ seq. reply seq id (some job) none) id v
                (λ seq. event_id-reply seq id (some job)))
              (spawned-Quiet _ _))))

  -- An event for the request, found without saying anything.
  abbrev Names : ℕ → Session → Result IoError (ℕ → Event) → Session → Type 0
  Names id s (ok ev) t = ((seq : ℕ) → event_id (ev seq) ≡ some id) × answers t.sent ≡ answers s.sent
  Names id s (err _) t = ⊥

  after_trash-Names :
      (id : ℕ) (path : FilePath) (r : Result TransferError Disposal) (s : Session)
      → Post (Names id s) (after_trash env id path r) s
  unfolding after_trash event_id
  after_trash-Names id path (ok (trashed p info)) s = pure-Post (Names id s) _ s (λ seq. refl, refl)
  after_trash-Names id path (ok permanent) s =
      bind-Post (Quiet s) (Names id s)
        (attempt (on_world (Restore.delete_permanently env.host env.spared path)))
        (λ r. pure (deleted_for_good env id path r)) s (attempt_world-Quiet _ s)
        (λ r t same. pure-Post (Names id s) _ t (deleted_for_good-id env id path r, same))
        (λ _ _ bad. bad)
  after_trash-Names id path (err e) s = pure-Post (Names id s) _ s (λ seq. refl, refl)

  delete_file-Answered :
      (id : ℕ) (path : FilePath) (s : Session)
      → Post (Answered (id ∷ []) s) (delete_file env id path) s
  unfolding delete_file
  delete_file-Answered id path s =
      quietly (id ∷ [])
        (attempt (on_world (λ w. trash_in env.host env.trash_root path (env.now w) w))) _ s
        (attempt_world-Quiet _ s)
        (λ r t.
          bind-Post (Names id t) (Answered (id ∷ []) t) (after_trash env id path r) (tell env) t
            (after_trash-Names id path r t)
            (λ ev u named.
              after_quiet (id ∷ []) t u (tell env ev u).1 (tell env ev u).0 named.1
                (tell-Answered env willing ev id u named.0))
            (λ _ _ bad. bad))

  told_jobs : Exec Session IoError (Unit {0})
  told_jobs = do seq ← sequence_number; jobs ← known_jobs; send env (snapshot seq jobs)

  told_jobs-Answered : (s : Session) → Post (Answered [] s) told_jobs s
  unfolding told_jobs
  told_jobs-Answered s = quietly [] sequence_number _ s (sequence-Quiet s) (λ seq t.
      quietly [] known_jobs _ t (known_jobs-Quiet t)
        (λ jobs u. send-Answered env willing (snapshot seq jobs) [] u (event_id-snapshot seq jobs)))

  state-Answered :
      (id : ℕ) (s : Session) → Post (Answered (id ∷ []) s) (dispatch env (Request.state id)) s
  unfolding dispatch told_jobs
  state-Answered id s =
      bind-Post (Answered (id ∷ []) s) (Answered (id ∷ []) s)
        (tell env (λ seq. reply seq id none none)) (λ _. told_jobs) s
        (tell-Answered env willing (λ seq. reply seq id none none) id s
          (λ seq. event_id-reply seq id none))
        (λ _ t h.
          after_answer (id ∷ []) s t (told_jobs t).1 (told_jobs t).0 h (told_jobs-Answered t))
        (λ _ _ bad. bad)

  -- Every request is answered, exactly once and under its own number.
  pub dispatch-Answered :
      (req : Request) (s : Session) → Post (Answered (request_id req ∷ []) s) (dispatch env req) s
  unfolding dispatch request_id
  dispatch-Answered (hello id v) s =
      tell-Answered env willing (λ seq. reply seq id none none) id s
        (λ seq. event_id-reply seq id none)
  dispatch-Answered (Request.state id) s = state-Answered id s
  dispatch-Answered (copy id sources dir checksum on_conflict) s =
      accept_job-Answered id sources dir checksum on_conflict false s
  dispatch-Answered (move id sources dir checksum on_conflict) s =
      accept_job-Answered id sources dir checksum on_conflict true s
  dispatch-Answered (conflicts id sources dir) s =
      quietly (id ∷ []) (on_world (taken_names env sources dir)) _ s
        (on_world-Quiet _ s (taken_names-Runs env sources dir))
        (λ existing t. tell-Answered env willing _ id t (in_the_way-id env id existing))
  dispatch-Answered (can_trash id path) s =
      quietly (id ∷ []) (on_world (can_trash_in env.host env.trash_root path)) _ s
        (on_world-Quiet _ s (can_trash-Runs env path))
        (λ available t. tell-Answered env willing _ id t (trash_available-id env id path available))
  dispatch-Answered (delete id path) s = delete_file-Answered id path s
  dispatch-Answered (rename id path new_name) s =
      quietly (id ∷ []) (attempt (on_world (rename_in_place env.host env.io_text path new_name))) _
        s (attempt_world-Quiet _ s)
        (λ r t. tell-Answered env willing _ id t (renamed_event-id env id path r))
  dispatch-Answered (space id path) s =
      tell-Answered env willing _ id s
        (room_event-id env id path (query env.io_text env.statvfs path))
  dispatch-Answered (release id job) s =
      quietly (id ∷ []) (forgotten job) _ s (forgotten-Quiet job s)
        (λ _ t. tell-Answered env willing _ id t (λ seq. event_id-reply seq id none))
  dispatch-Answered (restore id trashed_as info) s =
      quietly (id ∷ [])
        (attempt
          (on_world (Restore.restore env.host env.from_utf8_lossy env.is_utf8 trashed_as info)))
        _ s (attempt_world-Quiet _ s)
        (λ r t. tell-Answered env willing _ id t (restored_event-id env id r))
