-- ===== src/Server/Dispatch.antt =====
-- daemon/src/server.rs: `dispatch`.
pub mod Answers
pub mod Deleted
use omafile.Prelude.{
  ℕ, suc, ◌%◌, ◌+◌, ◌^◌, Bytes, codes, List, [], ◌∷◌, ◌++◌, Bool, true, false, Option, none, some,
  decimal, if◌then◌else◌, Result, ok, err, Exec, pure, attempt, ◌>>=◌, ◌>>◌,
}
use omafile.Paths.{FilePath, child}
use omafile.Error.{IoError, TransferError, error_text}
use omafile.Host.Machine.{World}
use omafile.Host.Calls.{exists}
use omafile.Engine.Types.{Conflict, Options}
use omafile.Engine.Stream.{add64}
use omafile.Server.Protocol.{
  Request, hello, copy, move, conflicts, delete, can_trash, restore, rename, release, space,
  JobView, Event, snapshot, reply, deleted, trash_available, restored, renamed, in_the_way, room,
}
use omafile.Server.Job.{file_name_of, joined, Order, base_view, expected_size}
use omafile.Server.Rename.{rename_in_place}
use omafile.Server.Session.{
  Thread, Session, Env, on_world, sequence_number, registered, forgotten, known_jobs, send, tell,
}
use omafile.Space.{Space, query}
use omafile.Trash.Bin.{Disposal, trashed, permanent, can_trash_in, trash_in}
use omafile.Trash.Restore

-- `fetch_add` on `next_job`, as the job's name.
unfoldable pub new_job : {E : Type 0} → Exec Session E Bytes
new_job s = (
  ok (codes "j" ++ decimal s.shared.next_job),
  record s { shared = record s.shared { next_job = add64 s.shared.next_job 1 } },
)

unfoldable pub spawned : {E : Type 0} → Order → JobView → Exec Session E (Unit {0})
spawned order base s =
    (ok tt, record s { threads = s.threads ++ (record { order = order; base = base } ∷ []) })

module _ (env : Env) where
  -- `start_job`, up to the thread that it starts.
  unfoldable pub accept_job :
      ℕ → List FilePath → FilePath → Bool → Conflict → Bool → Exec Session IoError (Unit {0})
  accept_job id sources destination_dir checksum on_conflict is_move = do
    job ← new_job
    let order : Order = record {
      job = job;
      sources = sources;
      destination_dir = destination_dir;
      opts = record { checksum = checksum; on_conflict = on_conflict };
      is_move = is_move;
    }
    expected_total ← on_world (expected_size env.host env.io_text sources 0)
    registered (base_view order expected_total)
    tell env (λ seq. reply seq id (some job) none)
    spawned order (base_view order expected_total)

  -- The names that are taken in a directory.
  unfoldable pub taken_names : {E : Type 0} → List FilePath → FilePath → Exec World E (List Bytes)
  taken_names [] dir = pure []
  taken_names (source ∷ rest) dir = do
    there ← exists env.host (joined dir source)
    more ← taken_names rest dir
    pure (if there then file_name_of source ∷ more else more)

  abbrev pub told_error : TransferError → Option Bytes
  told_error e = some (error_text env.io_text e)

  abbrev pub deleted_for_good : ℕ → FilePath → Result TransferError Disposal → ℕ → Event
  deleted_for_good id path (ok _) seq = deleted seq id path false none none none
  deleted_for_good id path (err e) seq = deleted seq id path false none none (told_error e)

  -- The arms on what became of the attempt to trash.
  unfoldable pub after_trash :
      ℕ → FilePath → Result TransferError Disposal → Exec Session IoError (ℕ → Event)
  after_trash id path (ok (trashed trashed_as info)) =
      pure (λ seq. deleted seq id path true (some trashed_as) (some info) none)
  after_trash id path (ok permanent) = do
    r ← attempt (on_world (Restore.delete_permanently env.host env.spared path))
    pure (deleted_for_good id path r)
  after_trash id path (err e) = pure (λ seq. deleted seq id path false none none (told_error e))

  unfoldable pub delete_file : ℕ → FilePath → Exec Session IoError (Unit {0})
  delete_file id path = do
    r ← attempt (on_world (λ w. trash_in env.host env.trash_root path (env.now w) w))
    ev ← after_trash id path r
    tell env ev

  abbrev pub renamed_event : ℕ → FilePath → Result Bytes FilePath → ℕ → Event
  renamed_event id path (ok to) seq = renamed seq id path (some to) none
  renamed_event id path (err e) seq = renamed seq id path none (some e)

  abbrev pub room_event : ℕ → FilePath → Result Bytes Space → ℕ → Event
  room_event id path (ok s) seq = room seq id path (some s.total) (some s.available) none
  room_event id path (err e) seq = room seq id path none none (some e)

  abbrev pub restored_event : ℕ → Result TransferError FilePath → ℕ → Event
  restored_event id (ok p) seq = restored seq id (some p) none
  restored_event id (err e) seq = restored seq id none (told_error e)

  unfoldable pub dispatch : Request → Exec Session IoError (Unit {0})
  dispatch (hello id client_version) = tell env (λ seq. reply seq id none none)
  dispatch (Request.state id) = do
    tell env (λ seq. reply seq id none none)
    seq ← sequence_number
    jobs ← known_jobs
    send env (snapshot seq jobs)
  dispatch (copy id sources destination_dir checksum on_conflict) =
      accept_job id sources destination_dir checksum on_conflict false
  dispatch (move id sources destination_dir checksum on_conflict) =
      accept_job id sources destination_dir checksum on_conflict true
  dispatch (conflicts id sources destination_dir) = do
    existing ← on_world (taken_names sources destination_dir)
    tell env (λ seq. in_the_way seq id existing)
  dispatch (can_trash id path) = do
    available ← on_world (can_trash_in env.host env.trash_root path)
    tell env (λ seq. trash_available seq id path available)
  dispatch (delete id path) = delete_file id path
  dispatch (rename id path new_name) = do
    r ← attempt (on_world (rename_in_place env.host env.io_text path new_name))
    tell env (renamed_event id path r)
  dispatch (space id path) = tell env (room_event id path (query env.io_text env.statvfs path))
  dispatch (release id job) = do forgotten job; tell env (λ seq. reply seq id none none)
  dispatch (restore id trashed_as info) = do
    r ←
        attempt
          (on_world (Restore.restore env.host env.from_utf8_lossy env.is_utf8 trashed_as info))
    tell env (restored_event id r)
