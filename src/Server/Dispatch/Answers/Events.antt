-- ===== src/Server/Dispatch/Answers/Events.antt =====
-- daemon/src/server.rs: which request each event answers.
use omafile.Prelude.{
  ℕ, Bytes, List, [], ◌∷◌, ◌++◌, Bool, Option, none, some, Result, ok, err, ◌≡◌, refl, ap,
}
use omafile.Paths.{FilePath}
use omafile.Error.{TransferError}
use omafile.Server.Protocol.{
  JobView, Event, tick, greeting, snapshot, reply, deleted, trash_available, restored, renamed,
  in_the_way, room, progress, finished, failed,
}
use omafile.Server.Session.{Env}
use omafile.Server.Dispatch.{deleted_for_good, renamed_event, room_event, restored_event}
use omafile.Space.{Space}
use omafile.Trash.Bin.{Disposal}

-- The number of the request that an event answers.
unfoldable pub event_id : Event → Option ℕ
event_id (reply seq id job error) = some id
event_id (deleted seq id path recoverable trashed_as info error) = some id
event_id (trash_available seq id path available) = some id
event_id (restored seq id path error) = some id
event_id (renamed seq id from to error) = some id
event_id (in_the_way seq id existing) = some id
event_id (room seq id path total available error) = some id
event_id (tick seq) = none
event_id (greeting seq version protocol) = none
event_id (snapshot seq jobs) = none
event_id (progress seq job) = none
event_id (finished seq job) = none
event_id (failed seq job) = none

abbrev pub with_id : Option ℕ → List ℕ → List ℕ
with_id none ids = ids
with_id (some id) ids = id ∷ ids

-- The requests that a row of events answers, in order.
abbrev pub answers : List Event → List ℕ
answers [] = []
answers (ev ∷ evs) = with_id (event_id ev) (answers evs)

pub answers-append : (evs fs : List Event) → answers (evs ++ fs) ≡ answers evs ++ answers fs
answers-append [] fs = refl
answers-append (ev ∷ evs) fs =
    elim (event_id ev)
      as (λ o. with_id o (answers (evs ++ fs)) ≡ with_id o (answers evs) ++ answers fs) [
        | none ↦ answers-append evs fs
        | some id ↦ ap (λ t. id ∷ t) (answers-append evs fs)
      ]

pub event_id-reply : (seq id : ℕ) (job : Option Bytes) → event_id (reply seq id job none) ≡ some id
unfolding event_id
event_id-reply seq id job = refl

pub event_id-snapshot : (seq : ℕ) (jobs : List JobView) → answers (snapshot seq jobs ∷ []) ≡ []
unfolding event_id
event_id-snapshot seq jobs = refl

module _ (env : Env) where
  pub deleted_for_good-id :
      (id : ℕ) (path : FilePath) (r : Result TransferError Disposal) (seq : ℕ)
      → event_id (deleted_for_good env id path r seq) ≡ some id
  unfolding event_id
  deleted_for_good-id id path (ok d) seq = refl
  deleted_for_good-id id path (err e) seq = refl

  pub renamed_event-id :
      (id : ℕ) (path : FilePath) (r : Result Bytes FilePath) (seq : ℕ)
      → event_id (renamed_event env id path r seq) ≡ some id
  unfolding event_id
  renamed_event-id id path (ok p) seq = refl
  renamed_event-id id path (err e) seq = refl

  pub room_event-id :
      (id : ℕ) (path : FilePath) (r : Result Bytes Space) (seq : ℕ)
      → event_id (room_event env id path r seq) ≡ some id
  unfolding event_id
  room_event-id id path (ok p) seq = refl
  room_event-id id path (err e) seq = refl

  pub restored_event-id :
      (id : ℕ) (r : Result TransferError FilePath) (seq : ℕ)
      → event_id (restored_event env id r seq) ≡ some id
  unfolding event_id
  restored_event-id id (ok p) seq = refl
  restored_event-id id (err e) seq = refl

  pub in_the_way-id :
      (id : ℕ) (names : List Bytes) (seq : ℕ) → event_id (in_the_way seq id names) ≡ some id
  unfolding event_id
  in_the_way-id id names seq = refl

  pub trash_available-id :
      (id : ℕ) (path : FilePath) (available : Bool) (seq : ℕ)
      → event_id (trash_available seq id path available) ≡ some id
  unfolding event_id
  trash_available-id id path available seq = refl
