-- ===== src/Server/Dispatch/Deleted.antt =====
-- daemon/src/server.rs: the answer to a request to delete a file says what became of it.
use omafile.Prelude.{
  ℕ, Bytes, codes, [], ◌∷◌, ◌++◌, Bool, true, false, none, some, length, Result, ok, err, ◌>>=◌,
  ◌≡◌, refl, ◌∙◌, ap,
}
use mathlib.Core.Path.{subst}
use omafile.Prelude.Action.Post.{Post, bind-Post, pure-Post, attempt-bind-Post}
use omafile.Paths.{FilePath, below, child}
use omafile.Error.{IoError, TransferError}
use omafile.Host.Machine.{file, World}
use omafile.Host.Calls.{dir_of}
use omafile.Host.Keeps.{node_at}
use omafile.Server.Protocol.{Event, deleted}
use omafile.Server.Session.{
  Session, Env, on_world, on_world-Post, on_world-sent, sequence_number, send, tell,
}
use omafile.Server.Dispatch.{after_trash, delete_file, deleted_for_good}
use omafile.Trash.Bin.{Disposal, trashed, permanent, trash_in}
use omafile.Trash.Bin.Kept.{IsKept, trash_in-IsKept}
use omafile.Trash.Bin.Refused.{CannotTrash, IsRefused, trash_in-IsRefused}
use omafile.Trash.Restore
use omafile.Trash.Restore.Removal.{IsErased}
use omafile.Trash.Restore.Erased.{delete_permanently-IsErased}

module _ (env : Env) (path : FilePath) (c : Bytes) (durable : Bool)
    (outside : below env.trash_root path ≡ none) (s : Session) where
  -- What became of the attempt to trash.
  abbrev pub verdict : Result TransferError Disposal
  verdict = (trash_in env.host env.trash_root path (env.now s.world) s.world).0

  -- A file called recoverable is whole in the trash under the name given; one that is not, with no
  -- error, is gone and could not be trashed; one with an error is where it was.
  abbrev pub IsTrue : Event → World → Type 0
  IsTrue (deleted seq id q true (some p) (some info) none) t =
      (dir_of p ≡ child env.trash_root (codes "files")) × (node_at p t ≡ some (file c durable))
  IsTrue (deleted seq id q false none none none) t =
      CannotTrash env.host env.trash_root path s.world × (node_at path t ≡ none)
  IsTrue (deleted seq id q false none none (some e)) t = node_at path t ≡ some (file c durable)
  IsTrue _ t = ⊥

  -- An answer that is true of the files as they then are, whatever its sequence number.
  abbrev Honest : Result IoError (ℕ → Event) → Session → Type 0
  Honest (ok ev) t = (t.sent ≡ s.sent) × ((seq : ℕ) → IsTrue (ev seq) t.world)
  Honest (err _) t = ⊥

  cannot : verdict ≡ ok permanent → CannotTrash env.host env.trash_root path s.world
  cannot e =
      subst (λ r. IsRefused env.host env.trash_root path s.world r after.1) e
        (trash_in-IsRefused env.host env.trash_root path s.world (env.now s.world))
    where
      after : Result TransferError Disposal × World
      after = trash_in env.host env.trash_root path (env.now s.world) s.world

  deleted_for_good-IsTrue :
      (id seq : ℕ) (w : World) (r : Result TransferError Disposal) (t : World)
      → node_at path w ≡ some (file c durable)
      → verdict ≡ ok permanent
      → IsErased env.host path w (some (file c durable)) r t
      → IsTrue (deleted_for_good env id path r seq) t
  deleted_for_good-IsTrue id seq w (ok d) t h v gone = (cannot v, gone.0)
  deleted_for_good-IsTrue id seq w (err e) t h v same = same.0 path ∙ h

  after_trash-Honest :
      (id : ℕ) (now : Bytes) (r : Result TransferError Disposal) (t : Session)
      → IsKept env.host env.trash_root path now (file c durable) outside r t.world
      → t.sent ≡ s.sent
      → verdict ≡ r
      → Post Honest (after_trash env id path r) t
  unfolding after_trash
  after_trash-Honest id now (ok (trashed p info)) t kept same v =
      pure-Post Honest _ t (same, λ seq. kept)
  after_trash-Honest id now (ok permanent) t kept same v =
      attempt-bind-Post
        (λ r u.
          (u.sent ≡ s.sent) × IsErased env.host path t.world (some (file c durable)) r u.world)
        Honest (on_world (Restore.delete_permanently env.host env.spared path)) _ t
        (
          on_world-sent _ t ∙ same,
          on_world-Post (IsErased env.host path t.world (some (file c durable))) _ t (
              delete_permanently-IsErased env.host path t.world env.spared (some (file c durable))
                kept),
        )
        (λ r u erased.
          pure-Post Honest _ u
            (erased.0, λ seq. deleted_for_good-IsTrue id seq t.world r u.world kept v erased.1))
  after_trash-Honest id now (err e) t kept same v = pure-Post Honest _ t (same, λ seq. kept)

  -- What was sent is true of the files; if sending fails, nothing was said.
  abbrev pub IsTold : Result IoError (Unit {0}) → Session → Type 0
  IsTold (ok _) t = (ev : Event) × ((t.sent ≡ s.sent ++ (ev ∷ [])) × IsTrue ev t.world)
  IsTold (err _) t = t.sent ≡ s.sent

  send-IsTold :
      (ev : Event) (t : Session) → t.sent ≡ s.sent → IsTrue ev t.world → Post IsTold (send env ev) t
  unfolding send
  send-IsTold ev t same h =
      elim (env.accepts (length t.sent))
        as (λ o.
          Post IsTold
            (λ u. elim o [
              | some e ↦ (err e, u)
              | none ↦ (ok tt, record u { sent = u.sent ++ (ev ∷ []) })
            ])
            t) [ some e ↦ same | none ↦ (ev, (ap (λ x. x ++ (ev ∷ [])) same, h)) ]

  tell-IsTold :
      (ev : ℕ → Event) (t : Session)
      → t.sent ≡ s.sent
      → ((seq : ℕ) → IsTrue (ev seq) t.world)
      → Post IsTold (tell env ev) t
  unfolding tell sequence_number ◌>>=◌
  tell-IsTold ev t same h = send-IsTold (ev _) (record t { shared = _ }) same (h _)

  trash_verdict :
      verdict
      ≡ (on_world {E = TransferError}
          (λ w. trash_in env.host env.trash_root path (env.now w) w)
          s).0
  unfolding on_world
  trash_verdict = refl

  -- A client that asks for a file outside the trash to be deleted is told the truth, on every
  -- machine: of a file called recoverable, that it is whole in the trash's directory of files under
  -- the name given; of one that is not, that it is gone, which happens only where it cannot be
  -- trashed: its directory is missing, or the trash's (the trash itself where it is there, else the
  -- directory above it), or the two are on different devices, or a lookup of one of these fails; with
  -- an error, that it is where it was. If the answer cannot be sent, nothing was said.
  pub delete_file-IsTold :
      (id : ℕ)
      → node_at path s.world ≡ some (file c durable)
      → Post IsTold (delete_file env id path) s
  unfolding delete_file
  delete_file-IsTold id h =
      attempt-bind-Post
        (λ r t.
          IsKept env.host env.trash_root path (env.now s.world) (file c durable) outside r t.world
          × ((t.sent ≡ s.sent) × (verdict ≡ r)))
        IsTold (on_world (λ w. trash_in env.host env.trash_root path (env.now w) w)) _ s
        (
          on_world-Post
              (IsKept env.host env.trash_root path (env.now s.world) (file c durable) outside)
              (λ w. trash_in env.host env.trash_root path (env.now w) w) s
              (trash_in-IsKept env.host env.trash_root path (env.now s.world) (file c durable)
                outside s.world h),
          (on_world-sent _ s, trash_verdict),
        )
        (λ r t kept.
          bind-Post Honest IsTold (after_trash env id path r) (tell env) t
            (after_trash-Honest id (env.now s.world) r t kept.0 kept.1.0 kept.1.1)
            (λ ev u honest. tell-IsTold ev u honest.0 honest.1) (λ _ _ bad. elim bad [ ]))
