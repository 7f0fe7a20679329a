-- ===== src/Trash/Restore/Erased.antt =====
-- daemon/src/trash.rs: `delete_permanently` takes a file, or a directory with what is inside it, and
-- nothing else.
use omafile.Prelude.{
  ℕ, Bool, true, false, Option, none, some, Result, ok, err, ◌≡◌, inl, inr, refl, sym, ◌∙◌, arith,
  list_eq, nat_eq, Exec, if◌then◌else◌, lift_err, pure, ◌>>◌,
}
use omafile.Prelude.Action.Post.{Post, bind-Post, pure-Post, attempt-bind-Post, lift-bind-Post}
use omafile.Paths.{FilePath}
use omafile.Error.{IoError, TransferError, io}
use omafile.Host.Machine.{Node, file, dir, socket, World, Host}
use omafile.Host.Calls.{stat, remove_file, tick}
use omafile.Host.Keeps.{node_at}
use omafile.Host.Dirs.{is_dir_at, is_directory, remove_dir_all}
use omafile.Trash.Bin.{Disposal, permanent}
use omafile.Trash.Bin.Refused.{Says, stat-Looked}
use omafile.Trash.Restore.{delete_permanently}
use omafile.Trash.Restore.Removal.{IsErased, remove_dir_all-IsErased, remove_file-IsErased}

module _ (host : Host) (path : FilePath) (w : World) where
  -- What the test for a directory found.
  abbrev Tested : Result TransferError Bool → World → Type 0
  Tested (ok directory) t =
      (t ≡ tick w)
      × ((r : Result IoError Node) × (Says host path w r × (directory ≡ is_directory r)))
  Tested (err _) t = ⊥

  is_dir_at-Tested : Post Tested (is_dir_at host path) w
  unfolding is_dir_at
  is_dir_at-Tested =
      attempt-bind-Post (λ r t. (t ≡ tick w) × Says host path w r) Tested (stat host path) _ w
        (stat-Looked host path w)
        (λ r t h. pure-Post Tested (is_directory r) t (h.0, (r, (h.1, refl))))

  abbrev by_kind : (ℕ → FilePath → Bool) → Bool → Exec World IoError (Unit {0})
  by_kind spared directory =
      if directory then remove_dir_all host spared path else remove_file host path

  by_kind-IsErased :
      (spared : ℕ → FilePath → Bool) (o : Option Node) (t : World)
      → t ≡ tick w
      → w.files path ≡ o
      → (r : Result IoError Node) → Says host path w r
      → Post (IsErased host path w {E = IoError} o) (by_kind spared (is_directory r)) t
  by_kind-IsErased spared o t next there (ok dir) found =
      rw (sym there ∙ found) (remove_dir_all-IsErased host path w spared t next found)
  by_kind-IsErased spared o t next there (ok (file c d)) found =
      remove_file-IsErased host path w o t next there (inl (λ e. ground (arith, e, there, found)))
  by_kind-IsErased spared o t next there (ok socket) found =
      remove_file-IsErased host path w o t next there (inl (λ e. ground (arith, e, there, found)))
  by_kind-IsErased spared o t next there (err x) (inl absent) =
      remove_file-IsErased host path w o t next there (inl (λ e. ground (arith, e, there, absent)))
  by_kind-IsErased spared o t next there (err x) (inr f) =
      remove_file-IsErased host path w o t next there
        (inr (w.clock, (omega arith, (omega arith, (x, inr f)))))

  module _ (E F A B : Type 0) (t : World) where
    any_ok :
        (o : Option Node) (a : A) (b : B)
        → IsErased host path w {E = E} o (ok a) t
        → IsErased host path w {E = F} o (ok b) t
    any_ok none a b h = h
    any_ok (some dir) a b h = h
    any_ok (some (file c d)) a b h = h
    any_ok (some socket) a b h = h

    any_err :
        (o : Option Node) (a : E) (b : F)
        → IsErased host path w {A = A} o (err a) t
        → IsErased host path w {A = B} o (err b) t
    any_err none a b h = h
    any_err (some dir) a b h = h
    any_err (some (file c d)) a b h = h
    any_err (some socket) a b h = h

  then_said :
      (o : Option Node) (m : Exec World IoError (Unit {0})) (t : World)
      → Post (IsErased host path w {E = IoError} o) m t
      → Post (IsErased host path w {E = TransferError} o) (do lift_err io m; pure permanent) t
  then_said o m t h =
      lift-bind-Post (IsErased host path w {E = IoError} o)
        (IsErased host path w {E = TransferError} o) m io _ t h
        (λ a u k.
          pure-Post (IsErased host path w {E = TransferError} o) permanent u
            (any_ok IoError TransferError (Unit {0}) Disposal u o a permanent k))
        (λ e u k. any_err IoError TransferError (Unit {0}) Disposal u o e (io e) k)

  said_of :
      (spared : ℕ → FilePath → Bool) (o : Option Node) (directory : Bool) (t : World)
      → Post (IsErased host path w {E = IoError} o) (by_kind spared directory) t
      → Post
          (IsErased host path w {E = TransferError} o)
          (do
            if directory
                then lift_err io (remove_dir_all host spared path)
                else lift_err io (remove_file host path)
            pure permanent)
          t
  said_of spared o true t h = then_said o (remove_dir_all host spared path) t h
  said_of spared o false t h = then_said o (remove_file host path) t h

  -- `delete_permanently` takes a directory with all that is inside it, and of anything else only
  -- that, and changes no other path. It fails only where one of its two calls fails or nothing is
  -- there; then a failed attempt on a directory may have taken some of what is inside it, and any
  -- other has changed nothing.
  pub delete_permanently-IsErased :
      (spared : ℕ → FilePath → Bool) (o : Option Node)
      → node_at path w ≡ o
      → Post (IsErased host path w o) (delete_permanently host spared path) w
  unfolding delete_permanently
  delete_permanently-IsErased spared o there =
      bind-Post Tested (IsErased host path w o) (is_dir_at host path) _ w is_dir_at-Tested
        (λ directory t (next, (r, (found, kind))).
          said_of spared o directory t (rw kind (by_kind-IsErased spared o t next there r found)))
        (λ _ _ bad. absurd bad)
