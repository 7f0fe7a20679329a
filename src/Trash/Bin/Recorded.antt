-- ===== src/Trash/Bin/Recorded.antt =====
-- A file that is trashed has its record beside it.
use omafile.Prelude.{
  Bytes, codes, Bool, true, false, none, some, Result, ok, err, ◌≡◌, ◌≢◌, refl, sym, ◌∙◌, arith,
  ==_ne, list_eq, nat_eq,
}
use omafile.Prelude.Action.Post.{
  Post, bind-Post, pure-Post, raise-Post, attempt-bind-Post, discard-bind-Post, lift-bind-Post,
}
use omafile.Paths.{FilePath, below, below-eq-none, child}
use omafile.Paths.Sibling.{below_child, below-eq-none_of_length}
use omafile.Error.{IoError, TransferError, io}
use omafile.Host.Machine.{file, World, Host}
use omafile.Host.Calls.{stat}
use omafile.Host.Keeps.{node_at, rename-Keeps}
use omafile.Host.Reads.{write_file-Has, Has}
use omafile.Trash.Bin.{
  Disposal, trashed, permanent, info_at, file_at, canonical, trash_info, settled, trash_as,
  trash_where, trash_in,
}

-- What is outside a directory and not its child is not the child's.
below-other :
    (p : FilePath) (name : Bytes) (d : FilePath)
    → below p d ≡ none
    → p ≢ child d name
    → below p (child d name) ≡ none
unfolding below
below-other p name d h ne = ground (arith, ==_ne p (child d name) ne)

module _ (host : Host) (root path : FilePath) (now : Bytes) (outside : below root path ≡ none)
    (not_around : below path root ≡ none) where
  ne_below :
      (d : FilePath) (name : Bytes)
      → below root path ≡ none
      → below d path ≡ none
      → path ≢ child d name
  ne_below d name h k e = below-eq-none (child d name) path (below_child d name path k) (sym e)

  info_apart : (name : Bytes) → below path (info_at root name) ≡ none
  info_apart name =
      let in_root = below_child root (codes "info") path outside in
      below-other path _ (child root (codes "info"))
        (below-other path (codes "info") root not_around
          (ne_below root (codes "info") outside outside))
        (ne_below (child root (codes "info")) _ outside in_root)

  file_apart : (name other : Bytes) → below (file_at root name) (info_at root other) ≡ none
  file_apart name other =
      below-eq-none_of_length (file_at root name) (info_at root other) (omega arith) (λ e. cc)

  -- The file and its record, by the name in the trash.
  abbrev pub Recorded : Result TransferError Disposal → World → Type 0
  Recorded (ok (trashed p info)) t =
      (name : Bytes) × ((p ≡ file_at root name)
        × ((info ≡ info_at root name) × (node_at info t ≡ some (file (trash_info path now) false))))
  Recorded (ok permanent) t = Unit {0}
  Recorded (err _) t = Unit {0}

  settled-Recorded :
      (name : Bytes) (r : Result IoError (Unit {0})) (t : World)
      → node_at (info_at root name) t ≡ some (file (trash_info path now) false)
      → Post Recorded (settled host (file_at root name) (info_at root name) r) t
  settled-Recorded name (ok _) t h =
      pure-Post Recorded (trashed (file_at root name) (info_at root name)) t
        (name, (refl, (refl, h)))
  settled-Recorded name (err e) t h =
      discard-bind-Post (λ _. Unit {0}) Recorded _ _ t tt (λ u _. raise-Post Recorded (io e) u tt)

  trash_as-Recorded :
      (name : Bytes) (t : World) → Post Recorded (trash_as host root path now name) t
  unfolding trash_as canonical
  trash_as-Recorded name t =
      bind-Post (λ r u. Original r) Recorded _ _ t
        (attempt-bind-Post (λ _ _. Unit {0}) (λ r u. Original r) (stat host path) _ t tt
          (λ _ u k. pure-Post (λ r u. Original r) path u refl))
        (λ original u same.
          lift-bind-Post (Has host (info_at root name) (trash_info original now)) Recorded _ io _ u
            (write_file-Has host (info_at root name) (trash_info original now) u)
            (λ _ v written.
              attempt-bind-Post
                (λ _ x. node_at (info_at root name) x ≡ node_at (info_at root name) v) Recorded _ _
                v
                ((rename-Keeps host (info_at root name) path (file_at root name) (info_apart name)
                    (file_apart name _)).at
                  v)
                (λ r x kept. settled-Recorded name r x (kept ∙ rw (← same) written)))
            (λ _ _ _. tt))
        (λ _ _ _. tt)
    where
      Original : Result TransferError FilePath → Type 0
      Original (ok o) = o ≡ path
      Original (err _) = Unit {0}

  trash_where-Recorded :
      (can : Bool) (t : World) → Post Recorded (trash_where host root path now can) t
  unfolding trash_where
  trash_where-Recorded false t = pure-Post Recorded permanent t tt
  trash_where-Recorded true t =
      lift-bind-Post (λ _ _. Unit {0}) Recorded _ io _ t tt
        (λ _ u _.
          lift-bind-Post (λ _ _. Unit {0}) Recorded _ io _ u tt
            (λ _ v _.
              lift-bind-Post (λ _ _. Unit {0}) Recorded _ io _ v tt
                (λ name x _. trash_as-Recorded name x) (λ _ _ _. tt))
            (λ _ _ _. tt))
        (λ _ _ _. tt)

  pub trash_in-Recorded : (w : World) → Post Recorded (trash_in host root path now) w
  unfolding trash_in
  trash_in-Recorded w =
      bind-Post (λ _ _. Unit {0}) Recorded _ _ w tt (λ can t _. trash_where-Recorded can t)
        (λ _ _ _. tt)
