-- ===== src/Trash/Bin/Kept.antt =====
-- A file that is trashed is not lost.
use omafile.Prelude.{
  ℕ, zero, suc, Bytes, codes, Bool, true, false, none, some, Bool-cases, Result, ok, err, ◌≡◌, ◌≢◌,
  inl, inr, refl, sym, ◌∙◌,
}
use omafile.Prelude.Action.Post.{
  Post, bind-Post, pure-Post, raise-Post, attempt-bind-Post, discard-bind-Post, lift-bind-Post,
}
use omafile.Paths.{FilePath, below, below-eq-none, child}
use omafile.Paths.Sibling.{below_child}
use omafile.Error.{IoError, TransferError, io, already_exists}
use omafile.Host.Machine.{Node, World, Host}
use omafile.Host.Calls.{stat, dir_of, remove_file, write_file}
use omafile.Host.Keeps.{
  node_at, stat-Keeps, exists-Keeps, remove_file-Keeps, create-Keeps, write_all-Keeps,
}
use omafile.Host.Renamed.{Moved, rename-Moved}
use omafile.Host.Dirs.{Stays, Held, create_dir_all-Stays}
use omafile.Trash.Bin.{
  Disposal, trashed, permanent, can_trash_in, anchor_of, candidate, info_at, file_at, unique_name,
  stem_of, canonical, trash_info, settled, trash_as, trash_where, trash_in,
}

module _ (host : Host) (root path : FilePath) (now : Bytes) (n : Node)
    (outside : below root path ≡ none) where
  abbrev H : World → Type 0
  H = Held host path n

  -- A trashed file is whole in the trash; after an error, or if it cannot be trashed, it is where it
  -- was.
  abbrev pub IsKept : Result TransferError Disposal → World → Type 0
  IsKept (ok (trashed p info)) t = (dir_of p ≡ child root (codes "files")) × (node_at p t ≡ some n)
  IsKept (ok permanent) t = node_at path t ≡ some n
  IsKept (err _) t = node_at path t ≡ some n

  ne_info : (name : Bytes) → path ≢ info_at root name
  ne_info name e =
      below-eq-none (info_at root name) path
        (below_child (child root (codes "info")) _ path
          (below_child root (codes "info") path outside))
        (sym e)

  write_info :
      (name : Bytes) (text : Bytes) (t : World)
      → H t
      → Post (Stays host path n) (write_file host (info_at root name) text) t
  unfolding write_file
  write_info name text t h =
      bind-Post (Stays host path n) (Stays host path n) _ _ t
        ((create-Keeps host path (info_at root name) (ne_info name)).at t ∙ h)
        (λ _ u k. (write_all-Keeps host path (info_at root name) 0 text (ne_info name)).at u ∙ k)
        (λ _ _ k. k)

  settled-IsKept :
      (name : Bytes) (r : Result IoError (Unit {0})) (t u : World)
      → H t
      → Moved host path (file_at root name) n t r u
      → Post IsKept (settled host (file_at root name) (info_at root name) r) u
  unfolding dir_of
  settled-IsKept name (ok _) t u h arrived =
      pure-Post IsKept (trashed (file_at root name) (info_at root name)) u (refl, arrived)
  settled-IsKept name (err e) t u h same =
      discard-bind-Post H IsKept (remove_file host (info_at root name)) _ u
        ((remove_file-Keeps host path (info_at root name) (ne_info name)).at u ∙ (same path ∙ h))
        (λ v k. raise-Post IsKept (io e) v k)

  trash_as-IsKept :
      (name : Bytes) (t : World) → H t → Post IsKept (trash_as host root path now name) t
  unfolding trash_as canonical
  trash_as-IsKept name t h =
      bind-Post (Stays host path n) IsKept _ _ t
        (attempt-bind-Post (Stays host path n) (Stays host path n) (stat host path) _ t
          ((stat-Keeps host path path).at t ∙ h) (λ _ u k. pure-Post (Stays host path n) path u k))
        (λ original u k.
          lift-bind-Post (Stays host path n) IsKept _ io _ u
            (write_info name (trash_info original now) u k)
            (λ _ v k'.
              attempt-bind-Post (Moved host path (file_at root name) n v) IsKept _ _ v
                (rename-Moved host path (file_at root name) n v k')
                (λ r x moved. settled-IsKept name r v x k' moved))
            (λ _ _ k'. k'))
        (λ _ _ k. k)

  unique_name-Stays :
      (stem : Bytes) (rounds i : ℕ) (t : World)
      → H t
      → Post (Stays host path n) (unique_name host root stem rounds i) t
  unfolding unique_name
  unique_name-Stays stem zero i t h = raise-Post (Stays host path n) already_exists t h
  unique_name-Stays stem (suc rounds) i t h =
      bind-Post (Stays host path n) (Stays host path n) _ _ t
        ((exists-Keeps host path (file_at root (candidate stem i))).at t ∙ h)
        (λ taken u k. elim (Bool-cases taken) [
          | inl e ↦ rw e (unique_name-Stays stem rounds (suc i) u k)
          | inr e ↦ rw e (
              bind-Post (Stays host path n) (Stays host path n) _ _ u
                ((exists-Keeps host path (info_at root (candidate stem i))).at u ∙ k)
                (λ recorded v k'. elim (Bool-cases recorded) [
                  | inl f ↦ rw f (unique_name-Stays stem rounds (suc i) v k')
                  | inr f ↦ rw f (pure-Post (Stays host path n) (candidate stem i) v k')
                ])
                (λ _ _ k'. k'))
        ])
        (λ _ _ k. k)

  trash_where-IsKept :
      (can : Bool) (t : World) → H t → Post IsKept (trash_where host root path now can) t
  unfolding trash_where
  trash_where-IsKept false t h = pure-Post IsKept permanent t h
  trash_where-IsKept true t h =
      lift-bind-Post (Stays host path n) IsKept _ io _ t
        (create_dir_all-Stays host path n (child root (codes "files")) t h)
        (λ _ u k.
          lift-bind-Post (Stays host path n) IsKept _ io _ u
            (create_dir_all-Stays host path n (child root (codes "info")) u k)
            (λ _ v k'.
              lift-bind-Post (Stays host path n) IsKept _ io _ v
                (unique_name-Stays (stem_of path) 10000 0 v k')
                (λ name x k''. trash_as-IsKept name x k'') (λ _ _ k''. k''))
            (λ _ _ k'. k'))
        (λ _ _ k. k)

  can_trash-Stays :
      (t : World)
      → H t
      → Post {E = TransferError} (Stays host path n) (can_trash_in host root path) t
  unfolding can_trash_in
  can_trash-Stays t h =
      bind-Post (Stays host path n) (Stays host path n) _ _ t
        ((exists-Keeps host path root).at t ∙ h)
        (λ there u k.
          attempt-bind-Post (Stays host path n) (Stays host path n) (stat host (dir_of path)) _ u
            ((stat-Keeps host path (dir_of path)).at u ∙ k)
            (λ a v k'.
              attempt-bind-Post (Stays host path n) (Stays host path n)
                (stat host (anchor_of root there)) _ v
                ((stat-Keeps host path (anchor_of root there)).at v ∙ k')
                (λ b x k''. pure-Post (Stays host path n) _ x k'')))
        (λ _ _ k. k)

  -- Whatever fails and wherever the run stops, a file outside the trash that is trashed is whole in
  -- the trash's directory of files if that is reported; if it is reported as not trashable, or after
  -- an error, it is still where it was.
  pub trash_in-IsKept :
      (w : World) → node_at path w ≡ some n → Post IsKept (trash_in host root path now) w
  unfolding trash_in
  trash_in-IsKept w h =
      bind-Post (Stays host path n) IsKept _ _ w (can_trash-Stays w h)
        (λ can t k. trash_where-IsKept can t k) (λ _ _ k. k)
