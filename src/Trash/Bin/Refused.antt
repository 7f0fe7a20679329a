-- ===== src/Trash/Bin/Refused.antt =====
-- daemon/src/trash.rs: why `trash` answers that a file can only be deleted for good.
use omafile.Prelude.{
  ℕ, suc, ◌+◌, ◌≤◌, ◌<◌, Bytes, codes, Bool, true, false, none, some, ◌==◌, nat_eq, Bool-cases,
  Option-cases, Result, ok, err, is_ok, ◌≡◌, ◌≢◌, ◌⊎◌, inl, inr, refl, arith,
}
use omafile.Prelude.Action.Post.{
  Post, bind-Post, pure-Post, raise-Post, attempt-bind-Post, discard-bind-Post, lift-bind-Post,
}
use omafile.Paths.{FilePath, child}
use omafile.Error.{IoError, TransferError, io, not_found}
use omafile.Host.Machine.{Node, World, Host}
use omafile.Host.Calls.{stat, exists, dir_of, tick, rename, remove_file, write_file}
use omafile.Host.Dirs.{create_dir_all}
use omafile.Host.Keeps.{node_at}
use omafile.Trash.Bin.{
  Disposal, trashed, permanent, anchor_of, one_device, can_trash_in, unique_name, canonical,
  info_at, file_at, stem_of, trash_info, trash_where, trash_as, settled, trash_in,
}

module _ (host : Host) where
  abbrev pub Says : FilePath → World → Result IoError Node → Type 0
  Says p w (ok n) = node_at p w ≡ some n
  Says p w (err e) = (node_at p w ≡ none) ⊎ (host.stat_fault w.clock ≡ some e)

  -- What a lookup says, at a moment of the machine's clock.
  abbrev pub Looked : FilePath → World → Result IoError Node → World → Type 0
  Looked p w r t = (t ≡ tick w) × Says p w r

  stat_failed :
      (p : FilePath) (w : World) (e : IoError)
      → host.stat_fault w.clock ≡ some e
      → stat host p w ≡ (err e, tick w)
  unfolding stat
  stat_failed p w e f = ground (arith, f)

  stat_absent :
      (p : FilePath) (w : World)
      → host.stat_fault w.clock ≡ none
      → node_at p w ≡ none
      → stat host p w ≡ (err not_found, tick w)
  unfolding stat
  stat_absent p w f absent = ground (arith, f, absent)

  stat_there :
      (p : FilePath) (w : World) (n : Node)
      → host.stat_fault w.clock ≡ none
      → node_at p w ≡ some n
      → stat host p w ≡ (ok n, tick w)
  unfolding stat
  stat_there p w n f there = ground (arith, f, there)

  pub stat-Looked : (p : FilePath) (w : World) → Post (Looked p w) (stat host p) w
  stat-Looked p w = elim (Option-cases (host.stat_fault w.clock)) [
    | inr (e, f) ↦ rw (stat_failed p w e f) (refl, inr f)
    | inl f ↦ elim (Option-cases (w.files p)) [
      | inl absent ↦ rw (stat_absent p w f absent) (refl, inl absent)
      | inr (n, there) ↦ rw (stat_there p w n f there) (refl, there)
    ]
  ]

module _ (host : Host) (root path : FilePath) (w : World) where
  -- One of the three lookups from here on fails.
  abbrev pub LookupFails : Type 0
  LookupFails =
      (k : ℕ) × ((w.clock ≤ k)
        × ((k < w.clock + 3) × ((e : IoError) × (host.stat_fault k ≡ some e))))

  -- What stands for the trash's file system: the trash, or where it would be made.
  abbrev pub IsAnchor : FilePath → Type 0
  IsAnchor anchor =
      ((node_at root w ≢ none) × (anchor ≡ root))
      ⊎ ((node_at root w ≡ none) × (anchor ≡ dir_of root))

  -- A file cannot be trashed: a lookup fails, its directory or the trash's is missing, or the two
  -- are not on the same device.
  abbrev pub CannotTrash : Type 0
  CannotTrash =
      LookupFails
      ⊎ ((node_at (dir_of path) w ≡ none)
          ⊎ ((anchor : FilePath) × (IsAnchor anchor
                × ((node_at anchor w ≡ none) ⊎ (host.device (dir_of path) ≢ host.device anchor)))))

  fails :
      (k : ℕ) (e : IoError)
      → w.clock ≤ k
      → k < w.clock + 3
      → host.stat_fault k ≡ some e
      → CannotTrash
  fails k e low high f = inl (k, (low, (high, (e, f))))

  abbrev Can : {E : Type 0} → Result E Bool → World → Type 0
  Can (ok true) t = Unit {0}
  Can (ok false) t = CannotTrash
  Can (err e) t = ⊥

  compared :
      (there : Bool)
      → (IsAnchor (anchor_of root there) ⊎ CannotTrash)
      → (a b : Result IoError Node) → Says host (dir_of path) (tick w) a
      → Says host (anchor_of root there) (tick (tick w)) b
      → (one_device host (dir_of path) (anchor_of root there) a b ≡ true) ⊎ CannotTrash
  compared there (inr cannot) a b h k = inr cannot
  compared there (inl at) (err e) b (inl absent) k = inr (inr (inl absent))
  compared there (inl at) (err e) b (inr f) k =
      inr (fails (suc w.clock) e (omega arith) (omega arith) f)
  compared there (inl at) (ok n) (err e) h (inl absent) =
      inr (inr (inr (anchor_of root there, (at, inl absent))))
  compared there (inl at) (ok n) (err e) h (inr f) =
      inr (fails (suc (suc w.clock)) e (omega arith) (omega arith) f)
  compared there (inl at) (ok n) (ok m) h k =
      elim (Bool-cases (host.device (dir_of path) == host.device (anchor_of root there))) [
        | inl same ↦ inl same
        | inr other ↦
            inr (inr (inr (anchor_of root there, (at, inr (λ same. ground (arith, other, same))))))
      ]

  anchored :
      (r : Result IoError Node)
      → Says host root w r
      → IsAnchor (anchor_of root (is_ok r)) ⊎ CannotTrash
  anchored (ok n) there = inl (inl (λ absent. ground (arith, there, absent), refl))
  anchored (err e) (inl absent) = inl (inr (absent, refl))
  anchored (err e) (inr f) = inr (fails w.clock e (omega arith) (omega arith) f)

  Can-verdict :
      (E : Type 0) (b : Bool) (t : World) → (b ≡ true) ⊎ CannotTrash → Can {E = E} (ok b) t
  Can-verdict E true t h = tt
  Can-verdict E false t (inl e) = ground (arith, e)
  Can-verdict E false t (inr cannot) = cannot

  abbrev Found : {E : Type 0} → Result E Bool → World → Type 0
  Found (ok there) t = (t ≡ tick w) × (IsAnchor (anchor_of root there) ⊎ CannotTrash)
  Found (err e) t = ⊥

  exists-Found : (E : Type 0) → Post (Found {E = E}) (exists host root) w
  unfolding exists
  exists-Found E =
      attempt-bind-Post (Looked host root w) (Found {E = E}) (stat host root) _ w
        (stat-Looked host root w)
        (λ r t h. pure-Post (Found {E = E}) (is_ok r) t (h.0, anchored r h.1))

  asked :
      (p : FilePath) (v t : World)
      → t ≡ v
      → Post (λ r u. (u ≡ tick v) × Says host p v r) (stat host p) t
  asked p v t same = rw same (stat-Looked host p v)

  can_trash_in-Can : (E : Type 0) → Post (Can {E = E}) (can_trash_in host root path) w
  unfolding can_trash_in
  can_trash_in-Can E =
      bind-Post (Found {E = E}) (Can {E = E}) (exists host root) _ w (exists-Found E)
        (λ there t found.
          attempt-bind-Post (λ r u. (u ≡ tick (tick w)) × Says host (dir_of path) (tick w) r)
            (Can {E = E}) (stat host (dir_of path)) _ t (asked (dir_of path) (tick w) t found.0)
            (λ a u h.
              attempt-bind-Post
                (λ r v.
                  (v ≡ tick (tick (tick w))) × Says host (anchor_of root there) (tick (tick w)) r)
                (Can {E = E}) (stat host (anchor_of root there)) _ u
                (asked (anchor_of root there) (tick (tick w)) u h.0)
                (λ b v k.
                  pure-Post (Can {E = E}) (one_device host (dir_of path) (anchor_of root there) a b)
                    v (Can-verdict E _ v (compared there found.1 a b h.1 k.1)))))
        (λ e t bad. bad)

  -- Only what cannot be trashed is said to be deleted for good.
  abbrev pub IsRefused : Result TransferError Disposal → World → Type 0
  IsRefused (ok permanent) t = CannotTrash
  IsRefused _ t = Unit {0}

  settled-IsRefused :
      (dest info : FilePath) (r : Result IoError (Unit {0})) (t : World)
      → Post IsRefused (settled host dest info r) t
  settled-IsRefused dest info (ok _) t = pure-Post IsRefused (trashed dest info) t tt
  settled-IsRefused dest info (err e) t =
      discard-bind-Post (λ u. Unit {0}) IsRefused (remove_file host info) _ t tt
        (λ u _. raise-Post IsRefused (io e) u tt)

  trash_as-IsRefused :
      (now name : Bytes) (t : World) → Post IsRefused (trash_as host root path now name) t
  unfolding trash_as
  trash_as-IsRefused now name t =
      bind-Post (λ _ _. Unit {0}) IsRefused (canonical host path) _ t tt
        (λ original u _.
          lift-bind-Post (λ _ _. Unit {0}) IsRefused
            (write_file host (info_at root name) (trash_info original now)) io _ u tt
            (λ _ v _.
              attempt-bind-Post (λ _ _. Unit {0}) IsRefused (rename host path (file_at root name)) _
                v tt (λ r x _. settled-IsRefused (file_at root name) (info_at root name) r x))
            (λ _ _ _. tt))
        (λ _ _ _. tt)

  trash_where-IsRefused :
      (now : Bytes) (can : Bool) (t : World)
      → Can {E = TransferError} (ok can) t
      → Post IsRefused (trash_where host root path now can) t
  unfolding trash_where
  trash_where-IsRefused now false t cannot = pure-Post IsRefused permanent t cannot
  trash_where-IsRefused now true t h =
      lift-bind-Post (λ _ _. Unit {0}) IsRefused (create_dir_all host (child root (codes "files")))
        io _ t tt
        (λ _ u _.
          lift-bind-Post (λ _ _. Unit {0}) IsRefused
            (create_dir_all host (child root (codes "info"))) io _ u tt
            (λ _ v _.
              lift-bind-Post (λ _ _. Unit {0}) IsRefused
                (unique_name host root (stem_of path) 10000 0) io _ v tt
                (λ name x _. trash_as-IsRefused now name x) (λ _ _ _. tt))
            (λ _ _ _. tt))
        (λ _ _ _. tt)

  pub trash_in-IsRefused : (now : Bytes) → Post IsRefused (trash_in host root path now) w
  unfolding trash_in
  trash_in-IsRefused now =
      bind-Post (Can {E = TransferError}) IsRefused (can_trash_in host root path) _ w
        (can_trash_in-Can TransferError) (λ can t h. trash_where-IsRefused now can t h)
        (λ e t bad. absurd bad)
