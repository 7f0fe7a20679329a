-- ===== src/Engine/Move/Succeeds.antt =====
-- `move_file_with` succeeds where nothing stands in its way.
use omafile.Prelude.{
  ℕ, Bytes, Bool, true, false, Option, none, some, Result, ok, err, pure, attempt, lift_err,
  if◌then◌else◌, ==_refl, ==_ne, list_eq, nat_eq, ◌>>=◌, ◌>>◌, ◌≡◌, ◌≢◌, refl, sym, ap, ◌∙◌, arith,
}
use omafile.Prelude.Action.Post.{Post, bind-Post, pure-Post, lift-bind-Post}
use omafile.Paths.{FilePath}
use omafile.Error.{IoError, TransferError, io}
use omafile.Host.Machine.{Node, file, dir, Files, World, Host}
use omafile.Host.Calls.{stat, exists, rename, dir_of, arrive}
use omafile.Host.Keeps.{node_at}
use omafile.FsOps.{same_filesystem}
use omafile.Journal.{Journal}
use omafile.Engine.Types.{Conflict, Options, Outcome, moved}
use omafile.Engine.FreeName.{resolve_conflict}
use omafile.Engine.Copy.{copy_file_with}
use omafile.Engine.Move.{after_copy, move_to, on_move_resolved, move_file_with}

module _ (host : Host) (works : (t : ℕ) → host.stat_fault t ≡ none)
    (faultless : (t : ℕ) → host.fault t ≡ none) (src dst : FilePath) (c : Bytes) (durable : Bool)
    (w : World) where
  abbrev Same : World → Type 0
  Same t = t.files ≡ w.files

  stat_there :
      (p : FilePath) (n : Node) (t : World)
      → Same t
      → node_at p w ≡ some n
      → Post (λ r u. (r ≡ ok n) × Same u) (stat host p) t
  unfolding stat
  stat_there p n t same there =
      let here : t.files p ≡ some n = ap (λ (files : Files). files p) same ∙ there in
      (ground (arith, works t.clock, here), ground (arith, works t.clock, here, same))

  exists_absent :
      (p : FilePath) (t : World)
      → Same t
      → node_at p w ≡ none
      → Post {E = TransferError} (λ r u. (r ≡ ok false) × Same u) (exists host p) t
  unfolding exists stat pure attempt ◌>>=◌
  exists_absent p t same absent =
      let here : t.files p ≡ none = ap (λ (files : Files). files p) same ∙ absent in
      (ground (arith, works t.clock, here), ground (arith, works t.clock, here, same))

  same_filesystem-true :
      (t : World)
      → Same t
      → node_at (dir_of src) w ≡ some dir
      → node_at (dir_of dst) w ≡ some dir
      → host.device (dir_of src) ≡ host.device (dir_of dst)
      → Post (λ r u. (r ≡ ok true) × Same u) (same_filesystem host src dst) t
  unfolding same_filesystem
  same_filesystem-true t same src_dir dst_dir one =
      bind-Post (λ r u. (r ≡ ok dir) × Same u) (λ r u. (r ≡ ok true) × Same u) _ _ t
        (stat_there (dir_of src) dir t same src_dir)
        (λ _ u h.
          bind-Post (λ r u. (r ≡ ok dir) × Same u) (λ r u. (r ≡ ok true) × Same u) _ _ u
            (stat_there (dir_of dst) dir u h.1 dst_dir)
            (λ _ v k.
              pure-Post (λ r u. (r ≡ ok true) × Same u) _ v
                (rw (one, ==_refl (host.device (dir_of dst))) refl, k.1))
            (λ x v bad. (cc, bad.1)))
        (λ x u bad. (cc, bad.1))

  -- The file is at the destination and no longer at the source.
  abbrev pub IsMoved : Result TransferError Outcome → World → Type 0
  IsMoved r t =
      (r ≡ ok (moved dst)) × ((node_at dst t ≡ some (file c durable)) × (node_at src t ≡ none))

  abbrev IsRenamed : Result IoError (Unit {0}) → World → Type 0
  IsRenamed r u = (r ≡ ok tt) × ((node_at dst u ≡ some (file c durable)) × (node_at src u ≡ none))

  rename_works :
      (t : World)
      → Same t
      → node_at src w ≡ some (file c durable)
      → node_at dst w ≡ none
      → node_at (dir_of dst) w ≡ some dir
      → host.device (dir_of src) ≡ host.device (dir_of dst)
      → Post IsRenamed (rename host src dst) t
  unfolding rename arrive
  rename_works t same there absent dst_dir one =
      let here : t.files src ≡ some (file c durable) =
        ap (λ (files : Files). files src) same ∙ there in
      let free : t.files dst ≡ none = ap (λ (files : Files). files dst) same ∙ absent in
      let into : t.files (dir_of dst) ≡ some dir =
        ap (λ (files : Files). files (dir_of dst)) same ∙ dst_dir in
      let apart : src ≢ dst = λ e. some_none (sym there ∙ (ap w.files e ∙ absent)) in
      let known = ==_refl (host.device (dir_of dst)) in
      (
        ground (arith, faultless t.clock, here, free, into, one, known),
        (
          ground (arith, faultless t.clock, here, free, into, one, known, ==_refl dst),
          ground (
            arith,
            faultless t.clock,
            here,
            free,
            into,
            one,
            known,
            ==_refl src,
            ==_ne src dst apart,
          ),
        ),
      )
    where
      some_none : some (file c durable) ≡ none → ⊥
      some_none e = cc

  move_to-IsMoved :
      (journal : Journal) (opts : Options) (t : World)
      → Same t
      → node_at src w ≡ some (file c durable)
      → node_at dst w ≡ none
      → node_at (dir_of src) w ≡ some dir
      → node_at (dir_of dst) w ≡ some dir
      → host.device (dir_of src) ≡ host.device (dir_of dst)
      → Post IsMoved (move_to host journal src dst opts) t
  unfolding move_to
  move_to-IsMoved journal opts t same there absent src_dir dst_dir one =
      lift-bind-Post (λ r u. (r ≡ ok true) × Same u) IsMoved (same_filesystem host src dst) io _ t
        (same_filesystem-true t same src_dir dst_dir one)
        (λ b u h. on_true b u (cc) (
          lift-bind-Post IsRenamed IsMoved (rename host src dst) io (λ _. pure (moved dst)) u
            (rename_works u h.1 there absent dst_dir one)
            (λ _ v k. pure-Post IsMoved (moved dst) v (refl, k.1)) (λ x v bad. (cc, bad.1))))
        (λ x u bad. absurd (absurd_err x bad.0))
    where
      on_true :
          (b : Bool) (u : World)
          → b ≡ true
          → Post IsMoved (do lift_err io (rename host src dst); pure (moved dst)) u
          → Post IsMoved
              (if b then (do lift_err io (rename host src dst); pure (moved dst)) else (do
                outcome ← copy_file_with host journal src dst opts
                after_copy host journal src outcome))
              u
      on_true b u e h = rw e h

      absurd_err : (x : IoError) → ◌≡◌ {A = Result IoError Bool} (err x) (ok true) → ⊥
      absurd_err x e = cc

  resolve_free :
      (existed : Bool) (policy : Conflict) (u : World)
      → existed ≡ false
      → Same u
      → Post (λ r v. (r ≡ ok (some dst)) × Same v) (resolve_conflict host existed policy dst) u
  unfolding resolve_conflict
  resolve_free existed policy u e same =
      rw e (pure-Post (λ r v. (r ≡ ok (some dst)) × Same v) (some dst) u (refl, same))

  -- On a machine on which no call fails, a file that is moved within a file system, between directories
  -- that are there, to a path where nothing is, arrives whole and is gone from where it was.
  pub move_file-IsMoved :
      (journal : Journal) (opts : Options)
      → node_at src w ≡ some (file c durable)
      → node_at dst w ≡ none
      → node_at (dir_of src) w ≡ some dir
      → node_at (dir_of dst) w ≡ some dir
      → host.device (dir_of src) ≡ host.device (dir_of dst)
      → Post IsMoved (move_file_with host journal src dst opts) w
  unfolding move_file_with
  move_file-IsMoved journal opts there absent src_dir dst_dir one =
      bind-Post (λ r u. (r ≡ ok false) × Same u) IsMoved (exists host dst) _ w
        (exists_absent dst w refl absent)
        (λ existed u h.
          bind-Post (λ r v. (r ≡ ok (some dst)) × Same v) IsMoved
            (resolve_conflict host existed opts.on_conflict dst) _ u
            (resolve_free existed opts.on_conflict u (cc) h.1)
            (λ target v k.
              to_target target v (cc)
                (move_to-IsMoved journal opts v k.1 there absent src_dir dst_dir one))
            (λ x v bad. absurd (not_target x bad.0)))
        (λ x u bad. absurd (not_false x bad.0))
    where
      to_target :
          (target : Option FilePath) (v : World)
          → target ≡ some dst
          → Post IsMoved (move_to host journal src dst opts) v
          → Post IsMoved (on_move_resolved host journal src opts target) v
      to_target target v e h = rw e h

      not_target :
          (x : TransferError)
          → ◌≡◌ {A = Result TransferError (Option FilePath)} (err x) (ok (some dst))
          → ⊥
      not_target x e = cc

      not_false : (x : TransferError) → ◌≡◌ {A = Result TransferError Bool} (err x) (ok false) → ⊥
      not_false x e = cc
