-- ===== src/FsOps/Clone.antt =====
-- The clone fills the temporary file with the source's content, or leaves nothing of its own.
use omafile.Prelude.{◌==◌, nat_eq}
use omafile.Prelude.{
  Bytes, Bool, true, false, Option, none, some, ==_refl, ==_ne, list_eq, nat_eq, Result, ok, err,
  ◌≡◌, ◌≢◌, refl, ◌∙◌, arith, sym,
}
use omafile.Prelude.Action.Post.{Post, Keeps, keeps_rules, bind-Post, pure-Post, discard-bind-Post}
use omafile.Paths.{FilePath}
use omafile.Error.{IoError}
use omafile.Host.Machine.{Node, file, dir, socket, World, Host}
use omafile.Host.Calls.{sync_all, tick, dir_of}
use omafile.Host.Keeps.{
  node_at, stat-Keeps, open_read-Keeps, create-Keeps, sync_all-Keeps, remove_file-Keeps,
}
use omafile.FsOps.{cloned, ficlone, after_clone, try_reflink_into_temp, same_filesystem}

module _ (host : Host) (q : FilePath) where
  pub same_filesystem-Keeps : (a b : FilePath) → Keeps (node_at q) (same_filesystem host a b)
  unfolding same_filesystem
  same_filesystem-Keeps a b = search (keeps_rules, stat-Keeps)

  module _ (temp : FilePath) (apart : q ≢ temp) where
    cloned-Keeps : (yes_it : Bool) (o : Option Node) → Keeps (node_at q) (cloned host temp yes_it o)
    cloned-Keeps true (some (file c d)) = record { at = λ w. ground (arith, ==_ne q temp apart) }
    cloned-Keeps true (some dir) = record { at = λ w. refl }
    cloned-Keeps true (some socket) = record { at = λ w. refl }
    cloned-Keeps true none = record { at = λ w. refl }
    cloned-Keeps false o = record { at = λ w. refl }

    ficlone-Keeps : (src : FilePath) → Keeps (node_at q) (ficlone host src temp)
    unfolding ficlone
    ficlone-Keeps src = record {
      at = λ w. (cloned-Keeps (host.clones w.clock) (w.files src)).at (tick w);
    }

    after_clone-Keeps : (shared : Bool) → Keeps (node_at q) (after_clone host temp shared)
    unfolding after_clone
    after_clone-Keeps true = search (keeps_rules, sync_all-Keeps, apart)
    after_clone-Keeps false = search (keeps_rules, remove_file-Keeps, apart)

    pub try_reflink-Keeps :
        (src : FilePath) → Keeps (node_at q) (try_reflink_into_temp host src temp)
    unfolding try_reflink_into_temp
    try_reflink-Keeps src =
        search (keeps_rules, open_read-Keeps, create-Keeps, apart, ficlone-Keeps, after_clone-Keeps)

-- A clone that succeeds has the source's content, flushed.
module _ (host : Host) (src temp : FilePath) (apart : src ≢ temp) (source : Option Node) where
  abbrev pub Cloned : Bool → Result IoError Bool → World → Type 0
  Cloned durable (ok true) w =
      (c : Bytes) × (d : Bool) × (source ≡ some (file c d))
      × (node_at temp w ≡ some (file c durable))
  Cloned durable (ok false) w = Unit {0}
  Cloned durable (err _) w = Unit {0}

  cloned-Cloned :
      (yes_it : Bool) (o : Option Node) (w : World)
      → o ≡ source
      → Post (Cloned false) (cloned host temp yes_it o) w
  cloned-Cloned true (some (file c d)) w e = (c, d, sym e, ground (arith, ==_refl temp))
  cloned-Cloned true (some dir) w e = tt
  cloned-Cloned true (some socket) w e = tt
  cloned-Cloned true none w e = tt
  cloned-Cloned false o w e = tt

  abbrev Synced : Result IoError (Unit {0}) → World → Type 0
  Synced (ok _) w = Cloned true (ok true) w
  Synced (err _) w = Unit {0}

  Synced-file :
      (c : Bytes) (d : Bool)
      → source ≡ some (file c d)
      → (r : Result IoError (Unit {0})) (w : World)
      → (r ≡ ok tt → node_at temp w ≡ some (file c true))
      → Synced r w
  Synced-file c d e (ok _) w h = (c, d, e, h refl)
  Synced-file c d e (err _) w h = tt

  sync_all-Synced : (w : World) → Cloned false (ok true) w → Post Synced (sync_all host temp) w
  unfolding sync_all
  sync_all-Synced w (c, d, e, there) = Synced-file c d e _ _ (λ done. ground (arith, ==_refl temp))

  after_clone-Cloned :
      (shared : Bool) (w : World)
      → Cloned false (ok shared) w
      → Post (Cloned true) (after_clone host temp shared) w
  unfolding after_clone
  after_clone-Cloned true w h =
      bind-Post Synced (Cloned true) _ _ w (sync_all-Synced w h)
        (λ _ t done. pure-Post (Cloned true) true t done) (λ _ _ _. tt)
  after_clone-Cloned false w h =
      discard-bind-Post (λ _. Unit {0}) (Cloned true) _ _ w tt
        λ t _. pure-Post (Cloned true) false t tt

  ficlone-Cloned :
      (w : World) → node_at src w ≡ source → Post (Cloned false) (ficlone host src temp) w
  unfolding ficlone
  ficlone-Cloned w same = cloned-Cloned (host.clones w.clock) (w.files src) (tick w) same

  pub try_reflink-Cloned :
      (w : World)
      → node_at src w ≡ source
      → Post (Cloned true) (try_reflink_into_temp host src temp) w
  unfolding try_reflink_into_temp
  try_reflink-Cloned w same =
      bind-Post (λ _ t. node_at src t ≡ node_at src w) (Cloned true) _ _ w
        ((open_read-Keeps host src src).at w)
        (λ _ t kept.
          bind-Post (λ _ u. node_at src u ≡ node_at src t) (Cloned true) _ _ t
            ((create-Keeps host src temp apart).at t)
            (λ _ u kept'.
              bind-Post (Cloned false) (Cloned true) _ _ u (ficlone-Cloned u (kept' ∙ kept ∙ same))
                (λ shared v got. after_clone-Cloned shared v got) (λ _ _ _. tt))
            (λ _ _ _. tt))
        (λ _ _ _. tt)

-- The answer compares the devices of the two directories.
module _ (host : Host) (a b : FilePath) where
  abbrev pub Compared : Result IoError Bool → World → Type 0
  Compared (ok same) t = same ≡ (host.device (dir_of a) == host.device (dir_of b))
  Compared (err _) t = Unit {0}

  pub same_filesystem-Compared : (w : World) → Post Compared (same_filesystem host a b) w
  unfolding same_filesystem
  same_filesystem-Compared w =
      bind-Post (λ _ _. Unit {0}) Compared _ _ w tt
        (λ _ t _.
          bind-Post (λ _ _. Unit {0}) Compared _ _ t tt (λ _ u _. pure-Post Compared _ u refl)
            (λ _ _ _. tt))
        (λ _ _ _. tt)
