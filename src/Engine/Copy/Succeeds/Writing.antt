-- ===== src/Engine/Copy/Succeeds/Writing.antt =====
-- The files that a copy writes, on a machine on which no call fails: the record and the temporary file.
use omafile.Prelude.{
  ℕ, Bytes, [], Bool, true, false, none, some, ==_refl, ==_ne, list_eq, nat_eq, ◌≡◌, ◌≢◌, refl, sym,
}
use omafile.Prelude.Action.Post.{Post}
use omafile.Prelude.Action.Done.{Done, Done-map}
use omafile.Paths.{FilePath}
use omafile.Host.Machine.{file, dir, World, Host}
use omafile.Host.Calls.{put_node, dir_of, create, write_all, sync_all, rename, write_at}
use omafile.Host.Works.{
  is_writable, NoFaults, create-Done, write_all-Done, sync_all-Done, rename-Done,
}
use omafile.Journal.{Journal}
use omafile.Engine.Copy.Succeeds.Conditions.{Apart, Ready, Ready-put_node}

file_writable : (x : Bytes) (b : Bool) → is_writable (some (file x b)) ≡ true
unfolding is_writable
file_writable x b = refl

pub none_writable : is_writable none ≡ true
unfolding is_writable
none_writable = refl

module _ (host : Host) (works : NoFaults host) (journal : Journal) (src dst : FilePath) (c : Bytes)
    (d : Bool) (apart : Apart host journal src dst) where
  abbrev pub IsReady : World → Type 0
  IsReady t = Ready host journal src dst c d t.files

  -- And this file is there.
  abbrev pub Holding : FilePath → Bytes → Bool → World → Type 0
  Holding p x b t = IsReady t × (t.files p ≡ some (file x b))

  -- A path other than the source's that can be written to.
  pub record Target (p : FilePath) (t : World) : Type 0 where
    pub off_source : src ≢ p
    pub free : is_writable (t.files p) ≡ true

  pub put-Holding :
      (p : FilePath) (x : Bytes) (b : Bool) (t u : World)
      → IsReady t
      → src ≢ p
      → is_writable (t.files p) ≡ true
      → u.files ≡ put_node p (some (file x b)) t.files
      → Holding p x b u
  put-Holding p x b t u r off free e = rw e (
    Ready-put_node host journal src dst c d p (some (file x b)) t.files r off free
        (file_writable x b),
    rw (==_refl p) refl,
  )

  pub held-free :
      (p : FilePath) (x : Bytes) (b : Bool) (t : World)
      → t.files p ≡ some (file x b)
      → is_writable (t.files p) ≡ true
  held-free p x b t there = rw there (file_writable x b)

  pub create-Holding :
      (p : FilePath) (t : World)
      → IsReady t
      → src ≢ p
      → is_writable (t.files p) ≡ true
      → t.files (dir_of p) ≡ some dir
      → Post (Done (λ _ u. Holding p [] false u)) (create host p) t
  create-Holding p t r off free in_dir =
      Done-map _ _ (create host p) t (create-Done host works p t free in_dir)
        (λ _ u e. put-Holding p [] false t u r off free e)

  pub write-Holding :
      (p : FilePath) (at : ℕ) (bytes old : Bytes) (b : Bool) (t : World)
      → src ≢ p
      → Holding p old b t
      → Post (Done (λ _ u. Holding p (write_at at bytes old) false u)) (write_all host p at bytes) t
  write-Holding p at bytes old b t off (r, there) =
      Done-map _ _ (write_all host p at bytes) t
        (write_all-Done host works p at bytes old b t there)
        (λ _ u e.
          put-Holding p (write_at at bytes old) false t u r off (held-free p old b t there) e)

  pub sync-Holding :
      (p : FilePath) (x : Bytes) (b : Bool) (t : World)
      → src ≢ p
      → Holding p x b t
      → Post (Done (λ _ u. Holding p x true u)) (sync_all host p) t
  sync-Holding p x b t off (r, there) =
      Done-map _ _ (sync_all host p) t (sync_all-Done host works p x b t there)
        (λ _ u e. put-Holding p x true t u r off (held-free p x b t there) e)

  pub rename-Holding :
      (p q : FilePath) (x : Bytes) (b : Bool) (t : World)
      → src ≢ p
      → src ≢ q
      → p ≢ q
      → Holding p x b t
      → is_writable (t.files q) ≡ true
      → dir_of p ≡ dir_of q
      → t.files (dir_of q) ≡ some dir
      → Post (Done (λ _ u. Holding q x b u)) (rename host p q) t
  rename-Holding p q x b t off_p off_q other (r, there) free one in_dir =
      Done-map _ _ (rename host p q) t (rename-Done host works p q x b t there free one in_dir)
        (λ _ u e.
          let gone =
            Ready-put_node host journal src dst c d p none t.files r off_p (held-free p x b t there)
              none_writable in
          let still : is_writable (put_node p none t.files q) ≡ true =
            rw (==_ne q p (λ same. other (sym same))) free in
          rw e (
            Ready-put_node host journal src dst c d q (some (file x b)) (put_node p none t.files)
                gone off_q still (file_writable x b),
            rw (==_refl q) refl,
          ))
