-- ===== src/Host/Works.antt =====
-- What each system call does on a machine on which none fails.
use omafile.Prelude.{
  Option-cases, inl, inr, ℕ, Bytes, [], Bool, true, false, Option, none, some, Option-cases, inl,
  inr, ==_refl, list_eq, nat_eq, ◌≡◌, refl, arith,
}
use omafile.Prelude.Action.Post.{Post}
use omafile.Prelude.Action.Done.{Done, Done-ok}
use omafile.Paths.{FilePath}
use omafile.Host.Machine.{Node, file, dir, socket, World, Host, read_error, payload}
use omafile.Host.Calls.{
  put_node, dir_of, stat, open_read, create, write_all, sync_all, rename, arrive, read_tape,
  write_at,
}

-- Nothing, or a file.
unfoldable pub is_writable : Option Node → Bool
is_writable (some dir) = false
is_writable (some socket) = false
is_writable _ = true

-- Reads of this content meet no error and deliver it.
abbrev pub ReadsWhole : Host → Bytes → Type 0
ReadsWhole host c = (t : ℕ) → (read_error (host.reads t c) ≡ none) × (payload (host.reads t c) ≡ c)

module _ (host : Host) where
  abbrev pub NoFaults : Type 0
  NoFaults = ((t : ℕ) → host.fault t ≡ none) × ((t : ℕ) → host.stat_fault t ≡ none)

  module _ (works : NoFaults) where
    pub stat-Done :
        (p : FilePath) (n : Node) (t : World)
        → t.files p ≡ some n
        → Post (Done (λ m u. (m ≡ n) × (u.files ≡ t.files))) (stat host p) t
    unfolding stat
    stat-Done p n t there =
        Done-ok _ n (stat host p t).0 (stat host p t).1 (ground (arith, works.1 t.clock, there))
          (refl, ground (arith, works.1 t.clock, there))

    pub open_read-Done :
        (p : FilePath) (n : Node) (t : World)
        → t.files p ≡ some n
        → Post (Done (λ m u. (m ≡ n) × (u.files ≡ t.files))) (open_read host p) t
    unfolding open_read
    open_read-Done p n t there =
        Done-ok _ n (open_read host p t).0 (open_read host p t).1
          (ground (arith, works.0 t.clock, there)) (refl, ground (arith, works.0 t.clock, there))

    pub create-Done :
        (p : FilePath) (t : World)
        → is_writable (t.files p) ≡ true
        → t.files (dir_of p) ≡ some dir
        → Post (Done (λ _ u. u.files ≡ put_node p (some (file [] false)) t.files)) (create host p) t
    unfolding create is_writable
    create-Done p t free in_dir =
        Done-ok _ tt (create host p t).0 (create host p t).1
          (ground (arith, works.0 t.clock, free, in_dir))
          (ground (arith, works.0 t.clock, free, in_dir))

    pub write_all-Done :
        (p : FilePath) (at : ℕ) (bytes old : Bytes) (d : Bool) (t : World)
        → t.files p ≡ some (file old d)
        → Post
            (Done (λ _ u. u.files ≡ put_node p (some (file (write_at at bytes old) false)) t.files))
            (write_all host p at bytes)
            t
    unfolding write_all
    write_all-Done p at bytes old d t there =
        Done-ok _ tt (write_all host p at bytes t).0 (write_all host p at bytes t).1
          (ground (arith, works.0 t.clock, there)) (ground (arith, works.0 t.clock, there))

    pub sync_all-Done :
        (p : FilePath) (c : Bytes) (d : Bool) (t : World)
        → t.files p ≡ some (file c d)
        → Post (Done (λ _ u. u.files ≡ put_node p (some (file c true)) t.files)) (sync_all host p) t
    unfolding sync_all
    sync_all-Done p c d t there =
        Done-ok _ tt (sync_all host p t).0 (sync_all host p t).1
          (ground (arith, works.0 t.clock, there)) (ground (arith, works.0 t.clock, there))

    -- Within a directory.
    pub rename-Done :
        (from to : FilePath) (c : Bytes) (d : Bool) (t : World)
        → t.files from ≡ some (file c d)
        → is_writable (t.files to) ≡ true
        → dir_of from ≡ dir_of to
        → t.files (dir_of to) ≡ some dir
        → Post
            (Done (λ _ u. u.files ≡ put_node to (some (file c d)) (put_node from none t.files)))
            (rename host from to)
            t
    unfolding rename arrive is_writable
    rename-Done from to c d t there free one in_dir =
        Done-ok _ tt (rename host from to t).0 (rename host from to t).1
          (ground
            (arith, works.0 t.clock, there, free, one, in_dir, ==_refl (host.device (dir_of to))))
          (ground
            (arith, works.0 t.clock, there, free, one, in_dir, ==_refl (host.device (dir_of to))))

    pub read_tape-Done :
        (E : Type 0) (p : FilePath) (c : Bytes) (d : Bool) (t : World)
        → t.files p ≡ some (file c d)
        → Post {E = E}
            (Done (λ reads u. (reads ≡ host.reads t.clock c) × (u.files ≡ t.files)))
            (read_tape host p 0)
            t
    unfolding read_tape
    read_tape-Done E p c d t there = (rw there refl, refl)

    -- A call of `metadata` changes no file, whatever it returns.
    pub stat_same : (p : FilePath) (t : World) → (stat host p t).1.files ≡ t.files
    unfolding stat
    stat_same p t = elim (Option-cases (t.files p)) [
      | inl e ↦ ground (arith, works.1 t.clock, e)
      | inr (n, e) ↦ ground (arith, works.1 t.clock, e)
    ]
