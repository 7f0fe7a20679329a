-- ===== src/Host/Keeps.antt =====
-- What each system call leaves alone: the files at every other path.
use omafile.Prelude.{
  ℕ, Bytes, Option, none, ◌≡◌, ◌≢◌, refl, sym, inl, inr, Option-cases, arith, Result, ==_ne,
  list_eq, nat_eq,
}
use omafile.Prelude.Action.Post.{Keeps, keeps_rules}
use omafile.Error.{IoError}
use omafile.Paths.{FilePath, below, below-eq-none}
use omafile.Host.Machine.{Node, dir, Phase, Files, World, Host}
use omafile.Host.Calls.{
  put_node, relocate, arrive, stat, exists, remove_file, create, open_write, open_read, seek,
  read_tape, write_all, sync_all, rename, report, settle,
}

-- The node at a path.
abbrev pub node_at : FilePath → World → Option Node
node_at q w = w.files q

pub put_node_other :
    (p q : FilePath) (v : Option Node) (files : Files) → q ≢ p → put_node p v files q ≡ files q
put_node_other p q v files h = ground (arith, ==_ne q p h)

module _ (host : Host) (q : FilePath) where
  pub stat-Keeps : (p : FilePath) → Keeps (node_at q) (stat host p)
  unfolding stat
  stat-Keeps p = record { at = λ w. ground arith }

  pub remove_file-Keeps : (p : FilePath) → q ≢ p → Keeps (node_at q) (remove_file host p)
  unfolding remove_file
  remove_file-Keeps p h = record { at = λ w. ground (arith, ==_ne q p h) }

  pub create-Keeps : (p : FilePath) → q ≢ p → Keeps (node_at q) (create host p)
  unfolding create
  create-Keeps p h = record { at = λ w. ground (arith, ==_ne q p h) }

  pub open_write-Keeps : (p : FilePath) → Keeps (node_at q) (open_write host p)
  unfolding open_write
  open_write-Keeps p = record { at = λ w. ground arith }

  pub open_read-Keeps : (p : FilePath) → Keeps (node_at q) (open_read host p)
  unfolding open_read
  open_read-Keeps p = record { at = λ w. ground arith }

  pub seek-Keeps : Keeps (node_at q) (seek host)
  unfolding seek
  seek-Keeps = record { at = λ w. ground arith }

  pub read_tape-Keeps :
      {E : Type 0} (p : FilePath) (from : ℕ) → Keeps {E = E} (node_at q) (read_tape host p from)
  unfolding read_tape
  read_tape-Keeps p from = record { at = λ w. refl }

  pub write_all-Keeps :
      (p : FilePath) (at : ℕ) (bytes : Bytes)
      → q ≢ p
      → Keeps (node_at q) (write_all host p at bytes)
  unfolding write_all
  write_all-Keeps p at bytes h = record { at = λ w. ground (arith, ==_ne q p h) }

  pub sync_all-Keeps : (p : FilePath) → q ≢ p → Keeps (node_at q) (sync_all host p)
  unfolding sync_all
  sync_all-Keeps p h = record { at = λ w. ground (arith, ==_ne q p h) }

  relocate_other :
      (from to : FilePath) (files : Files)
      → below from q ≡ none
      → below to q ≡ none
      → relocate from to files q ≡ files q
  unfolding relocate
  relocate_other from to files a b = ground arith

  arrive_other :
      (from to : FilePath) (n : Node) (files : Files)
      → below from q ≡ none
      → below to q ≡ none
      → arrive from to n files q ≡ files q
  unfolding arrive
  arrive_other from to dir files a b = relocate_other from to files a b
  arrive_other from to n files a b = ground (
    arith,
    ==_ne q from (λ e. below-eq-none from q a (sym e)),
    ==_ne q to (λ e. below-eq-none to q b (sym e)),
  )

  pub rename-Keeps :
      (from to : FilePath)
      → below from q ≡ none
      → below to q ≡ none
      → Keeps (node_at q) (rename host from to)
  unfolding rename
  rename-Keeps from to a b = record {
    at = λ w. elim (Option-cases (w.files from)) [
      | inl e ↦ ground arith
      | inr (n, e) ↦ ground (arith, arrive_other from to n w.files a b)
    ];
  }

  pub exists-Keeps : {E : Type 0} (p : FilePath) → Keeps {E = E} (node_at q) (exists host p)
  unfolding exists
  exists-Keeps p = search (keeps_rules, stat-Keeps)

  pub report-Keeps :
      {E : Type 0} (phase : Phase) (done total : ℕ)
      → Keeps {E = E} (node_at q) (report phase done total)
  unfolding report
  report-Keeps phase done total = record { at = λ w. refl }

  pub settle-Keeps : {A : Type 0} (r : Result IoError A) → Keeps (node_at q) (settle host r)
  settle-Keeps r = record { at = λ w. refl }
