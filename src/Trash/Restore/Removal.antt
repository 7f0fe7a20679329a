-- ===== src/Trash/Restore/Removal.antt =====
-- daemon/src/trash.rs: what the two calls that `delete_permanently` makes do to a path.
use omafile.Prelude.{
  ℕ, suc, ◌+◌, ◌≤◌, ◌<◌, Bool, false, Option, none, some, Result, ok, err, ◌≡◌, ◌≢◌, ◌⊎◌, inl, inr,
  refl, ap, arith, ==_ne, ==_refl, list_eq, nat_eq, Bool-cases, Option-cases, Exec,
}
use omafile.Prelude.Action.Post.{Post}
use omafile.Paths.{FilePath, below}
use omafile.Error.{IoError, errno}
use omafile.Host.Machine.{Node, file, dir, socket, Files, World, Host}
use omafile.Host.Calls.{remove_file, tick, removed, guarded, with_files}
use omafile.Host.Keeps.{node_at}
use omafile.Host.Dirs.{remove_dir_all, removed_tree, cleared_tree}

module _ (host : Host) (path : FilePath) (w : World) where
  abbrev pub AllSame : World → Type 0
  AllSame t = (q : FilePath) → node_at q t ≡ node_at q w

  -- What is not at the path, nor inside it, is as it was.
  abbrev pub OutsideSame : World → Type 0
  OutsideSame t = (q : FilePath) → below path q ≡ none → node_at q t ≡ node_at q w

  -- One of the two calls from here on fails.
  abbrev pub CallFails : Type 0
  CallFails =
      (k : ℕ) × ((w.clock ≤ k)
        × ((k < w.clock + 2)
            × ((e : IoError) × ((host.fault k ≡ some e) ⊎ (host.stat_fault k ≡ some e)))))

  -- By what was at the path: a directory goes with all that is inside it, and a failed attempt may
  -- have taken some of that; another node goes alone, and a failed attempt has changed nothing.
  -- There is a failure only where a call fails or nothing is there.
  abbrev pub IsErased : {E A : Type 0} → Option Node → Result E A → World → Type 0
  IsErased none (ok _) t = ⊥
  IsErased none (err _) t = AllSame t
  IsErased (some dir) (ok _) t =
      ((q rest : FilePath) → below path q ≡ some rest → node_at q t ≡ none) × OutsideSame t
  IsErased (some dir) (err _) t =
      OutsideSame t
      × (((q : FilePath) → (node_at q t ≡ node_at q w) ⊎ (node_at q t ≡ none)) × CallFails)
  IsErased (some n) (ok _) t =
      (node_at path t ≡ none) × ((q : FilePath) → q ≢ path → node_at q t ≡ node_at q w)
  IsErased (some n) (err _) t = AllSame t × CallFails

  fault_fails :
      (k : ℕ) (e : IoError) → w.clock ≤ k → k < w.clock + 2 → host.fault k ≡ some e → CallFails
  fault_fails k e low high f = (k, (low, (high, (e, inl f))))

  same-IsErased :
      (E A : Type 0) (o : Option Node) (x : E) (t : World)
      → AllSame t
      → (o ≡ none) ⊎ CallFails
      → IsErased {E = E} {A = A} o (err x) t
  same-IsErased E A none x t same why = same
  same-IsErased E A (some dir) x t same (inl e) = ground (arith, e)
  same-IsErased E A (some dir) x t same (inr why) =
      ((λ q apart. same q), ((λ q. inl (same q)), why))
  same-IsErased E A (some (file c d)) x t same (inl e) = ground (arith, e)
  same-IsErased E A (some (file c d)) x t same (inr why) = (same, why)
  same-IsErased E A (some socket) x t same (inl e) = ground (arith, e)
  same-IsErased E A (some socket) x t same (inr why) = (same, why)

  -- A guarded call that goes on, or one that fails as the machine has it.
  because :
      {A : Type 0} (Q : Result IoError A → World → Type 0) (m : Exec World IoError A) (t : World)
      → ((e : IoError) → host.fault t.clock ≡ some e → Q (err e) (tick t))
      → Post Q m (tick t)
      → Post Q (guarded host m) t
  unfolding guarded
  because Q m t fails goes = go (host.fault t.clock) refl
    where
      go :
          (o : Option IoError)
          → host.fault t.clock ≡ o
          → Post Q (λ v. elim o [ some e ↦ (err e, tick v) | none ↦ m (tick v) ]) t
      go (some e) f = fails e f
      go none f = goes

  removed-IsErased :
      (o : Option Node) (t : World)
      → t.files ≡ w.files
      → (o ≢ some dir) ⊎ CallFails
      → Post (IsErased {E = IoError} o) (removed host path o) t
  removed-IsErased none t same why = λ q. ap (λ (files : Files). files q) same
  removed-IsErased (some dir) t same (inl apart) = absurd (apart refl)
  removed-IsErased (some dir) t same (inr why) =
      same-IsErased IoError (Unit {0}) (some dir) (errno 21) t
        (λ q. ap (λ (files : Files). files q) same) (inr why)
  removed-IsErased (some (file c d)) t same why =
      rw same (ground (arith, ==_refl path), λ q other. ground (arith, ==_ne q path other))
  removed-IsErased (some socket) t same why =
      rw same (ground (arith, ==_refl path), λ q other. ground (arith, ==_ne q path other))

  cleared_outside :
      (spared : FilePath → Bool) (files : Files) (q : FilePath)
      → below path q ≡ none
      → cleared_tree path spared files q ≡ files q
  cleared_outside spared files q apart = ground (arith, apart)

  cleared_inside :
      (files : Files) (q rest : FilePath)
      → below path q ≡ some rest
      → cleared_tree path (λ p. false) files q ≡ none
  cleared_inside files q under e = ground (arith, e)

  cleared_some :
      (spared : FilePath → Bool) (files : Files) (q : FilePath)
      → (cleared_tree path spared files q ≡ files q) ⊎ (cleared_tree path spared files q ≡ none)
  cleared_some spared files q = elim (Option-cases (below path q)) [
    | inl apart ↦ inl (cleared_outside spared files q apart)
    | inr (under, e) ↦ elim (Bool-cases (spared q)) [
      | inl kept ↦ inl (ground (arith, e, kept))
      | inr gone ↦ inr (ground (arith, e, gone))
    ]
  ]

  removed_tree-IsErased :
      (t : World)
      → t.files ≡ w.files
      → Post (IsErased {E = IoError} (some dir)) (removed_tree host path (some dir)) t
  removed_tree-IsErased t same = rw same (
    λ q under e. cleared_inside w.files q under e,
    λ q apart. cleared_outside (λ p. false) w.files q apart,
  )

  pub remove_dir_all-IsErased :
      (spared : ℕ → FilePath → Bool) (t : World)
      → t ≡ tick w
      → w.files path ≡ some dir
      → Post (IsErased {E = IoError} (some dir)) (remove_dir_all host spared path) t
  unfolding remove_dir_all
  remove_dir_all-IsErased spared t next there = rw next (go (host.fault (suc w.clock)) refl)
    where
      go :
          (o : Option IoError)
          → host.fault (suc w.clock) ≡ o
          → Post {A = Unit {0}}
              (IsErased {E = IoError} (some dir))
              (λ v. elim o [
                | some e ↦ (err e, with_files (cleared_tree path (spared v.clock) v.files) (tick v))
                | none ↦ removed_tree host path (v.files path) (tick v)
              ])
              (tick w)
      go (some e) f = (
        λ q apart. cleared_outside (spared (suc w.clock)) w.files q apart,
        (
          λ q. cleared_some (spared (suc w.clock)) w.files q,
          fault_fails (suc w.clock) e (omega arith) (omega arith) f,
        ),
      )
      go none f = rw there (removed_tree-IsErased (tick (tick w)) refl)

  pub remove_file-IsErased :
      (o : Option Node) (t : World)
      → t ≡ tick w
      → w.files path ≡ o
      → (o ≢ some dir) ⊎ CallFails
      → Post (IsErased {E = IoError} o) (remove_file host path) t
  unfolding remove_file
  remove_file-IsErased o t next there why = rw next (
      because (IsErased {E = IoError} o) (λ v. removed host path (v.files path) v) (tick w)
        (λ e f.
          same-IsErased IoError (Unit {0}) o e (tick (tick w)) (λ q. refl)
            (inr (fault_fails (suc w.clock) e (omega arith) (omega arith) f)))
        (rw there (removed-IsErased o (tick (tick w)) refl why)))
