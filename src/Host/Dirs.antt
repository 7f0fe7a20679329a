-- ===== src/Host/Dirs.antt =====
-- Directories: std::fs's calls that make them and remove them.
use omafile.Prelude.{
  ℕ, [], ◌∷◌, Bool, true, false, Option, none, some, Result, ok, err, Exec, pure, raise, attempt,
  ◌>>=◌, ◌>>◌, if◌then◌else◌, ◌≡◌, refl, inl, inr, ◌==◌, list_eq, nat_eq, Bool-cases, ==_iff, sym,
  ◌∙◌, ap,
}
use omafile.Prelude.Action.Post.{Post, bind-Post, pure-Post, raise-Post, attempt-bind-Post}
use omafile.Paths.{below, FilePath}
use omafile.Error.{errno, IoError, not_found, already_exists}
use omafile.Host.Machine.{Files, Node, dir, World, Host}
use omafile.Host.Calls.{stat, guarded, tick, with_files, put_node, dir_of, is_dir}
use omafile.Host.Keeps.{node_at, stat-Keeps}
use omafile.Host.Renamed.{guarded-Post}

abbrev pub is_directory : Result IoError Node → Bool
is_directory (ok dir) = true
is_directory _ = false

module _ (host : Host) where
  abbrev pub made : FilePath → Option Node → Bool → Exec World IoError (Unit {0})
  made p (some n) in_dir w = (err already_exists, w)
  made p none true w = (ok tt, with_files (put_node p (some dir) w.files) w)
  made p none false w = (err not_found, w)

  -- `create_dir`
  unfoldable pub create_dir : FilePath → Exec World IoError (Unit {0})
  unfolding guarded dir_of
  create_dir p = guarded host (λ w. made p (w.files p) (is_dir (w.files (dir_of p))) w)

  -- `Path::is_dir`
  unfoldable pub is_dir_at : {E : Type 0} → FilePath → Exec World E Bool
  is_dir_at p = do r ← attempt (stat host p); pure (is_directory r)

  -- An error is none if the directory is there.
  abbrev pub unless_dir : FilePath → IoError → Exec World IoError (Unit {0})
  unless_dir p e = do there ← is_dir_at p; if there then pure tt else raise e

  abbrev pub made_at_last : FilePath → Result IoError (Unit {0}) → Exec World IoError (Unit {0})
  made_at_last p (ok _) = pure tt
  made_at_last p (err e) = unless_dir p e

  abbrev pub after_first :
      FilePath
      → Exec World IoError (Unit {0})
      → Result IoError (Unit {0})
      → Exec World IoError (Unit {0})
  after_first p parents (ok _) = pure tt
  after_first p parents (err not_found) = do
    parents
    again ← attempt (create_dir p)
    made_at_last p again
  after_first p parents (err e) = unless_dir p e

  -- `create_dir_all`: where the parent is missing, it is made first.
  unfoldable pub create_dir_all : FilePath → Exec World IoError (Unit {0})
  create_dir_all [] = do r ← attempt (create_dir []); made_at_last [] r
  create_dir_all (name ∷ d) = do
    r ← attempt (create_dir (name ∷ d))
    after_first (name ∷ d) (create_dir_all d) r

-- What is there stays there.
module _ (host : Host) (x : FilePath) (n : Node) where
  abbrev pub Stays : {E A : Type 0} → Result E A → World → Type 0
  Stays r t = node_at x t ≡ some n

  made-Stays :
      (p : FilePath) (o : Option Node) (in_dir : Bool) (t : World)
      → t.files p ≡ o
      → node_at x t ≡ some n
      → Post Stays (made host p o in_dir) t
  made-Stays p (some m) in_dir t e h = h
  made-Stays p none true t e h = elim (Bool-cases (x == p)) [
    | inl same ↦ absurd (none_some (sym e ∙ (ap t.files (sym ((==_iff x p).0 same)) ∙ h)))
    | inr other ↦ rw other h
  ]
    where
      none_some : Option.none ≡ some n → ⊥
      none_some e = cc
  made-Stays p none false t e h = h

  abbrev pub Held : World → Type 0
  Held t = node_at x t ≡ some n

  create_dir-Stays : (p : FilePath) (t : World) → Held t → Post Stays (create_dir host p) t
  unfolding create_dir
  create_dir-Stays p t h =
      guarded-Post host Stays (λ v. made host p (v.files p) (is_dir (v.files (dir_of p))) v) t
        (λ e. h) (made-Stays p (t.files p) (is_dir (t.files (dir_of p))) (tick t) refl h)

  unless_dir-Stays :
      (p : FilePath) (e : IoError) (t : World) → Held t → Post Stays (unless_dir host p e) t
  unfolding is_dir_at
  unless_dir-Stays p e t h =
      bind-Post Stays Stays (is_dir_at host p) _ t
        (attempt-bind-Post Stays Stays (stat host p) _ t ((stat-Keeps host x p).at t ∙ h)
          (λ r u k. pure-Post Stays (is_directory r) u k))
        (λ there u k. elim (Bool-cases there) [
          | inl found ↦ rw found (pure-Post Stays tt u k)
          | inr absent ↦ rw absent (raise-Post Stays e u k)
        ])
        (λ _ u k. k)

  made_at_last-Stays :
      (p : FilePath) (r : Result IoError (Unit {0})) (t : World)
      → Held t
      → Post Stays (made_at_last host p r) t
  made_at_last-Stays p (ok _) t h = pure-Post Stays tt t h
  made_at_last-Stays p (err e) t h = unless_dir-Stays p e t h

  again-Stays :
      (p : FilePath) (t : World)
      → Held t
      → Post Stays (do again ← attempt (create_dir host p); made_at_last host p again) t
  again-Stays p t h =
      attempt-bind-Post Stays Stays (create_dir host p) _ t (create_dir-Stays p t h)
        (λ r u k. made_at_last-Stays p r u k)

  after_first-Stays :
      (p : FilePath) (parents : Exec World IoError (Unit {0})) (r : Result IoError (Unit {0}))
      (t : World)
      → Held t
      → Post Stays parents t
      → Post Stays (after_first host p parents r) t
  after_first-Stays p parents (ok _) t h k = pure-Post Stays tt t h
  after_first-Stays p parents (err not_found) t h k =
      bind-Post Stays Stays parents _ t k (λ _ u k'. again-Stays p u k') (λ _ u k'. k')
  after_first-Stays p parents (err e) t h k = unless_dir-Stays p e t h

  pub create_dir_all-Stays :
      (p : FilePath) (t : World) → Held t → Post Stays (create_dir_all host p) t
  unfolding create_dir_all
  create_dir_all-Stays [] t h = again-Stays [] t h
  create_dir_all-Stays (name ∷ d) t h =
      attempt-bind-Post Stays Stays (create_dir host (name ∷ d)) _ t
        (create_dir-Stays (name ∷ d) t h)
        (λ r u k.
          after_first-Stays (name ∷ d) (create_dir_all host d) r u k (create_dir_all-Stays d u k))

abbrev pub inside_of : FilePath → FilePath → Bool
inside_of p q = elim (below p q) [ some rest ↦ true | none ↦ false ]

-- What is left of the files when everything at a path and inside it is removed, but for some.
abbrev pub cleared_tree : FilePath → (FilePath → Bool) → Files → Files
cleared_tree p spared files q =
    if inside_of p q then (if spared q then files q else none) else files q

module _ (host : Host) where
  abbrev pub removed_tree : FilePath → Option Node → Exec World IoError (Unit {0})
  removed_tree p none w = (err not_found, w)
  removed_tree p (some dir) w = (ok tt, with_files (cleared_tree p (λ q. false) w.files) w)
  removed_tree p (some _) w = (err (errno 20), w)

  -- `remove_dir_all`. One that fails has removed some of what is there: `spared` is the rest.
  unfoldable pub remove_dir_all : (ℕ → FilePath → Bool) → FilePath → Exec World IoError (Unit {0})
  remove_dir_all spared p w = elim (host.fault w.clock) [
    | some e ↦ (err e, with_files (cleared_tree p (spared w.clock) w.files) (tick w))
    | none ↦ removed_tree p (w.files p) (tick w)
  ]
