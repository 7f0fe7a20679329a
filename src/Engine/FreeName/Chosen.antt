-- ===== src/Engine/FreeName/Chosen.antt =====
-- Where a transfer lands: in the directory asked for, and beside what is there if it must not replace.
use omafile.Prelude.{
  ℕ, zero, suc, Bytes, Bool, true, false, Option, none, some, if◌then◌else◌, Result, ok, err, is_ok,
  pure, ◌≡◌, ◌≢◌, inl, inr, refl, Option-cases,
}
use omafile.Prelude.Action.Post.{
  Post, Keeps, Keeps-bind, Keeps-if, Keeps-pure, keeps_rules, bind-Post, pure-Post, raise-Post,
  attempt-bind-Post,
}
use omafile.Paths.{FilePath, child}
use omafile.Error.{TransferError, io, already_exists}
use omafile.Host.Machine.{World, Host}
use omafile.Host.Calls.{stat, exists, dir_of}
use omafile.Host.Keeps.{node_at, exists-Keeps}
use omafile.Engine.Types.{Conflict, skip, replace, keep_both}
use omafile.Engine.FreeName.{numbered, first_free, free_name_beside, resolve_conflict}

-- Asking about a path never fails but for its absence.
abbrev pub StatsWork : Host → Type 0
StatsWork host = (t : ℕ) → host.stat_fault t ≡ none

module _ (host : Host) (q : FilePath) where
  first_free-Keeps :
      (d : FilePath) (name : Bytes × Bytes) (rounds n : ℕ)
      → Keeps (node_at q) (first_free host d name rounds n)
  unfolding first_free
  first_free-Keeps d name zero n = search keeps_rules
  first_free-Keeps d name (suc rounds) n = Keeps-bind _ _ (exists-Keeps host q _) λ taken.
      Keeps-if taken _ _ (first_free-Keeps d name rounds (suc n))
        (Keeps-pure (child d (numbered name n)))

  free_name-Keeps : (dst : FilePath) → Keeps (node_at q) (free_name_beside host dst)
  unfolding free_name_beside
  free_name-Keeps dst = first_free-Keeps _ _ 9998 2

  pub resolve-Keeps :
      (existed : Bool) (policy : Conflict) (dst : FilePath)
      → Keeps (node_at q) (resolve_conflict host existed policy dst)
  unfolding resolve_conflict
  resolve-Keeps false policy dst = search keeps_rules
  resolve-Keeps true skip dst = search keeps_rules
  resolve-Keeps true replace dst = search keeps_rules
  resolve-Keeps true keep_both dst = search (keeps_rules, free_name-Keeps)

-- With that, `exists` is right.
module _ (E : Type 0) (host : Host) (works : StatsWork host) (p : FilePath) where
  abbrev Seen : Bool → World → Type 0
  Seen true w = node_at p w ≢ none
  Seen false w = node_at p w ≡ none

  abbrev pub Truthful : Result E Bool → World → Type 0
  Truthful (ok b) w = Seen b w
  Truthful (err _) w = Unit {0}

  pub absent-Truthful : (b : Bool) (w : World) → Truthful (ok b) w → b ≡ false → node_at p w ≡ none
  absent-Truthful true w seen e = cc
  absent-Truthful false w seen e = seen

  stat_truthful : (w : World) → Post (λ r t. Seen (is_ok r) t) (stat host p) w
  unfolding stat
  stat_truthful w = elim (Option-cases (w.files p)) [
    | inl e ↦ rw (works w.clock, e, stat) e
    | inr (n, e) ↦ rw (works w.clock, e, stat) (λ absent. cc)
  ]

  pub exists-Truthful : (w : World) → Post Truthful (exists host p) w
  unfolding exists
  exists-Truthful w =
      attempt-bind-Post (λ r t. Seen (is_ok r) t) Truthful _ _ w (stat_truthful w)
        λ r t h. pure-Post Truthful (is_ok r) t h

-- The name that is chosen lies in the directory and is free.
module _ (host : Host) where
  abbrev Beside : FilePath → Result TransferError FilePath → World → Type 0
  Beside d (ok p) w = (dir_of p ≡ d) × (StatsWork host → node_at p w ≡ none)
  Beside d (err _) w = Unit {0}

  first_free-Beside :
      (d : FilePath) (name : Bytes × Bytes) (rounds n : ℕ) (w : World)
      → Post (Beside d) (first_free host d name rounds n) w
  unfolding first_free dir_of
  first_free-Beside d name zero n w = raise-Post (Beside d) (io already_exists) w tt
  first_free-Beside d name (suc rounds) n w =
      bind-Post
        (λ r t.
          (works : StatsWork host)
          → Truthful TransferError host works (child d (numbered name n)) r t)
        (Beside d) _ _ w (λ works. exists-Truthful TransferError host works _ w)
        (λ taken t seen. branch taken t seen (first_free-Beside d name rounds (suc n) t))
        (λ _ _ _. tt)
    where
      branch :
          (taken : Bool) (t : World)
          → ((works : StatsWork host)
              → Truthful TransferError host works (child d (numbered name n)) (ok taken) t)
          → Post (Beside d) (first_free host d name rounds (suc n)) t
          → Post
              (Beside d)
              (if taken
                then first_free host d name rounds (suc n)
                else pure (child d (numbered name n)))
              t
      branch true t seen more = more
      branch false t seen more = pure-Post (Beside d) (child d (numbered name n)) t (refl, seen)

  -- The resolved destination; `none` is a skip.
  abbrev pub Resolved :
      Bool → Conflict → FilePath → Result TransferError (Option FilePath) → World → Type 0
  Resolved existed policy dst (ok (some p)) w =
      (dir_of p ≡ dir_of dst)
      × (StatsWork host
          → (existed ≡ false → node_at dst w ≡ none)
          → policy ≢ replace
          → node_at p w ≡ none)
  Resolved existed policy dst (ok none) w = (existed ≡ true) × (policy ≡ skip)
  Resolved existed policy dst (err _) w = policy ≡ keep_both

  pub resolve-Resolved :
      (existed : Bool) (policy : Conflict) (dst : FilePath) (w : World)
      → Post (Resolved existed policy dst) (resolve_conflict host existed policy dst) w
  unfolding resolve_conflict free_name_beside
  resolve-Resolved false policy dst w =
      pure-Post (Resolved false policy dst) (some dst) w (refl, λ works absent _. absent refl)
  resolve-Resolved true skip dst w = pure-Post (Resolved true skip dst) none w (refl, refl)
  resolve-Resolved true replace dst w =
      pure-Post (Resolved true replace dst) (some dst) w (refl, λ _ _ ne. absurd (ne refl))
  resolve-Resolved true keep_both dst w =
      bind-Post (Beside (dir_of dst)) (Resolved true keep_both dst) _ _ w
        (first_free-Beside (dir_of dst) _ 9998 2 w)
        (λ p t (there, free).
          pure-Post (Resolved true keep_both dst) (some p) t (there, λ works _ _. free works))
        (λ _ _ _. refl)
