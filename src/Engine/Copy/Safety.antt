-- ===== src/Engine/Copy/Safety.antt =====
-- `copy_file_with` as a caller sees it, over every way in which the machine may fail.
use omafile.Prelude.{
  ℕ, ◌<◌, ◌^◌, Bytes, [], Bool, false, ◌&&◌, Option, none, some, length, Result, ok, err, ◌≡◌, ◌≢◌,
  ◌⊎◌, inl, inr, refl, sym, ◌∙◌,
}
use mathlib.Core.Path.{subst}
use omafile.Prelude.Action.Post.{Post, bind-Post, pure-Post, lift-bind-Post}
use omafile.Paths.{FilePath}
use omafile.Error.{TransferError, io}
use omafile.Tier.{VerificationTier}
use omafile.Host.Machine.{Node, file, World, Host}
use omafile.Host.Calls.{dir_of, node_len}
use omafile.Host.Keeps.{node_at, stat-Keeps, exists-Keeps}
use omafile.Journal.{Journal}
use omafile.Journal.Keeps.{IsOutside, IsAside}
use omafile.Engine.Types.{replace, Options, Outcome, moved, copied, skipped_existing, is_replace}
use omafile.Engine.FreeName.Chosen.{
  StatsWork, Truthful, exists-Truthful, absent-Truthful, Resolved, resolve-Resolved, resolve-Keeps,
}
use omafile.Engine.Stream.Filled.{IsBounded}
use omafile.Engine.Stream.Keeps.{stat_found}
use omafile.Engine.Copy.{copy_to, on_resolved, copy_file_with}
use omafile.Engine.Copy.Whole.{IsBystander, IsWhole, Kept, Landed}
use omafile.Engine.Copy.Atomic.{IsReady, copy_to-Good}
use omafile.Engine.Copy.Plain.{IsPlain, IsPlain-root, IsAside-root, IsAside-dir, IsAside-temp}

-- The size that the metadata of a path gives.
abbrev pub size_at : Host → FilePath → World → ℕ
size_at host p w = elim (node_at p w) [ none ↦ 0 | some n ↦ node_len host n ]

module _ (host : Host) (journal : Journal) (src dst : FilePath) (opts : Options) (w : World)
    (bounded : IsBounded host) (fits : size_at host src w < 2 ^ 63)
    (outside : IsOutside journal (dir_of dst)) (src_plain : IsPlain src) where
  abbrev pub AllSame : World → Type 0
  AllSame t = (x : FilePath) → node_at x t ≡ node_at x w

  module _ (q : FilePath) (q_plain : IsPlain q)
      (q_aside : (d : FilePath) → IsAside host journal q d) where
    -- `q` as it was, or a whole file where it may be one.
    abbrev pub SafeAt : World → Type 0
    SafeAt t =
        (node_at q t ≡ node_at q w)
        ⊎ ((dir_of q ≡ dir_of dst)
            × (StatsWork host → opts.on_conflict ≢ replace → node_at q w ≡ none)
            × IsWhole (size_at host src w) q t)

    abbrev pub LandedAt : Result TransferError Outcome → World → Type 0
    LandedAt (ok (copied tier bytes replaced p)) t =
        (dir_of p ≡ dir_of dst) × (bytes ≡ size_at host src w) × IsWhole (size_at host src w) p t
    LandedAt (ok (moved p)) t = ⊥
    LandedAt (ok skipped_existing) t = (x : FilePath) → node_at x t ≡ node_at x w
    LandedAt (err _) t = Unit {0}

    abbrev pub Final : Result TransferError Outcome → World → Type 0
    Final r t = SafeAt t × LandedAt r t

    ready : (p : FilePath) → dir_of p ≡ dir_of dst → IsReady host journal src p (size_at host src w)
    ready p e =
        let out : IsOutside journal (dir_of p) = rw e outside in
        record {
          bounded = bounded;
          fits = fits;
          source_off_temp = src_plain p;
          temp_aside = IsAside-temp host journal p p out;
          dst_aside = IsAside-dir host journal p p out;
        }

    bystander : (p : FilePath) → IsBystander host journal q p
    bystander p = record { off_temp = q_plain p; aside = q_aside p }

    -- From the state in which the destination was resolved to the state before the call.
    from_Kept :
        (p : FilePath) (u t : World)
        → dir_of p ≡ dir_of dst
        → AllSame u
        → (StatsWork host → opts.on_conflict ≢ replace → node_at p u ≡ none)
        → (r : Result TransferError Outcome) → Kept host journal q p (size_at host src w) u r t
        → Final r t
    from_Kept p u t e same free r (safe, landed) = (safe_at safe, landed_at r landed)
      where
        safe_at :
            (node_at q t ≡ node_at q u) ⊎ ((q ≡ p) × IsWhole (size_at host src w) p t) → SafeAt t
        safe_at (inl kept) = inl (kept ∙ same q)
        safe_at (inr (here, whole)) =
            inr (rw here e, λ works ne. sym (same q) ∙ (rw here (free works ne)), rw here whole)

        landed_at :
            (r : Result TransferError Outcome)
            → Landed host journal q p (size_at host src w) u r t
            → LandedAt r t
        landed_at (ok (copied tier bytes replaced p')) (here, size, whole) =
            (rw here e, size, rw here whole)
        landed_at (ok (moved p')) h = h
        landed_at (ok skipped_existing) h = absurd h
        landed_at (err x) h = tt

    size_known : (n : Node) → node_at src w ≡ some n → size_at host src w ≡ node_len host n
    size_known n there = rw (there, size_at)

    sized :
        (u : World)
        → AllSame u
        → (c : Bytes) (d : Bool) → node_at src u ≡ some (file c d)
        → length c ≡ size_at host src w
    unfolding node_len
    sized u same c d there = sym (size_known (file c d) (sym (same src) ∙ there))

    on_resolved-Final :
        (n : Node) (existed : Bool) (target : Option FilePath) (u : World)
        → node_at src w ≡ some n
        → AllSame u
        → (StatsWork host → existed ≡ false → node_at dst u ≡ none)
        → Resolved host existed opts.on_conflict dst (ok target) u
        → Post Final (on_resolved host journal src (node_len host n) existed opts target) u
    on_resolved-Final n existed none u there same absent resolved =
        pure-Post Final skipped_existing u (inl (same q), same)
    on_resolved-Final n existed (some p) u there same absent (e, free) =
        subst
          (λ k.
            Post Final
              (copy_to host journal src p k (existed && is_replace opts.on_conflict) opts.checksum)
              u)
          (size_known n there)
          (from_Kept p u _ e same (λ works ne. free works (absent works) ne) _
            (copy_to-Good host journal src p (size_at host src w) (ready p e) q (bystander p) u _ _
              u refl (sized u same)))

    pub copy_file-Final : Post Final (copy_file_with host journal src dst opts) w
    unfolding copy_file_with
    copy_file-Final =
        lift-bind-Post (λ r t. AllSame t × ((n : Node) → r ≡ ok n → node_at src t ≡ some n)) Final _
          io _ w (λ x. (stat-Keeps host x src).at w, stat_found host journal dst src 0 false w)
          (λ n t (same, found).
            bind-Post
              (λ r u.
                AllSame u × ((works : StatsWork host) → Truthful TransferError host works dst r u))
              Final _ _ t
              (
                λ x. (exists-Keeps host x dst).at t ∙ same x,
                λ works. exists-Truthful TransferError host works dst t,
              )
              (λ existed u (same', truth).
                bind-Post (λ r v. AllSame v × Resolved host existed opts.on_conflict dst r v) Final
                  _ _ u
                  (
                    λ x. (resolve-Keeps host x existed opts.on_conflict dst).at u ∙ same' x,
                    resolve-Resolved host existed opts.on_conflict dst u,
                  )
                  (λ target v (same'', resolved).
                    on_resolved-Final n existed target v (sym (same src) ∙ found n refl) same''
                      (λ works e.
                        same'' dst
                        ∙ (sym (same' dst)
                            ∙ absent-Truthful TransferError host works dst existed u (truth works)
                                e))
                      resolved)
                  (λ _ v (same'', _). (inl (same'' q), tt)))
              (λ _ u (same', _). (inl (same' q), tt)))
          (λ _ t (same, _). (inl (same q), tt))

  -- Whatever call fails, and wherever the run stops, a path that is neither a temporary file nor in
  -- the journal's folder has what it had before the copy, or lies in the destination's directory and
  -- is a flushed file of exactly the source's size.
  -- It holds where no row of reads delivers 2^63 bytes, the source is smaller than 2^63 bytes
  -- and is no temporary file, and the destination's directory is outside the journal's folder.
  pub copy_file-atomic :
      (q : FilePath)
      → IsPlain q
      → IsOutside journal (dir_of q)
      → let t = (copy_file_with host journal src dst opts w).1 in
        (node_at q t ≡ node_at q w) ⊎ ((dir_of q ≡ dir_of dst) × IsWhole (size_at host src w) q t)
  copy_file-atomic q plain out =
      elim (copy_file-Final q plain (λ d. IsAside-dir host journal q d out)).0 [
        | inl kept ↦ inl kept
        | inr (here, _, whole) ↦ inr (here, whole)
      ]

  -- A copy that is reported has landed in the destination's directory, under the reported name, as
  -- a flushed file of exactly the source's size, and that size is the number of bytes reported.
  -- It holds where no row of reads delivers 2^63 bytes, the source is smaller than 2^63 bytes
  -- and is no temporary file, and the destination's directory is outside the journal's folder.
  pub copy_file-landed :
      (tier : VerificationTier) (bytes : ℕ) (replaced : Bool) (p : FilePath)
      → (copy_file_with host journal src dst opts w).0 ≡ ok (copied tier bytes replaced p)
      → (dir_of p ≡ dir_of dst)
        × (bytes ≡ size_at host src w)
        × IsWhole bytes p (copy_file_with host journal src dst opts w).1
  copy_file-landed tier bytes replaced p e =
      let (here, size, whole) =
        subst
          (λ r.
            LandedAt [] IsPlain-root (IsAside-root host journal) r
              (copy_file_with host journal src dst opts w).1)
          e (copy_file-Final [] IsPlain-root (IsAside-root host journal)).1 in
      (here, size, rw size whole)

  -- Where asking about a path does not fail, a copy that is not told to replace leaves every file
  -- and directory that was there, but for temporary files and the journal's folder, as it was,
  -- whatever else fails.
  -- It holds where no row of reads delivers 2^63 bytes, the source is smaller than 2^63 bytes
  -- and is no temporary file, and the destination's directory is outside the journal's folder.
  pub copy_file-preserves :
      StatsWork host
      → opts.on_conflict ≢ replace
      → (q : FilePath) → IsPlain q
      → IsOutside journal (dir_of q)
      → node_at q w ≢ none
      → node_at q (copy_file_with host journal src dst opts w).1 ≡ node_at q w
  copy_file-preserves works ne q plain out there =
      elim (copy_file-Final q plain (λ d. IsAside-dir host journal q d out)).0 [
        | inl kept ↦ kept
        | inr (_, free, _) ↦ absurd (there (free works ne))
      ]
