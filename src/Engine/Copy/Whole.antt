-- ===== src/Engine/Copy/Whole.antt =====
-- What a transfer to a resolved destination may leave: each file as it was, or the destination whole.
use omafile.Prelude.{
  ℕ, Bytes, Bool, true, some, length, ◌==◌, ==_iff, list_eq, nat_eq, Result, ok, err, ◌≡◌, ◌≢◌, ◌⊎◌,
  inl, inr, refl, ◌∙◌, arith, Bool-cases,
}
use omafile.Prelude.Action.Post.{
  Post, pure-Post, raise-Post, lift-bind-Post, attempt-bind-Post, discard-bind-Post,
}
use omafile.Paths.{FilePath}
use omafile.Error.{IoError, TransferError, io}
use omafile.Tier.{VerificationTier, shared_extents}
use omafile.Host.Machine.{file, World, Host}
use omafile.Host.Calls.{rename}
use omafile.Host.Keeps.{node_at, remove_file-Keeps}
use omafile.Host.Renamed.{Arrived, rename-Arrived}
use omafile.FsOps.{temp_path_for}
use omafile.Journal.{Journal, clear}
use omafile.Journal.Keeps.{IsAside, clear-Keeps}
use omafile.Engine.Types.{Outcome, moved, copied, skipped_existing}
use omafile.Engine.Copy.{clone_renamed, commit_clone, commit, abandon}

-- A path other than the transfer's temporary file and its journal record.
pub record IsBystander (host : Host) (journal : Journal) (q dst : FilePath) : Type 0 where
  pub off_temp : q ≢ temp_path_for dst
  pub aside : IsAside host journal q dst

-- A whole file of the expected size, flushed.
abbrev pub IsWhole : ℕ → FilePath → World → Type 0
IsWhole size p w = (c : Bytes) × (node_at p w ≡ some (file c true)) × (length c ≡ size)

module _ (host : Host) (journal : Journal) (q dst : FilePath) (size : ℕ) (before : World) where
  -- `q` has what it had, or is the destination and whole.
  abbrev pub Safe : World → Type 0
  Safe w = (node_at q w ≡ node_at q before) ⊎ ((q ≡ dst) × IsWhole size dst w)

  -- A copy that is reported has landed, whole.
  abbrev pub Landed : Result TransferError Outcome → World → Type 0
  Landed (ok (copied tier bytes replaced p)) w = (p ≡ dst) × (bytes ≡ size) × IsWhole size dst w
  Landed (ok (moved p)) w = ⊥
  Landed (ok skipped_existing) w = ⊥
  Landed (err _) w = Unit {0}

  abbrev pub Kept : Result TransferError Outcome → World → Type 0
  Kept r w = Safe w × Landed r w

  module _ (bystander : IsBystander host journal q dst) where
    pub abandon-Kept :
        (e : TransferError) (w : World)
        → node_at q w ≡ node_at q before
        → Post Kept (abandon host journal dst e) w
    unfolding abandon
    abandon-Kept e w same =
        discard-bind-Post (λ t. node_at q t ≡ node_at q before) Kept _ _ w
          ((remove_file-Keeps host q _ bystander.off_temp).at w ∙ same)
          λ t same'.
            discard-bind-Post (λ u. node_at q u ≡ node_at q before) Kept _ _ t
              ((clear-Keeps host journal q dst bystander.aside).at t ∙ same')
              λ u same''. raise-Post Kept e u (inl same'', tt)

    -- After a rename of the whole temporary file.
    Arrived-Safe :
        (c : Bytes) (w t : World)
        → node_at q w ≡ node_at q before
        → length c ≡ size
        → Arrived host (temp_path_for dst) dst c true w (ok tt) t
        → Safe t
    Arrived-Safe c w t same len (there, others) = elim (Bool-cases (q == dst)) [
      | inl e ↦ inr ((==_iff q dst).0 e, (c, there, len))
      | inr e ↦ inl (others q bystander.off_temp (λ p. ground (arith, ==_iff q dst)) ∙ same)
    ]

    module _ (dst_aside : IsAside host journal dst dst) (c : Bytes) (len : length c ≡ size)
        (w : World) (same : node_at q w ≡ node_at q before)
        (full : node_at (temp_path_for dst) w ≡ some (file c true)) where
      -- What holds of a step that follows the rename, whatever its result.
      abbrev OnDisk : {A : Type 0} → Result IoError A → World → Type 0
      OnDisk r t = Safe t × (node_at dst t ≡ some (file c true))

      Renamed : Result IoError (Unit {0}) → World → Type 0
      Renamed (ok _) t = OnDisk (ok tt) t
      Renamed (err _) t = node_at q t ≡ node_at q before

      rename-Renamed : Post Renamed (rename host (temp_path_for dst) dst) w
      unfolding Renamed
      rename-Renamed = go _ _ (rename-Arrived host (temp_path_for dst) dst c true w full)
        where
          go :
              (r : Result IoError (Unit {0})) (t : World)
              → Arrived host (temp_path_for dst) dst c true w r t
              → Renamed r t
          go (ok _) t h = (Arrived-Safe c w t same len h, h.0)
          go (err _) t h = h q ∙ same

      safe_later :
          (t u : World)
          → node_at q u ≡ node_at q t
          → node_at dst u ≡ node_at dst t
          → OnDisk {A = Unit {0}} (ok tt) t
          → OnDisk {A = Unit {0}} (ok tt) u
      safe_later t u kept kept_dst (inl e, there) = (inl (kept ∙ e), kept_dst ∙ there)
      safe_later t u kept kept_dst (inr (e, whole), there) =
          (inr (e, (c, kept_dst ∙ there, len)), kept_dst ∙ there)

      pub commit-Kept :
          (tier : VerificationTier) (replaced : Bool)
          → Post Kept (commit host journal dst tier size replaced) w
      unfolding commit Renamed
      commit-Kept tier replaced =
          lift-bind-Post Renamed Kept _ io _ w rename-Renamed
            (λ _ t done.
              lift-bind-Post OnDisk Kept _ io _ t
                (safe_later t (clear host journal dst t).1
                  ((clear-Keeps host journal q dst bystander.aside).at t)
                  ((clear-Keeps host journal dst dst dst_aside).at t) done)
                (λ _ u still.
                  pure-Post Kept (copied tier size replaced dst) u
                    (still.0, (refl, refl, (c, still.1, len))))
                (λ _ u still. (still.0, tt)))
            (λ _ t kept. (inl kept, tt))

      pub commit_clone-Kept :
          (replaced : Bool) → Post Kept (commit_clone host journal dst size replaced) w
      unfolding commit_clone clone_renamed Renamed
      commit_clone-Kept replaced =
          attempt-bind-Post Renamed Kept _ _ w rename-Renamed λ r t done. go r t done
        where
          go :
              (r : Result IoError (Unit {0})) (t : World)
              → Renamed r t
              → Post Kept (clone_renamed host journal dst size replaced r) t
          go (ok _) t done =
              pure-Post Kept (copied shared_extents size replaced dst) t
                (done.0, (refl, refl, (c, done.1, len)))
          go (err e) t kept =
              discard-bind-Post (λ u. node_at q u ≡ node_at q before) Kept _ _ t
                ((remove_file-Keeps host q _ bystander.off_temp).at t ∙ kept)
                λ u same'. raise-Post Kept (io e) u (inl same', tt)
