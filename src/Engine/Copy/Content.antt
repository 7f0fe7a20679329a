-- ===== src/Engine/Copy/Content.antt =====
-- What each verification tier says of the content that has landed.
use omafile.Prelude.{
  ℕ, Bytes, Bool, true, false, Option, some, ◌==◌, nat_eq, Bool-cases, Result, ok, err, ◌≡◌, inl,
  inr, refl, ◌∙◌,
}
use omafile.Prelude.Action.Post.{
  Post, bind-Post, pure-Post, raise-Post, lift-bind-Post, attempt-bind-Post, discard-bind-Post,
}
use omafile.Paths.{FilePath}
use omafile.Error.{IoError, TransferError, io, size_mismatch}
use omafile.Tier.{VerificationTier, shared_extents, checksummed, size_checked}
use omafile.Host.Machine.{Node, file, World, Host, Entry}
use omafile.Host.Calls.{rename}
use omafile.Host.Keeps.{node_at}
use omafile.Host.Renamed.{Arrived, rename-Arrived}
use omafile.FsOps.{temp_path_for}
use omafile.FsOps.Clone.{same_filesystem-Keeps, try_reflink-Keeps, Cloned, try_reflink-Cloned}
use omafile.Journal.{Journal}
use omafile.Journal.Keeps.{record_entry-Keeps, clear-Keeps}
use omafile.Engine.Types.{Outcome, moved, copied, skipped_existing}
use omafile.Engine.Stream.Filled.{Streamed, stream-Streamed}
use omafile.Engine.Stream.Keeps.{stream-Keeps, resume_offset-Keeps, Offered, resume_offset-Offered}
use omafile.Engine.Verify.Keeps.{Intact, verify-Intact}
use omafile.Engine.Verify.Agreed.{Agreed, Verified, verify-Verified}
use omafile.Engine.Copy.{
  clone_renamed, commit_clone, commit, verified, abandon, check_size, copy_by_stream, on_clone,
  copy_to,
}
use omafile.Engine.Copy.Whole.{IsBystander}
use omafile.Engine.Copy.Atomic.{IsReady, offered_fits, resumable_later}

module _ (host : Host) (source : Option Node) where
  -- A clone has the source's content; a checksummed copy has a digest that reading it back and
  -- reading the source both gave; of a copy whose size was checked nothing more is known.
  abbrev pub Vouches : VerificationTier → Bytes → Type 0
  Vouches shared_extents c = (d : Bool) × (source ≡ some (file c d))
  Vouches checksummed c = Agreed host source (some (file c true))
  Vouches size_checked c = Unit {0}

  abbrev pub Vouched : Result TransferError Outcome → World → Type 0
  Vouched (ok (copied tier bytes replaced p)) w =
      (c : Bytes) × ((node_at p w ≡ some (file c true)) × Vouches tier c)
  Vouched (ok (moved p)) w = Unit {0}
  Vouched (ok skipped_existing) w = Unit {0}
  Vouched (err _) w = Unit {0}

module _ (host : Host) (journal : Journal) (src dst : FilePath) (size : ℕ)
    (ready : IsReady host journal src dst size) (bystander : IsBystander host journal src dst)
    (source : Option Node) where
  abbrev temp : FilePath
  temp = temp_path_for dst

  abbrev V : Result TransferError Outcome → World → Type 0
  V = Vouched host source

  abbrev AtDst : Bytes → {A : Type 0} → Result IoError A → World → Type 0
  AtDst c (ok _) t = node_at dst t ≡ some (file c true)
  AtDst c (err _) t = Unit {0}

  rename-AtDst :
      (c : Bytes) (w : World)
      → node_at temp w ≡ some (file c true)
      → Post (AtDst c) (rename host temp dst) w
  rename-AtDst c w full = go _ _ (rename-Arrived host temp dst c true w full)
    where
      go :
          (r : Result IoError (Unit {0})) (t : World)
          → Arrived host temp dst c true w r t
          → AtDst c r t
      go (ok _) t h = h.0
      go (err _) t h = tt

  commit-Vouched :
      (tier : VerificationTier) (replaced : Bool) (c : Bytes) (w : World)
      → node_at temp w ≡ some (file c true)
      → Vouches host source tier c
      → Post V (commit host journal dst tier size replaced) w
  unfolding commit
  commit-Vouched tier replaced c w full vouched =
      lift-bind-Post (AtDst c) V _ io _ w (rename-AtDst c w full)
        (λ _ t there.
          lift-bind-Post (λ _ u. node_at dst u ≡ node_at dst t) V _ io _ t
            ((clear-Keeps host journal dst dst ready.dst_aside).at t)
            (λ _ u kept. pure-Post V (copied tier size replaced dst) u (c, (kept ∙ there, vouched)))
            (λ _ _ _. tt))
        (λ _ _ _. tt)

  clone_renamed-Vouched :
      (replaced : Bool) (c : Bytes) (d : Bool) (r : Result IoError (Unit {0})) (t : World)
      → source ≡ some (file c d)
      → AtDst c r t
      → Post V (clone_renamed host journal dst size replaced r) t
  unfolding clone_renamed
  clone_renamed-Vouched replaced c d (ok _) t e there =
      pure-Post V (copied shared_extents size replaced dst) t (c, (there, (d, e)))
  clone_renamed-Vouched replaced c d (err x) t e there =
      discard-bind-Post (λ _. Unit {0}) V _ _ t tt (λ u _. raise-Post V (io x) u tt)

  abandon-Vouched : (e : TransferError) (w : World) → Post V (abandon host journal dst e) w
  unfolding abandon
  abandon-Vouched e w =
      discard-bind-Post (λ _. Unit {0}) V _ _ w tt
        (λ t _. discard-bind-Post (λ _. Unit {0}) V _ _ t tt (λ u _. raise-Post V e u tt))

  abbrev Established : Bytes → Result TransferError VerificationTier → World → Type 0
  Established c (ok tier) t = (node_at temp t ≡ some (file c true)) × Vouches host source tier c
  Established c (err _) t = Unit {0}

  verified-Established :
      (asked : Bool) (c : Bytes) (w : World)
      → node_at src w ≡ source
      → node_at temp w ≡ some (file c true)
      → Post (Established c) (verified host journal src dst asked) w
  unfolding verified
  verified-Established false c w same full = pure-Post (Established c) size_checked w (full, tt)
  verified-Established true c w same full =
      bind-Post
        (λ r t.
          Verified host src temp source (some (file c true)) r t
          × Intact host journal temp src temp dst w r t)
        (Established c) _ _ w
        (
          verify-Verified host src temp source (some (file c true)) journal dst w (same, full),
          verify-Intact host journal temp src temp dst w,
        )
        (λ _ t (agreed, intact). pure-Post (Established c) checksummed t (intact ∙ full, agreed))
        (λ _ _ _. tt)

  check_size-Vouched :
      (replaced checksum : Bool) (from : ℕ) (r : Result TransferError ℕ) (w : World)
      → node_at src w ≡ source
      → Streamed host temp from source r w
      → Post V (check_size host journal src dst size replaced checksum r) w
  unfolding check_size
  check_size-Vouched replaced checksum from (err e) w same h = abandon-Vouched e w
  check_size-Vouched replaced checksum from (ok n) w same (old, t, _, full, count) =
      elim (Bool-cases (n == size)) [
        | inl e ↦ rw e (
            bind-Post (Established _) V _ _ w (verified-Established checksum _ w same full)
              (λ tier u (still, vouched). commit-Vouched tier replaced _ u still vouched)
              (λ _ _ _. tt))
        | inr e ↦ rw e (abandon-Vouched (size_mismatch dst size n) w)
      ]

  copy_by_stream-Vouched :
      (replaced checksum : Bool) (w : World)
      → node_at src w ≡ source
      → Post V (copy_by_stream host journal src dst size replaced checksum) w
  unfolding copy_by_stream
  copy_by_stream-Vouched replaced checksum w same =
      bind-Post (λ r t. (node_at src t ≡ source) × Offered host journal dst temp size checksum r t)
        V _ _ w
        (
          (resume_offset-Keeps host journal src dst temp size checksum).at w ∙ same,
          resume_offset-Offered host journal dst temp size checksum w,
        )
        (λ from t (still, (can, fits)).
          let entry : Entry = record {
            source = src;
            destination = dst;
            temp = temp_path_for dst;
            expected_size = size;
            bytes_done = from;
            checksum_requested = checksum;
          } in
          lift-bind-Post (λ _ u. (node_at src u ≡ source) × (node_at temp u ≡ node_at temp t)) V _
            io _ t
            (
              (record_entry-Keeps host journal src dst bystander.aside entry refl).at t ∙ still,
              (record_entry-Keeps host journal temp dst ready.temp_aside entry refl).at t,
            )
            (λ _ u (still', kept).
              attempt-bind-Post
                (λ r v. (node_at src v ≡ source) × Streamed host temp from source r v) V _ _ u
                (
                  (stream-Keeps host src temp bystander.off_temp src from size).at u ∙ still',
                  stream-Streamed host src temp size from source ready.source_off_temp ready.bounded
                      (offered_fits host journal src dst size ready src bystander w replaced
                        checksum from fits)
                      u
                      (resumable_later host journal src dst size ready src bystander w replaced
                        checksum from t u kept can)
                      still',
                )
                (λ r v (still'', streamed).
                  check_size-Vouched replaced checksum from r v still'' streamed))
            (λ _ _ _. tt))
        (λ _ _ _. tt)

  on_clone-Vouched :
      (replaced checksum : Bool) (r : Result IoError Bool) (w : World)
      → node_at src w ≡ source
      → Cloned host src temp ready.source_off_temp source true r w
      → Post V (on_clone host journal src dst size replaced checksum r) w
  unfolding commit_clone
  on_clone-Vouched replaced checksum (ok true) w same (c, d, e, full) =
      attempt-bind-Post (AtDst c) V _ _ w (rename-AtDst c w full)
        (λ r t there. clone_renamed-Vouched replaced c d r t e there)
  on_clone-Vouched replaced checksum (ok false) w same h =
      copy_by_stream-Vouched replaced checksum w same
  on_clone-Vouched replaced checksum (err e) w same h =
      copy_by_stream-Vouched replaced checksum w same

  pub copy_to-Vouched :
      (replaced checksum : Bool) (w : World)
      → node_at src w ≡ source
      → Post V (copy_to host journal src dst size replaced checksum) w
  unfolding copy_to
  copy_to-Vouched replaced checksum w same =
      lift-bind-Post (λ _ t. node_at src t ≡ node_at src w) V _ io _ w
        ((same_filesystem-Keeps host src src dst).at w)
        (λ here t kept. elim (Bool-cases here) [
          | inl e ↦ rw e (
              attempt-bind-Post
                (λ r u.
                  (node_at src u ≡ source)
                  × Cloned host src temp ready.source_off_temp source true r u)
                V _ _ t
                (
                  (try_reflink-Keeps host src temp bystander.off_temp src).at t ∙ (kept ∙ same),
                  try_reflink-Cloned host src temp ready.source_off_temp source t (kept ∙ same),
                )
                (λ r u (still, got). on_clone-Vouched replaced checksum r u still got))
          | inr e ↦ rw e (copy_by_stream-Vouched replaced checksum t (kept ∙ same))
        ])
        (λ _ _ _. tt)
