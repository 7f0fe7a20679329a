-- ===== src/Engine/Copy/Atomic.antt =====
-- The commit discipline: whatever fails and wherever the run stops, a transfer leaves each file as it
-- was, or the destination whole.
use omafile.Prelude.{
  ℕ, ◌<◌, ◌^◌, Bytes, Bool, true, false, Option, some, length, ◌==◌, ==_iff, list_eq, nat_eq,
  if◌then◌else◌, Result, ok, err, attempt, ◌>>=◌, ◌≡◌, ◌≢◌, ◌⊎◌, inl, inr, refl, sym, ◌∙◌, arith,
  Bool-cases,
}
use omafile.Prelude.Action.Post.{Post, bind-Post, pure-Post, lift-bind-Post, attempt-bind-Post}
use omafile.Paths.{FilePath}
use omafile.Error.{IoError, TransferError, io, size_mismatch}
use omafile.Tier.{checksummed, size_checked}
use omafile.Host.Machine.{Node, file, World, Host, Entry}
use omafile.Host.Keeps.{node_at}
use omafile.FsOps.{temp_path_for, try_reflink_into_temp}
use omafile.FsOps.Clone.{same_filesystem-Keeps, try_reflink-Keeps, Cloned, try_reflink-Cloned}
use omafile.Journal.{Journal}
use omafile.Journal.Keeps.{IsAside, record_entry-Keeps}
use omafile.Engine.Types.{Outcome}
use omafile.Engine.Stream.Filled.{IsBounded, CanResume, Streamed, stream-Streamed}
use omafile.Engine.Stream.Keeps.{stream-Keeps, resume_offset-Keeps, Offered, resume_offset-Offered}
use omafile.Engine.Verify.Keeps.{verify-Keeps, Intact, verify-Intact}
use omafile.Engine.Copy.{verified, commit, check_size, copy_by_stream, on_clone, copy_to}
use omafile.Engine.Copy.Whole.{IsBystander, Kept, abandon-Kept, commit-Kept, commit_clone-Kept}

-- What a transfer may rely on: its working files are its own, and sizes are within a signed 64-bit
-- number, as offsets in a file are.
pub record IsReady (host : Host) (journal : Journal) (src dst : FilePath) (size : ℕ) : Type 0 where
  pub bounded : IsBounded host
  pub fits : size < 2 ^ 63
  pub source_off_temp : src ≢ temp_path_for dst
  pub temp_aside : IsAside host journal (temp_path_for dst) dst
  pub dst_aside : IsAside host journal dst dst

module _ (host : Host) (journal : Journal) (src dst : FilePath) (size : ℕ)
    (ready : IsReady host journal src dst size) (q : FilePath)
    (bystander : IsBystander host journal q dst) (before : World) (replaced checksum : Bool) where
  abbrev Good : Result TransferError Outcome → World → Type 0
  Good = Kept host journal q dst size before

  abbrev Unmoved : World → Type 0
  Unmoved w = node_at q w ≡ node_at q before

  abbrev temp : FilePath
  temp = temp_path_for dst

  abbrev TempKept : World → {A : Type 0} → Result TransferError A → World → Type 0
  TempKept w (ok _) t = node_at temp t ≡ node_at temp w
  TempKept w (err _) t = Unit {0}

  verified-Kept :
      (w : World)
      → Unmoved w
      → (asked : Bool)
      → Post (λ r t. Unmoved t × TempKept w r t) (verified host journal src dst asked) w
  unfolding verified
  verified-Kept w same false =
      pure-Post (λ r t. Unmoved t × TempKept w r t) size_checked w (same, refl)
  verified-Kept w same true =
      bind-Post (λ r t. (node_at q t ≡ node_at q w) × Intact host journal temp src temp dst w r t)
        (λ r t. Unmoved t × TempKept w r t) _ _ w
        (
          (verify-Keeps host journal q temp dst bystander.off_temp bystander.aside src).at w,
          verify-Intact host journal temp src temp dst w,
        )
        (λ _ t (kept, intact).
          pure-Post (λ r t. Unmoved t × TempKept w r t) checksummed t (kept ∙ same, intact))
        (λ _ t (kept, _). (kept ∙ same, tt))

  -- Verification, if any, then the commit.
  check_size-ok :
      (c : Bytes) (w : World)
      → length c ≡ size
      → Unmoved w
      → node_at temp w ≡ some (file c true)
      → Post Good
          (do
            tier ← verified host journal src dst checksum
            commit host journal dst tier size replaced)
          w
  check_size-ok c w len same full =
      bind-Post (λ r t. Unmoved t × TempKept w r t) Good _ _ w (verified-Kept w same checksum)
        (λ tier t (still, kept).
          commit-Kept host journal q dst size before bystander ready.dst_aside c len t still
            (kept ∙ full) tier replaced)
        (λ _ t (still, _). (inl still, tt))

  check_size-Good :
      (from : ℕ) (source : Option Node) (r : Result TransferError ℕ) (w : World)
      → Unmoved w
      → Streamed host temp from source r w
      → Post Good (check_size host journal src dst size replaced checksum r) w
  unfolding check_size
  check_size-Good from source (err e) w same h =
      abandon-Kept host journal q dst size before bystander e w same
  check_size-Good from source (ok n) w same (old, t, _, full, count) =
      elim (Bool-cases (n == size)) [
        | inl e ↦ rw e (check_size-ok _ w (sym count ∙ (==_iff n size).0 e) same full)
        | inr e ↦ rw e (
            abandon-Kept host journal q dst size before bystander (size_mismatch dst size n) w same)
      ]

  pub offered_fits : (from : ℕ) → (from ≡ 0) ⊎ (from < size) → from < 2 ^ 63
  offered_fits from (inl e) = omega arith
  offered_fits from (inr h) = omega (arith, ready.fits)

  pub resumable_later :
      (from : ℕ) (t u : World)
      → node_at temp u ≡ node_at temp t
      → CanResume host temp from t
      → CanResume host temp from u
  resumable_later from t u kept (inl e) = inl e
  resumable_later from t u kept (inr (n, there, len)) = inr (n, kept ∙ there, len)

  copy_by_stream-Good :
      (w : World)
      → Unmoved w
      → Post Good (copy_by_stream host journal src dst size replaced checksum) w
  unfolding copy_by_stream
  copy_by_stream-Good w same =
      bind-Post (λ r t. Unmoved t × Offered host journal dst temp size checksum r t) Good _ _ w
        (
          (resume_offset-Keeps host journal q dst temp size checksum).at w ∙ same,
          resume_offset-Offered host journal dst temp size checksum w,
        )
        (λ from t (still, (can, fits)).
          let entry : Entry = record {
            source = src;
            destination = dst;
            temp = temp_path_for dst;
            expected_size = size;
            bytes_done = from;
            checksum_requested = checksum;
          } in
          lift-bind-Post (λ _ u. Unmoved u × (node_at temp u ≡ node_at temp t)) Good _ io _ t
            (
              (record_entry-Keeps host journal q dst bystander.aside entry refl).at t ∙ still,
              (record_entry-Keeps host journal temp dst ready.temp_aside entry refl).at t,
            )
            (λ _ u (still', kept).
              attempt-bind-Post (λ r v. Unmoved v × Streamed host temp from (node_at src u) r v)
                Good _ _ u
                (
                  (stream-Keeps host q temp bystander.off_temp src from size).at u ∙ still',
                  stream-Streamed host src temp size from (node_at src u) ready.source_off_temp
                      ready.bounded (offered_fits from fits) u (resumable_later from t u kept can)
                      refl,
                )
                (λ r v (still'', streamed).
                  check_size-Good from (node_at src u) r v still'' streamed))
            (λ _ _ (still', _). (inl still', tt)))
        (λ _ _ (still, _). (inl still, tt))

  -- What a clone must have for the size that is reported to be its own.
  abbrev pub IsSized : World → Type 0
  IsSized w = (c : Bytes) (d : Bool) → node_at src w ≡ some (file c d) → length c ≡ size

  on_clone-Good :
      (source : Option Node)
      → ((c : Bytes) (d : Bool) → source ≡ some (file c d) → length c ≡ size)
      → (r : Result IoError Bool) (w : World) → Unmoved w
      → Cloned host src temp ready.source_off_temp source true r w
      → Post Good (on_clone host journal src dst size replaced checksum r) w
  on_clone-Good source sized (ok true) w same (c, d, e, full) =
      commit_clone-Kept host journal q dst size before bystander ready.dst_aside c (sized c d e) w
        same full replaced
  on_clone-Good source sized (ok false) w same h = copy_by_stream-Good w same
  on_clone-Good source sized (err e) w same h = copy_by_stream-Good w same

  -- Whatever fails, `q` is left as it was, or is the destination and whole; and a copy that is
  -- reported has landed.
  pub copy_to-Good :
      (w : World)
      → Unmoved w
      → IsSized w
      → Post Good (copy_to host journal src dst size replaced checksum) w
  unfolding copy_to
  copy_to-Good w same sized =
      lift-bind-Post (λ _ t. Unmoved t × (node_at src t ≡ node_at src w)) Good _ io _ w
        (
          (same_filesystem-Keeps host q src dst).at w ∙ same,
          (same_filesystem-Keeps host src src dst).at w,
        )
        (λ here t (still, src_kept). branch here t still src_kept)
        (λ _ _ (still, _). (inl still, tt))
    where
      branch :
          (here : Bool) (t : World)
          → node_at q t ≡ node_at q before
          → node_at src t ≡ node_at src w
          → Post
              (Kept host journal q dst size before)
              (if here
                then (do
                  r ← attempt (try_reflink_into_temp host src (temp_path_for dst))
                  on_clone host journal src dst size replaced checksum r)
                else copy_by_stream host journal src dst size replaced checksum)
              t
      branch true t still src_kept =
          attempt-bind-Post
            (λ r u. Unmoved u × Cloned host src temp ready.source_off_temp (node_at src w) true r u)
            Good _ _ t
            (
              (try_reflink-Keeps host q temp bystander.off_temp src).at t ∙ still,
              try_reflink-Cloned host src temp ready.source_off_temp (node_at src w) t src_kept,
            )
            (λ r u (still', got). on_clone-Good (node_at src w) sized r u still' got)
      branch false t still src_kept = copy_by_stream-Good t still
