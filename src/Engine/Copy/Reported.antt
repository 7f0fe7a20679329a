-- ===== src/Engine/Copy/Reported.antt =====
-- What the tier that a copy reports says of its content, seen by a caller of `copy_file_with`.
use mathlib.Core.Path.{subst}
use omafile.Prelude.{
  ℕ, ◌<◌, ◌^◌, Bytes, Bool, true, length, ◌&&◌, Option, none, some, Result, ok, ◌≡◌, refl, sym, ap,
  ◌∙◌,
}
use omafile.Prelude.Action.Post.{Post, bind-Post, pure-Post, lift-bind-Post}
use omafile.Paths.{FilePath}
use omafile.Error.{TransferError, io}
use omafile.Tier.{VerificationTier, shared_extents, checksummed, size_checked}
use omafile.Host.Machine.{Node, file, World, Host}
use omafile.Host.Calls.{dir_of, node_len}
use omafile.Host.Reads.{IsHonest}
use omafile.Host.Keeps.{node_at, stat-Keeps, exists-Keeps}
use omafile.Journal.{Journal}
use omafile.Journal.Keeps.{IsOutside}
use omafile.Engine.Types.{Options, Outcome, copied, skipped_existing, is_replace}
use omafile.Engine.FreeName.Chosen.{Resolved, resolve-Resolved, resolve-Keeps}
use omafile.Engine.Stream.Filled.{IsBounded}
use omafile.Engine.Stream.Keeps.{stat_found}
use omafile.Engine.Verify.Agreed.{IsDigest}
use omafile.Engine.Copy.{copy_to, on_resolved, copy_file_with}
use omafile.Engine.Copy.Content.{Vouches, Vouched, copy_to-Vouched}
use omafile.Engine.Copy.Plain.{IsPlain, IsAside-dir, IsAside-temp}
use omafile.Engine.Copy.Safety.{size_at, copy_file-landed}

module _ (host : Host) (journal : Journal) (src dst : FilePath) (opts : Options) (w : World)
    (bounded : IsBounded host) (fits : size_at host src w < 2 ^ 63)
    (outside : IsOutside journal (dir_of dst)) (src_plain : IsPlain src)
    (src_outside : IsOutside journal (dir_of src)) where
  abbrev V : Result TransferError Outcome → World → Type 0
  V = Vouched host (node_at src w)

  to_resolved :
      (p : FilePath) (replaced : Bool) (u : World)
      → dir_of p ≡ dir_of dst
      → node_at src u ≡ node_at src w
      → Post V (copy_to host journal src p (size_at host src w) replaced opts.checksum) u
  to_resolved p replaced u e same =
      let out : IsOutside journal (dir_of p) = rw e outside in
      copy_to-Vouched host journal src p (size_at host src w)
        (record {
          bounded = bounded;
          fits = fits;
          source_off_temp = src_plain p;
          temp_aside = IsAside-temp host journal p p out;
          dst_aside = IsAside-dir host journal p p out;
        })
        (record { off_temp = src_plain p; aside = IsAside-dir host journal src p src_outside })
        (node_at src w) replaced opts.checksum u same

  on_Resolved-Vouched :
      (n : Node) (existed : Bool) (target : Option FilePath) (u : World)
      → node_at src w ≡ some n
      → node_at src u ≡ node_at src w
      → Resolved host existed opts.on_conflict dst (ok target) u
      → Post V (on_resolved host journal src (node_len host n) existed opts target) u
  on_Resolved-Vouched n existed none u there same resolved = pure-Post V skipped_existing u tt
  on_Resolved-Vouched n existed (some p) u there same (e, _) =
      let known : size_at host src w ≡ node_len host n = rw (there, size_at) refl in
      subst
        (λ k.
          Post V
            (copy_to host journal src p k (existed && is_replace opts.on_conflict) opts.checksum) u)
        known (to_resolved p (existed && is_replace opts.on_conflict) u e same)

  copy_file-Vouched : Post V (copy_file_with host journal src dst opts) w
  unfolding copy_file_with
  copy_file-Vouched =
      lift-bind-Post
        (λ r t. (node_at src t ≡ node_at src w) × ((n : Node) → r ≡ ok n → node_at src t ≡ some n))
        V _ io _ w
        ((stat-Keeps host src src).at w, stat_found host journal dst src 0 (opts.checksum) w)
        (λ n t (same, found).
          bind-Post (λ _ u. node_at src u ≡ node_at src t) V _ _ t
            ((exists-Keeps host src dst).at t)
            (λ existed u kept.
              bind-Post
                (λ r v.
                  (node_at src v ≡ node_at src u) × Resolved host existed opts.on_conflict dst r v)
                V _ _ u
                (
                  (resolve-Keeps host src existed opts.on_conflict dst).at u,
                  resolve-Resolved host existed opts.on_conflict dst u,
                )
                (λ target v (kept', resolved).
                  on_Resolved-Vouched n existed target v (sym same ∙ found n refl)
                    (kept' ∙ (kept ∙ same)) resolved)
                (λ _ _ _. tt))
            (λ _ _ _. tt))
        (λ _ _ _. tt)

  -- What a tier says when reads are honest.
  abbrev pub Says : Bytes → VerificationTier → Bytes → Type 0
  Says source shared_extents c = c ≡ source
  Says source checksummed c = host.sha256 c ≡ host.sha256 source
  Says source size_checked c = Unit {0}

  module _ (honest : IsHonest host) (source : Bytes) (durable : Bool)
      (there : node_at src w ≡ some (file source durable)) where
    digest-sha256 : (c h : Bytes) (d : Bool) → IsDigest host (some (file c d)) h → h ≡ host.sha256 c
    digest-sha256 c h d (t, (none_failed, e)) = e ∙ ap host.sha256 (honest t c none_failed)

    says :
        (tier : VerificationTier) (c : Bytes)
        → Vouches host (node_at src w) tier c
        → Says source tier c
    says shared_extents c (d, e) = cc (sym e ∙ there)
    says checksummed c (h, (wanted, got)) =
        sym (digest-sha256 c h true got)
        ∙ digest-sha256 source h durable (subst (λ n. IsDigest host n h) there wanted)
    says size_checked c h = tt

    same_length :
        (c : Bytes) (p : FilePath) (bytes : ℕ) (t : World)
        → node_at p t ≡ some (file c true)
        → bytes ≡ size_at host src w
        → (c' : Bytes) × ((node_at p t ≡ some (file c' true)) × (length c' ≡ bytes))
        → length c ≡ length source
    unfolding node_len
    same_length c p bytes t e size (c', (e', len)) =
        let same : c ≡ c' = cc (sym e ∙ e') in
        let known : size_at host src w ≡ length source = rw (there, size_at) refl in
        ap length same ∙ (len ∙ (size ∙ known))

    -- A copy that is reported has landed under the reported name with as many bytes as the source
    -- has; if it is reported as sharing extents its content is the source's; and if it is reported
    -- as checksummed its SHA-256 digest is that of the source.
    -- It holds where no row of reads delivers 2^63 bytes, reads deliver, unless they fail, all that
    -- is left of the file, the source is a file smaller than 2^63 bytes and no temporary file, and the
    -- destination's directory and the source's are outside the journal's folder.
    pub copy_file-content :
        (tier : VerificationTier) (bytes : ℕ) (replaced : Bool) (p : FilePath)
        → (copy_file_with host journal src dst opts w).0 ≡ ok (copied tier bytes replaced p)
        → (c : Bytes) × ((node_at p (copy_file_with host journal src dst opts w).1
              ≡ some (file c true))
            × ((length c ≡ length source) × Says source tier c))
    copy_file-content tier bytes replaced p e =
        let (c, (at_p, vouched)) =
          subst (λ r. V r (copy_file_with host journal src dst opts w).1) e copy_file-Vouched in
        let (_, size, whole) =
          copy_file-landed host journal src dst opts w bounded fits outside src_plain tier bytes
            replaced p e in
        (
          c,
          (
            at_p,
            (
              same_length c p bytes (copy_file_with host journal src dst opts w).1 at_p size
                  (whole.0, (whole.1, whole.2)),
              says tier c vouched,
            ),
          ),
        )
