-- ===== src/Engine/Copy/Succeeds/Committing.antt =====
-- The copy by reading and writing succeeds on a machine on which no call fails.
use omafile.Prelude.{
  ℕ, Bytes, Bool, true, false, none, some, Option-cases, ok, pure, attempt, ◌>>=◌, length, ==_refl,
  ==_ne, list_eq, nat_eq, if◌then◌else◌, inl, inr, ◌≡◌, refl, sym, ap, ◌∙◌, arith,
}
use omafile.Prelude.Action.Post.{Post, pure-Post}
use omafile.Prelude.Action.Done.{Done, Done-ok, bind-Done, lift-Done, attempt-Done}
use omafile.Paths.{FilePath}
use omafile.Error.{io}
use omafile.Tier.{VerificationTier, checksummed, size_checked}
use omafile.Host.Machine.{Node, file, dir, socket, World, Host}
use omafile.Host.Calls.{remove_file, read_file, open_read}
use omafile.Host.Works.{NoFaults, ReadsWhole, is_writable}
use omafile.Journal.{Journal, clear, get}
use omafile.Engine.Types.{Outcome, copied}
use omafile.Engine.Stream.{resume_offset}
use omafile.Engine.Stream.Filled.{IsBounded}
use omafile.Engine.Verify.Passes.{verify-Done}
use omafile.Engine.Copy.{commit, verified, check_size, copy_by_stream}
use omafile.Engine.Copy.Plain.{ne-temp}
use omafile.Engine.Copy.Succeeds.Conditions.{Apart, temp_file, entry_file}
use omafile.Engine.Copy.Succeeds.Recording.{Ok, At, dir_of-temp_file, record_entry-Ready}
use omafile.Engine.Copy.Succeeds.Streaming.{stream-Holding}
use omafile.Engine.Copy.Succeeds.Writing.{rename-Holding}

not_writable : false ≡ true → ⊥
not_writable e = cc

module _ (host : Host) (works : NoFaults host) (journal : Journal) (src dst : FilePath) (c : Bytes)
    (d : Bool) (apart : Apart host journal src dst) (whole : ReadsWhole host c)
    (bounded : IsBounded host) where
  abbrev Okay : World → Type 0
  Okay t = Ok host works journal src dst c d apart t

  abbrev temp : FilePath
  temp = temp_file host journal src dst

  abbrev entry : FilePath
  entry = entry_file host journal src dst

  abbrev pub Full : FilePath → World → Type 0
  Full p t = At host works journal src dst c d apart p c true t

  -- The copy is reported, and is the source, flushed.
  abbrev pub IsCopied : VerificationTier → Bool → Outcome → World → Type 0
  IsCopied tier replaced out t =
      (out ≡ copied tier (length c) replaced dst) × (t.files dst ≡ some (file c true))

  abbrev IsThere : {A : Type 0} → A → World → Type 0
  IsThere a t = t.files dst ≡ some (file c true)

  clear-IsThere :
      (t : World)
      → is_writable (t.files entry) ≡ true
      → t.files dst ≡ some (file c true)
      → Post (Done IsThere) (clear host journal dst) t
  unfolding clear remove_file attempt pure ◌>>=◌ is_writable
  clear-IsThere t free there = elim (Option-cases (t.files entry)) [
    | inl e ↦
        Done-ok IsThere tt (clear host journal dst t).0 (clear host journal dst t).1
          (ground (arith, works.0 t.clock, e)) (ground (arith, works.0 t.clock, e, there))
    | inr (n, e) ↦ of_node n e
  ]
    where
      of_node : (n : Node) → t.files entry ≡ some n → Post (Done IsThere) (clear host journal dst) t
      of_node (file x b) e =
          Done-ok IsThere tt (clear host journal dst t).0 (clear host journal dst t).1
            (ground (arith, works.0 t.clock, e))
            (ground (arith, works.0 t.clock, e, there, ==_ne dst entry apart.dst_entry))
      of_node dir e = absurd (not_writable (ap is_writable (sym e) ∙ free))
      of_node socket e = absurd (not_writable (ap is_writable (sym e) ∙ free))

  commit-IsCopied :
      (tier : VerificationTier) (replaced : Bool) (t : World)
      → Full temp t
      → Post (Done (IsCopied tier replaced)) (commit host journal dst tier (length c) replaced) t
  unfolding commit
  commit-IsCopied tier replaced t h =
      lift-Done (λ _ u. Full dst u) (Done (IsCopied tier replaced)) _ io _ t
        (rename-Holding host works journal src dst c d apart temp dst c true t apart.src_temp
          apart.src_dst (λ same. ne-temp dst (sym same)) h h.0.dst_free
          (dir_of-temp_file host works journal src dst c d apart) h.0.into)
        (λ _ u k.
          lift-Done IsThere (Done (IsCopied tier replaced)) (clear host journal dst) io _ u
            (clear-IsThere u k.0.entry_free k.1)
            (λ _ v there. pure-Post (Done (IsCopied tier replaced)) _ v (refl, there)))

  abbrev pub tier_of : Bool → VerificationTier
  tier_of checksum = if checksum then checksummed else size_checked

  verified-Done :
      (checksum : Bool) (t : World)
      → Full temp t
      → Post
          (Done (λ tier u. (tier ≡ tier_of checksum) × Full temp u))
          (verified host journal src dst checksum)
          t
  unfolding verified
  verified-Done true t h =
      bind-Done (λ _ u. u.files ≡ t.files) (Done (λ tier u. (tier ≡ checksummed) × Full temp u)) _ _
        t (verify-Done host works c whole journal src temp dst d true t h.0.source h.1)
        (λ _ u same.
          pure-Post (Done (λ tier u. (tier ≡ checksummed) × Full temp u)) checksummed u
            (refl, rw same h))
  verified-Done false t h =
      pure-Post (Done (λ tier u. (tier ≡ size_checked) × Full temp u)) size_checked t (refl, h)

  check_size-IsCopied :
      (checksum replaced : Bool) (n : ℕ) (t : World)
      → n ≡ length c
      → Full temp t
      → Post
          (Done (IsCopied (tier_of checksum) replaced))
          (check_size host journal src dst (length c) replaced checksum (ok n))
          t
  unfolding check_size
  check_size-IsCopied checksum replaced n t e h =
      rw (e, ==_refl (length c))
        (bind-Done (λ tier u. (tier ≡ tier_of checksum) × Full temp u)
          (Done (IsCopied (tier_of checksum) replaced)) _ _ t (verified-Done checksum t h)
          (λ tier u (own, k). rw own (commit-IsCopied (tier_of checksum) replaced u k)))

  resume_offset-none :
      (checksum : Bool) (t : World)
      → t.files entry ≡ none
      → Post
          (Done (λ from u. (from ≡ 0) × (u.files ≡ t.files)))
          (resume_offset host journal dst temp (length c) checksum)
          t
  unfolding resume_offset get read_file open_read attempt pure ◌>>=◌
  resume_offset-none checksum t absent =
      let r = resume_offset host journal dst temp (length c) checksum t in
      Done-ok (λ from u. (from ≡ 0) × (u.files ≡ t.files)) 0 r.0 r.1
        (ground (arith, works.0 t.clock, absent)) (refl, ground (arith, works.0 t.clock, absent))

  pub copy_by_stream-IsCopied :
      (checksum replaced : Bool) (t : World)
      → Okay t
      → t.files entry ≡ none
      → Post
          (Done (IsCopied (tier_of checksum) replaced))
          (copy_by_stream host journal src dst (length c) replaced checksum)
          t
  unfolding copy_by_stream
  copy_by_stream-IsCopied checksum replaced t r absent =
      bind-Done (λ from u. (from ≡ 0) × (u.files ≡ t.files))
        (Done (IsCopied (tier_of checksum) replaced)) _ _ t (resume_offset-none checksum t absent)
        (λ from u (zero_from, same). rw zero_from (
          lift-Done (λ _ v. Okay v) (Done (IsCopied (tier_of checksum) replaced)) _ io _ u
            (record_entry-Ready host works journal src dst c d apart _ u refl (rw same r))
            (λ _ v r'.
              attempt-Done (λ n n'. (n ≡ length c) × Full temp n')
                (Done (IsCopied (tier_of checksum) replaced)) _ _ v
                (stream-Holding host works journal src dst c d apart whole (length c) v bounded r')
                (λ n v' (count, full). check_size-IsCopied checksum replaced n v' count full))))
