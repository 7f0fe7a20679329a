-- ===== src/Engine/Verify/Passes.antt =====
-- Verification passes, without a second attempt, where the copy is the source and no call fails.
use mathlib.Core.List.{append-nil, append_assoc}
use omafile.Prelude.{
  ℕ, suc, Bytes, List, [], ◌∷◌, ◌++◌, Bool, true, none, some, ==_refl, list_eq, nat_eq, length, ltb,
  ◌≡◌, refl, ap, ◌∙◌, if◌then◌else◌, Bool-cases, inl, inr, pure,
}
use omafile.Prelude.Action.Post.{Post, pure-Post, attempt-bind-Post}
use omafile.Prelude.Action.Done.{Done, bind-Done, lift-Done, Done-map}
use omafile.Paths.{FilePath}
use omafile.Error.{IoError, TransferError, io}
use omafile.Host.Machine.{file, Read, chunk, failed, payload, read_error, verifying, World, Host}
use omafile.Host.Calls.{open_read, report}
use omafile.Host.Works.{NoFaults, ReadsWhole, open_read-Done, read_tape-Done, stat_same}
use omafile.Journal.{Journal}
use omafile.Engine.Stream.{add64}
use omafile.Engine.Verify.{
  hash_chunks, hash_file_reporting, attempts, judge, verify_with_retry_reporting, len_or_zero,
  saturating_mul,
}

failed_some : (e : IoError) → read_error (failed e ∷ []) ≡ none → ⊥
failed_some e h = cc

module _ (host : Host) where
  abbrev Same : {A : Type 0} → World → A → World → Type 0
  Same t a u = u.files ≡ t.files

  -- The digest of this content, and no file changed.
  abbrev Hashes : Bytes → World → Bytes → World → Type 0
  Hashes x t h u = (h ≡ host.sha256 x) × Same t h u

  abbrev Agrees : World → Bool → World → Type 0
  Agrees t agreed u = (agreed ≡ true) × Same t agreed u

  reported_or_not :
      (total done : ℕ) (t : World)
      → Post {E = TransferError}
          (Done (Same t))
          (if ltb 0 total then report verifying done total else pure tt)
          t
  unfolding report pure
  reported_or_not total done t = elim (Bool-cases (ltb 0 total)) [
    | inl e ↦ rw e refl
    | inr e ↦ rw e refl
  ]

  hash_chunks-Done :
      (total offset : ℕ) (reads : List Read) (done : ℕ) (seen : Bytes) (t : World)
      → read_error reads ≡ none
      → Post
          (Done (Hashes (seen ++ payload reads) t))
          (hash_chunks host total offset reads done seen)
          t
  unfolding hash_chunks
  hash_chunks-Done total offset [] done seen t none_failed =
      pure-Post (Done (Hashes (seen ++ []) t)) _ t (rw append-nil refl, refl)
  hash_chunks-Done total offset (failed e ∷ rs) done seen t none_failed =
      absurd (failed_some e none_failed)
  hash_chunks-Done total offset (chunk [] ∷ rs) done seen t none_failed =
      pure-Post (Done (Hashes (seen ++ []) t)) _ t (rw append-nil refl, refl)
  hash_chunks-Done total offset (chunk (b ∷ bs) ∷ rs) done seen t none_failed =
      bind-Done (Same t) (Done (Hashes (seen ++ (b ∷ bs ++ payload rs)) t)) _ _ t
        (reported_or_not total (add64 offset (add64 done (length (b ∷ bs)))) t)
        (λ _ u same.
          Done-map (Hashes ((seen ++ (b ∷ bs)) ++ payload rs) u)
            (Hashes (seen ++ (b ∷ bs ++ payload rs)) t)
            (hash_chunks host total offset rs (add64 done (length (b ∷ bs))) (seen ++ (b ∷ bs))) u
            (hash_chunks-Done total offset rs (add64 done (length (b ∷ bs))) (seen ++ (b ∷ bs)) u
              none_failed)
            (λ h v k. (k.0 ∙ ap host.sha256 (append_assoc seen (b ∷ bs) (payload rs)), k.1 ∙ same)))

  module _ (works : NoFaults host) (c : Bytes) (whole : ReadsWhole host c) where
    hash_file-Done :
        (p : FilePath) (b : Bool) (total offset : ℕ) (t : World)
        → t.files p ≡ some (file c b)
        → Post (Done (Hashes c t)) (hash_file_reporting host p total offset) t
    unfolding hash_file_reporting
    hash_file-Done p b total offset t there =
        lift-Done (Same t) (Done (Hashes c t)) _ io _ t
          (Done-map _ _ (open_read host p) t (open_read-Done host works p (file c b) t there)
            (λ _ u k. k.1))
          (λ _ u same.
            bind-Done (λ reads v. (reads ≡ host.reads u.clock c) × (v.files ≡ u.files))
              (Done (Hashes c t)) _ _ u
              (read_tape-Done host works TransferError p c b u (ap (λ files. files p) same ∙ there))
              (λ reads v k.
                Done-map (Hashes (payload reads) v) (Hashes c t)
                  (hash_chunks host total offset reads 0 []) v
                  (hash_chunks-Done total offset reads 0 [] v
                    (ap read_error (k.0) ∙ (whole u.clock).0))
                  (λ h n l. (
                    l.0 ∙ ap host.sha256 (ap payload (k.0) ∙ (whole u.clock).1),
                    l.1 ∙ k.1 ∙ same,
                  ))))

    attempts-Done :
        (src temp : FilePath) (d b : Bool) (size left : ℕ) (t : World)
        → t.files src ≡ some (file c d)
        → t.files temp ≡ some (file c b)
        → Post (Done (Agrees t)) (attempts host src temp size (suc left)) t
    unfolding attempts
    attempts-Done src temp d b size left t source copy =
        bind-Done (Hashes c t) (Done (Agrees t)) _ _ t
          (hash_file-Done src d (saturating_mul size 2) 0 t source)
          (λ want u k.
            bind-Done (Hashes c u) (Done (Agrees t)) _ _ u
              (hash_file-Done temp b (saturating_mul size 2) size u
                (ap (λ files. files temp) (k.1) ∙ copy))
              (λ got v l.
                rw (k.0, l.0, ==_refl (host.sha256 c))
                  (pure-Post (Done (Agrees t)) true v (refl, l.1 ∙ k.1))))

    judge-true :
        (journal : Journal) (temp dst : FilePath) (agreed : Bool) (t : World)
        → agreed ≡ true
        → Post (Done (Same t)) (judge host journal temp dst agreed) t
    unfolding judge
    judge-true journal temp dst agreed t e = rw e (pure-Post (Done (Same t)) tt t refl)

    pub verify-Done :
        (journal : Journal) (src temp dst : FilePath) (d b : Bool) (t : World)
        → t.files src ≡ some (file c d)
        → t.files temp ≡ some (file c b)
        → Post (Done (Same t)) (verify_with_retry_reporting host journal src temp dst) t
    unfolding verify_with_retry_reporting
    verify-Done journal src temp dst d b t source copy =
        attempt-bind-Post (λ _ u. u.files ≡ t.files) (Done (Same t)) _ _ t
          (stat_same host works temp t)
          (λ r u same.
            bind-Done (Agrees u) (Done (Same t)) _ _ u
              (attempts-Done src temp d b (len_or_zero host r) 1 u
                (ap (λ files. files src) same ∙ source) (ap (λ files. files temp) same ∙ copy))
              (λ agreed v k.
                Done-map (Same v) (Same t) (judge host journal temp dst agreed) v
                  (judge-true journal temp dst agreed v (k.0)) (λ _ n l. l ∙ k.1 ∙ same)))
