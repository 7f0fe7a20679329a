-- ===== src/Engine/Verify/Keeps.antt =====
-- Verification reads, and changes no file unless it fails; then it removes the temporary one and
-- the record.
use omafile.Prelude.{
  ℕ, zero, suc, Bytes, List, [], ◌∷◌, Bool, true, false, ◌==◌, nat_eq, list_eq, Result, ok, err,
  pure, ◌≡◌, ◌≢◌, ◌∙◌,
}
use omafile.Prelude.Action.Post.{
  Post, Keeps, Keeps-bind, Keeps-if, Keeps-pure, keeps_rules, bind-Post, attempt-bind-Post,
  pure-Post, discard-bind-Post, raise-Post,
}
use omafile.Paths.{FilePath}
use omafile.Error.{TransferError, checksum_mismatch}
use omafile.Host.Machine.{Read, chunk, failed, World, Host}
use omafile.Host.Keeps.{
  node_at, stat-Keeps, open_read-Keeps, read_tape-Keeps, report-Keeps, remove_file-Keeps,
}
use omafile.Journal.{Journal}
use omafile.Journal.Keeps.{IsAside, clear-Keeps}
use omafile.Engine.Verify.{
  hash_chunks, hash_file_reporting, attempts, judge, verify_with_retry_reporting, len_or_zero,
}

module _ (host : Host) (q : FilePath) where
  hash_chunks-Keeps :
      (total offset : ℕ) (reads : List Read) (done : ℕ) (seen : Bytes)
      → Keeps (node_at q) (hash_chunks host total offset reads done seen)
  unfolding hash_chunks
  hash_chunks-Keeps total offset [] done seen = search keeps_rules
  hash_chunks-Keeps total offset (failed e ∷ rest) done seen = search keeps_rules
  hash_chunks-Keeps total offset (chunk [] ∷ rest) done seen = search keeps_rules
  hash_chunks-Keeps total offset (chunk (b ∷ bs) ∷ rest) done seen =
      let more = hash_chunks-Keeps total offset rest in search (keeps_rules, report-Keeps, more)

  pub hash_file-Keeps :
      (p : FilePath) (total offset : ℕ)
      → Keeps (node_at q) (hash_file_reporting host p total offset)
  unfolding hash_file_reporting
  hash_file-Keeps p total offset =
      search (keeps_rules, open_read-Keeps, read_tape-Keeps, hash_chunks-Keeps)

  pub attempts-Keeps :
      (src temp : FilePath) (size left : ℕ) → Keeps (node_at q) (attempts host src temp size left)
  unfolding attempts
  attempts-Keeps src temp size zero = search keeps_rules
  attempts-Keeps src temp size (suc left) = Keeps-bind _ _ (hash_file-Keeps src _ _) λ want.
      Keeps-bind _ _ (hash_file-Keeps temp _ _) λ got.
        Keeps-if (want == got) (pure true) (attempts host src temp size left) (Keeps-pure true)
          (attempts-Keeps src temp size left)

module _ (host : Host) (journal : Journal) (q temp dst : FilePath) where
  judge-Keeps :
      q ≢ temp
      → IsAside host journal q dst
      → (agree : Bool) → Keeps (node_at q) (judge host journal temp dst agree)
  unfolding judge
  judge-Keeps apart aside true = search keeps_rules
  judge-Keeps apart aside false = search (keeps_rules, remove_file-Keeps, apart, clear-Keeps, aside)

  pub verify-Keeps :
      q ≢ temp
      → IsAside host journal q dst
      → (src : FilePath) → Keeps (node_at q) (verify_with_retry_reporting host journal src temp dst)
  unfolding verify_with_retry_reporting
  verify-Keeps apart aside src =
      search (keeps_rules, stat-Keeps, attempts-Keeps, judge-Keeps, apart, aside)

-- A verification that passes leaves every file, the temporary one too.
module _ (host : Host) (journal : Journal) (q src temp dst : FilePath) (w : World) where
  abbrev pub Intact : Result TransferError (Unit {0}) → World → Type 0
  Intact (ok _) t = node_at q t ≡ node_at q w
  Intact (err _) t = Unit {0}

  Intact-judge :
      (agree : Bool) (t : World)
      → node_at q t ≡ node_at q w
      → Post Intact (judge host journal temp dst agree) t
  unfolding judge
  Intact-judge true t kept = pure-Post Intact tt t kept
  Intact-judge false t kept =
      discard-bind-Post (λ _. Unit {0}) Intact _ _ t tt
        λ u _.
          discard-bind-Post (λ _. Unit {0}) Intact _ _ u tt
            λ v _. raise-Post Intact (checksum_mismatch dst) v tt

  pub verify-Intact : Post Intact (verify_with_retry_reporting host journal src temp dst) w
  unfolding verify_with_retry_reporting
  verify-Intact =
      attempt-bind-Post (λ _ t. node_at q t ≡ node_at q w) Intact _ _ w
        ((stat-Keeps host q temp).at w)
        λ r t kept.
          bind-Post (λ _ u. node_at q u ≡ node_at q t) Intact _ _ t
            ((attempts-Keeps host q src temp (len_or_zero host r) 2).at t)
            (λ agree u same. Intact-judge agree u (same ∙ kept)) (λ _ _ _. tt)
