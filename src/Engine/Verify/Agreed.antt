-- ===== src/Engine/Verify/Agreed.antt =====
-- What a verification that passes has established: two digests, of what was read of the source and
-- of what was read back, are equal.
use mathlib.Core.List.{append-nil, append_assoc}
use omafile.Prelude.{
  ℕ, zero, suc, Bytes, List, [], ◌∷◌, ◌++◌, Bool, true, false, Option, none, ◌==◌, ==_iff, list_eq,
  nat_eq, Bool-cases, Result, ok, err, ◌≡◌, inl, inr, refl, ap, ◌∙◌,
}
use omafile.Prelude.Action.Post.{
  Post, bind-Post, pure-Post, raise-Post, lift-bind-Post, attempt-bind-Post, discard-bind-Post,
}
use omafile.Paths.{FilePath}
use omafile.Error.{TransferError, io, checksum_mismatch}
use omafile.Host.Machine.{Node, Read, chunk, failed, payload, read_error, World, Host}
use omafile.Host.Calls.{read_tape, tape}
use omafile.Host.Keeps.{node_at, stat-Keeps, open_read-Keeps}
use omafile.Journal.{Journal}
use omafile.Engine.Verify.{
  hash_chunks, hash_file_reporting, attempts, judge, verify_with_retry_reporting, len_or_zero,
}
use omafile.Engine.Verify.Keeps.{hash_file-Keeps}

module _ (host : Host) where
  -- A digest of what reading a node from its start returned, without an error.
  abbrev pub IsDigest : Option Node → Bytes → Type 0
  IsDigest n h =
      (t : ℕ) × ((read_error (tape host t 0 n) ≡ none)
        × (h ≡ host.sha256 (payload (tape host t 0 n))))

  -- One digest is a digest of both.
  abbrev pub Agreed : Option Node → Option Node → Type 0
  Agreed source copy = (h : Bytes) × (IsDigest source h × IsDigest copy h)

  abbrev Hashed : Bytes → List Read → Result TransferError Bytes → World → Type 0
  Hashed seen reads (ok h) w = (read_error reads ≡ none) × (h ≡ host.sha256 (seen ++ payload reads))
  Hashed seen reads (err _) w = Unit {0}

  hash_chunks-Hashed :
      (total offset : ℕ) (reads : List Read) (done : ℕ) (seen : Bytes) (w : World)
      → Post (Hashed seen reads) (hash_chunks host total offset reads done seen) w
  unfolding hash_chunks
  hash_chunks-Hashed total offset [] done seen w =
      pure-Post (Hashed seen []) _ w (refl, rw append-nil refl)
  hash_chunks-Hashed total offset (failed e ∷ rest) done seen w =
      raise-Post (Hashed seen (failed e ∷ rest)) (io e) w tt
  hash_chunks-Hashed total offset (chunk [] ∷ rest) done seen w =
      pure-Post (Hashed seen (chunk [] ∷ rest)) _ w (refl, rw append-nil refl)
  hash_chunks-Hashed total offset (chunk (b ∷ bs) ∷ rest) done seen w =
      bind-Post (λ _ _. Unit {0}) (Hashed seen (chunk (b ∷ bs) ∷ rest)) _ _ w tt
        (λ _ t _. more t _ (hash_chunks-Hashed total offset rest _ (seen ++ (b ∷ bs)) t))
        (λ _ _ _. tt)
    where
      more :
          (t : World) (m : Result TransferError Bytes × World)
          → Hashed (seen ++ (b ∷ bs)) rest m.0 m.1
          → Hashed seen (chunk (b ∷ bs) ∷ rest) m.0 m.1
      more t (ok h, u) (none_failed, digest) =
          (none_failed, digest ∙ ap host.sha256 (append_assoc seen (b ∷ bs) (payload rest)))
      more t (err _, u) _ = tt

  abbrev Digested : Option Node → Result TransferError Bytes → World → Type 0
  Digested n (ok h) w = IsDigest n h
  Digested n (err _) w = Unit {0}

  read_now :
      (p : FilePath) (n : Option Node) (w : World)
      → node_at p w ≡ n
      → Post {E = TransferError} (λ r u. r ≡ ok (tape host w.clock 0 n)) (read_tape host p 0) w
  unfolding read_tape
  read_now p n w e = ap (λ s. ok (tape host w.clock 0 s)) e

  Digested-Hashed :
      (n : Option Node) (t : ℕ) (reads : List Read)
      → reads ≡ tape host t 0 n
      → (r : Result TransferError Bytes) (w : World) → Hashed [] reads r w
      → Digested n r w
  Digested-Hashed n t reads e (ok h) w (none_failed, digest) =
      (t, (rw (← e) none_failed, rw (← e) digest))
  Digested-Hashed n t reads e (err _) w h = tt

  hash_file-Digested :
      (p : FilePath) (total offset : ℕ) (w : World) (n : Option Node)
      → node_at p w ≡ n
      → Post (Digested n) (hash_file_reporting host p total offset) w
  unfolding hash_file_reporting
  hash_file-Digested p total offset w n e =
      lift-bind-Post (λ _ t. node_at p t ≡ node_at p w) (Digested n) _ io _ w
        ((open_read-Keeps host p p).at w)
        (λ _ t kept.
          bind-Post (λ r u. r ≡ ok (tape host t.clock 0 n)) (Digested n) _ _ t
            (read_now p n t (kept ∙ e))
            (λ reads u got.
              Digested-Hashed n t.clock reads (cc) _ _
                (hash_chunks-Hashed total offset reads 0 [] u))
            (λ _ _ _. tt))
        (λ _ _ _. tt)

  abbrev Attempted : Option Node → Option Node → Result TransferError Bool → World → Type 0
  Attempted source copy (ok true) w = Agreed source copy
  Attempted source copy (ok false) w = Unit {0}
  Attempted source copy (err _) w = Unit {0}

  module _ (src temp : FilePath) (source copy : Option Node) where
    -- Both files as they were when verification began.
    abbrev Held : World → Type 0
    Held w = (node_at src w ≡ source) × (node_at temp w ≡ copy)

    hash-Held :
        (p : FilePath) (total offset : ℕ) (n : Option Node) (w : World)
        → Held w
        → node_at p w ≡ n
        → Post (λ r t. Held t × Digested n r t) (hash_file_reporting host p total offset) w
    hash-Held p total offset n w (a, b) e = (
      (
        (hash_file-Keeps host src p total offset).at w ∙ a,
        (hash_file-Keeps host temp p total offset).at w ∙ b,
      ),
      hash_file-Digested p total offset w n e,
    )

    attempts-Attempted :
        (size left : ℕ) (w : World)
        → Held w
        → Post (Attempted source copy) (attempts host src temp size left) w
    unfolding attempts
    attempts-Attempted size zero w held = pure-Post (Attempted source copy) false w tt
    attempts-Attempted size (suc left) w held =
        bind-Post (λ r t. Held t × Digested source r t) (Attempted source copy) _ _ w
          (hash-Held src _ _ source w held held.0)
          (λ want t (held', wanted).
            bind-Post (λ r u. Held u × Digested copy r u) (Attempted source copy) _ _ t
              (hash-Held temp _ _ copy t held' held'.1)
              (λ got u (held'', given). elim (Bool-cases (want == got)) [
                | inl e ↦
                    let same : want ≡ got = (==_iff want got).0 e in
                    rw e (pure-Post (Attempted source copy) true u (want, (wanted, rw same given)))
                | inr e ↦ rw e (attempts-Attempted size left u held'')
              ])
              (λ _ _ _. tt))
          (λ _ _ _. tt)

    abbrev pub Verified : Result TransferError (Unit {0}) → World → Type 0
    Verified (ok _) w = Agreed source copy
    Verified (err _) w = Unit {0}

    judge-Verified :
        (journal : Journal) (dst : FilePath) (agreed : Bool) (w : World)
        → Attempted source copy (ok agreed) w
        → Post Verified (judge host journal temp dst agreed) w
    unfolding judge
    judge-Verified journal dst true w h = pure-Post Verified tt w h
    judge-Verified journal dst false w h =
        discard-bind-Post (λ _. Unit {0}) Verified _ _ w tt
          (λ t _.
            discard-bind-Post (λ _. Unit {0}) Verified _ _ t tt
              (λ u _. raise-Post Verified (checksum_mismatch dst) u tt))

    pub verify-Verified :
        (journal : Journal) (dst : FilePath) (w : World)
        → Held w
        → Post Verified (verify_with_retry_reporting host journal src temp dst) w
    unfolding verify_with_retry_reporting
    verify-Verified journal dst w (a, b) =
        attempt-bind-Post (λ _ t. Held t) Verified _ _ w
          ((stat-Keeps host src temp).at w ∙ a, (stat-Keeps host temp temp).at w ∙ b)
          (λ r t held.
            bind-Post (Attempted source copy) Verified _ _ t
              (attempts-Attempted (len_or_zero host r) 2 t held)
              (λ agreed u h. judge-Verified journal dst agreed u h) (λ _ _ _. tt))
