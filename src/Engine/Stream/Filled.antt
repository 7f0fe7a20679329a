-- ===== src/Engine/Stream/Filled.antt =====
-- What `stream` makes of the temporary file: what was there to go on from, and all that was read.
use omafile.Prelude.{
  ℕ, zero, suc, ◌+◌, ◌^◌, ◌<◌, Bytes, List, [], ◌++◌, Exec, pure, lift_err, ◌>>=◌, ◌>>◌, Bool, true,
  false, Option, none, some, length, ==_refl, list_eq, nat_eq, Result, ok, err, ◌≡◌, ◌≢◌, ◌⊎◌, inl,
  inr, refl, ap, ◌∙◌, arith,
}
use mathlib.Core.Path.{subst₂}
use omafile.Prelude.Action.Post.{Post, Keeps, keeps_rules, bind-Post, pure-Post, lift-bind-Post}
use omafile.Paths.{FilePath}
use omafile.Error.{IoError, TransferError, io}
use omafile.Host.Machine.{Node, file, dir, socket, Read, payload, World, Host}
use omafile.Host.Calls.{sync_all, create, open_write, seek, read_tape, node_len, tape}
use omafile.Host.Keeps.{node_at, open_read-Keeps, open_write-Keeps, create-Keeps, seek-Keeps}
use omafile.Engine.Stream.{u64_mod, copy_chunks, open_temp, stream}
use omafile.Engine.Stream.Written.{Filled, copy_chunks-Filled}

-- No open file delivers 2 ^ 63 bytes: an offset in a file is a signed 64-bit number.
abbrev pub IsBounded : Host → Type 0
IsBounded host = (t : ℕ) (content : Bytes) → length (payload (host.reads t content)) < 2 ^ 63

module _ (host : Host) (temp : FilePath) where
  -- There is something of this length at the temporary path, or there is nothing to go on from.
  abbrev pub CanResume : ℕ → World → Type 0
  CanResume from w =
      (from ≡ 0) ⊎ ((n : Node) × (node_at temp w ≡ some n) × (node_len host n ≡ from))

  abbrev pub HoldsFrom : ℕ → Result IoError (Unit {0}) → World → Type 0
  HoldsFrom from (ok _) w =
      (c : Bytes) × (d : Bool) × (node_at temp w ≡ some (file c d)) × (length c ≡ from)
  HoldsFrom from (err _) w = Unit {0}

  abbrev Holds : Bytes → Bool → Result IoError (Unit {0}) → World → Type 0
  Holds c d (ok _) w = node_at temp w ≡ some (file c d)
  Holds c d (err _) w = Unit {0}

  HoldsFrom-Holds :
      (c : Bytes) (d : Bool) (from : ℕ)
      → length c ≡ from
      → (r : Result IoError (Unit {0})) (w : World) → Holds c d r w
      → HoldsFrom from r w
  HoldsFrom-Holds c d from e (ok _) w h = (c, d, h, e)
  HoldsFrom-Holds c d from e (err _) w h = tt

  create-Holds : (w : World) → Post (Holds [] false) (create host temp) w
  unfolding create
  create-Holds w = ground (arith, ==_refl temp)

  opened_file :
      (c : Bytes) (d : Bool) (w : World)
      → node_at temp w ≡ some (file c d)
      → Post (Holds c d) (open_write host temp) w
  unfolding open_write
  opened_file c d w e = ground arith

  opened_other :
      (n : Node) (w : World) (from : ℕ)
      → node_at temp w ≡ some n
      → node_len host n ≡ from
      → Post (HoldsFrom from) (open_write host temp) w
  unfolding node_len open_write
  opened_other (file c d) w from e h = HoldsFrom-Holds c d from h _ _ (opened_file c d w e)
  opened_other n w from e h = ground arith

  seek-HoldsFrom :
      (from : ℕ) (w : World) → HoldsFrom from (ok tt) w → Post (HoldsFrom from) (seek host) w
  unfolding seek pure
  seek-HoldsFrom from w (c, d, h, e) = HoldsFrom-Holds c d from e _ _ (ground arith)

  open_temp-HoldsFrom :
      (from : ℕ) (w : World) → CanResume from w → Post (HoldsFrom from) (open_temp host temp from) w
  unfolding open_temp
  open_temp-HoldsFrom zero w h = HoldsFrom-Holds [] false 0 refl _ _ (create-Holds w)
  open_temp-HoldsFrom (suc from) w (inl e) = absurd (omega arith)
  open_temp-HoldsFrom (suc from) w (inr (n, e, h)) =
      bind-Post (HoldsFrom (suc from)) (HoldsFrom (suc from)) _ _ w
        (opened_other n w (suc from) e h)
        (λ _ t there.
          bind-Post (HoldsFrom (suc from)) (HoldsFrom (suc from)) _ _ t
            (seek-HoldsFrom (suc from) t there) (λ _ u still. seek-HoldsFrom (suc from) u still)
            (λ _ _ _. tt))
        (λ _ _ _. tt)

  -- On success the temporary file holds what it held up to `from`, then all that the reads of the
  -- source returned; it has been flushed, and the count is its length.
  abbrev pub Streamed : ℕ → Option Node → Result TransferError ℕ → World → Type 0
  Streamed from source (ok n) w =
      (old : Bytes) × (t : ℕ) × (length old ≡ from)
      × (node_at temp w ≡ some (file (old ++ payload (tape host t from source)) true))
      × (n ≡ length (old ++ payload (tape host t from source)))
  Streamed from source (err _) w = Unit {0}

  sync_all-flushed :
      (c : Bytes) (d : Bool) (w : World)
      → node_at temp w ≡ some (file c d)
      → Post (Holds c true) (sync_all host temp) w
  unfolding sync_all
  sync_all-flushed c d w e = ground (arith, ==_refl temp)

-- The part of `stream` that follows the reads.
module _ (host : Host) (src temp : FilePath) (expected from : ℕ) (source : Option Node) where
  bounded_tape : IsBounded host → (t : ℕ) → length (payload (tape host t from source)) < 2 ^ 63
  bounded_tape h t = elim source as (λ s. length (payload (tape host t from s)) < 2 ^ 63) [
    | some (file content durable) ↦ h t _
    | some dir ↦ omega arith
    | some socket ↦ omega arith
    | none ↦ omega arith
  ]

  -- What `stream` does once it has the results of the reads.
  abbrev rest_of_stream : ℕ → List Read → Exec World TransferError ℕ
  rest_of_stream at reads = do
    total ← copy_chunks host temp expected reads at
    lift_err io (sync_all host temp)
    pure total

  finish_stream :
      (t : ℕ) (old : Bytes) (d : Bool) (w : World)
      → length old ≡ from
      → node_at temp w ≡ some (file old d)
      → length old + length (payload (tape host t from source)) < u64_mod
      → Post
          (Streamed host temp from source)
          (rest_of_stream (length old) (tape host t from source))
          w
  finish_stream t old d w e there small =
      bind-Post (Filled host temp (old ++ payload (tape host t from source)))
        (Streamed host temp from source) _ _ w
        (copy_chunks-Filled host temp expected (tape host t from source) old d w there small)
        (λ n u (d', full, count).
          lift-bind-Post (Holds host temp (old ++ payload (tape host t from source)) true)
            (Streamed host temp from source) _ io _ u (sync_all-flushed host temp _ d' u full)
            (λ _ v done. pure-Post (Streamed host temp from source) n v (old, t, e, done, count))
            (λ _ _ _. tt))
        (λ _ _ _. tt)

  module _ (apart : src ≢ temp) (bounded : IsBounded host) (small : from < 2 ^ 63) where
    read_and_finish :
        (w : World)
        → HoldsFrom host temp from (ok tt) w
        → node_at src w ≡ source
        → Post
            (Streamed host temp from source)
            (do reads ← read_tape host src from; rest_of_stream from reads)
            w
    read_and_finish w (old, d, there, e) same =
        bind-Post
          (λ r u. (r ≡ ok (tape host w.clock from source)) × (node_at temp u ≡ node_at temp w))
          (Streamed host temp from source) _ _ w
          (unfold read_tape in (ap (λ s. ok (tape host w.clock from s)) same, refl))
          (λ reads u (got, kept).
            subst₂ (λ k rs. Post (Streamed host temp from source) (rest_of_stream k rs) u) e (cc)
              (finish_stream w.clock old d u e (kept ∙ there)
                (omega (arith, bounded_tape bounded w.clock))))
          (λ _ _ _. tt)

    open_temp-Keeps : Keeps (node_at src) (open_temp host temp from)
    unfolding open_temp
    open_temp-Keeps = elim from as (λ k. Keeps (node_at src) (open_temp host temp k)) [
      | zero ↦ create-Keeps host src temp apart
      | suc k ↦ search (keeps_rules, open_write-Keeps, seek-Keeps)
    ]

    pub stream-Streamed :
        (w : World)
        → CanResume host temp from w
        → node_at src w ≡ source
        → Post (Streamed host temp from source) (stream host src temp from expected) w
    unfolding stream
    stream-Streamed w resumable same =
        lift-bind-Post (λ r t. (node_at src t ≡ node_at src w) × (node_at temp t ≡ node_at temp w))
          (Streamed host temp from source) _ io _ w
          ((open_read-Keeps host src src).at w, (open_read-Keeps host temp src).at w)
          (λ _ t (src_kept, temp_kept).
            lift-bind-Post (λ r u. HoldsFrom host temp from r u × (node_at src u ≡ node_at src t))
              (Streamed host temp from source) _ io _ t
              (
                open_temp-HoldsFrom host temp from t (CanResume_same t temp_kept),
                open_temp-Keeps.at t,
              )
              (λ _ u (holds, kept). read_and_finish u holds (kept ∙ src_kept ∙ same)) (λ _ _ _. tt))
          (λ _ _ _. tt)
      where
        CanResume_same : (t : World) → node_at temp t ≡ node_at temp w → CanResume host temp from t
        CanResume_same t kept = elim resumable [
          | inl z ↦ inl z
          | inr (n, there, len) ↦ inr (n, kept ∙ there, len)
        ]
