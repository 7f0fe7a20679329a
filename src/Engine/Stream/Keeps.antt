-- ===== src/Engine/Stream/Keeps.antt =====
-- What resuming and streaming leave alone: every path but the temporary one.
use omafile.Prelude.{
  ℕ, zero, suc, ◌<◌, List, [], ◌∷◌, Bool, Option, none, some, ltb, ◌&&◌, ◌==◌, nat_eq, list_eq,
  Result, ok, err, ◌≡◌, ◌≢◌, ◌⊎◌, inl, inr, refl, arith, Bool-cases,
}
use omafile.Prelude.Action.Post.{Post, Keeps, keeps_rules, bind-Post, attempt-bind-Post, pure-Post}
use omafile.Paths.{FilePath}
use omafile.Error.{IoError, TransferError}
use omafile.Host.Machine.{Node, Read, chunk, failed, World, Host, Entry}
use omafile.Host.Calls.{stat, node_len}
use omafile.Host.Keeps.{
  node_at, stat-Keeps, open_read-Keeps, open_write-Keeps, create-Keeps, seek-Keeps, read_tape-Keeps,
  write_all-Keeps, sync_all-Keeps, report-Keeps,
}
use omafile.Journal.{Journal}
use omafile.Journal.Keeps.{get-Keeps}
use omafile.Engine.Stream.{
  usable, agrees, offset_from, resume_offset, copy_chunks, open_temp, stream,
}
use omafile.Engine.Stream.Filled.{CanResume}

module _ (host : Host) (q temp : FilePath) (apart : q ≢ temp) where
  copy_chunks-Keeps :
      (expected : ℕ) (reads : List Read) (total : ℕ)
      → Keeps (node_at q) (copy_chunks host temp expected reads total)
  unfolding copy_chunks
  copy_chunks-Keeps expected [] total = search keeps_rules
  copy_chunks-Keeps expected (failed e ∷ rest) total = search keeps_rules
  copy_chunks-Keeps expected (chunk [] ∷ rest) total = search keeps_rules
  copy_chunks-Keeps expected (chunk (b ∷ bs) ∷ rest) total =
      let more = copy_chunks-Keeps expected rest in
      search (keeps_rules, write_all-Keeps, report-Keeps, more)

  open_temp-Keeps : (from : ℕ) → Keeps (node_at q) (open_temp host temp from)
  unfolding open_temp
  open_temp-Keeps zero = create-Keeps host q temp apart
  open_temp-Keeps (suc from) = search (keeps_rules, open_write-Keeps, seek-Keeps)

  pub stream-Keeps :
      (src : FilePath) (from expected : ℕ) → Keeps (node_at q) (stream host src temp from expected)
  unfolding stream
  stream-Keeps src from expected =
      search
        (
          keeps_rules, open_read-Keeps, open_temp-Keeps, read_tape-Keeps, copy_chunks-Keeps,
          sync_all-Keeps,
        )
        depth 8

module _ (host : Host) (journal : Journal) (q dst temp : FilePath) (expected : ℕ)
    (checksum : Bool) where
  offset_from-Keeps :
      (o : Option Entry) → Keeps (node_at q) (offset_from host temp expected checksum o)
  offset_from-Keeps none = search keeps_rules
  offset_from-Keeps (some e) = search (keeps_rules, stat-Keeps)

  pub resume_offset-Keeps :
      Keeps (node_at q) (resume_offset host journal dst temp expected checksum)
  unfolding resume_offset
  resume_offset-Keeps = search (keeps_rules, get-Keeps, offset_from-Keeps)

-- An offset to resume from is the length of what lies at the temporary path, and is less than what
-- is expected.
module _ (host : Host) (journal : Journal) (dst temp : FilePath) (expected : ℕ)
    (checksum : Bool) where
  abbrev pub Offered : Result TransferError ℕ → World → Type 0
  Offered (ok from) w = CanResume host temp from w × ((from ≡ 0) ⊎ (from < expected))
  Offered (err _) w = Unit {0}

  pub stat_found :
      (w : World) → Post (λ r t. (n : Node) → r ≡ ok n → node_at temp t ≡ some n) (stat host temp) w
  unfolding stat
  stat_found w n e = ground arith

  Offered-usable :
      (r : Result IoError Node) (e : Entry) (w : World)
      → ((n : Node) → r ≡ ok n → node_at temp w ≡ some n)
      → Offered (ok (usable host r e expected)) w
  Offered-usable (err x) e w there = (inl refl, inl refl)
  Offered-usable (ok n) e w there =
      elim (Bool-cases (node_len host n == e.bytes_done && ltb (node_len host n) expected)) [
        | inl yes_it ↦ rw yes_it (inr (n, there n refl, refl), inr (ground arith))
        | inr no_it ↦ rw no_it (inl refl, inl refl)
      ]

  Offered-offset :
      (o : Option Entry) (w : World) → Post Offered (offset_from host temp expected checksum o) w
  Offered-offset none w = pure-Post Offered 0 w (inl refl, inl refl)
  Offered-offset (some e) w = elim (Bool-cases (agrees e temp expected checksum)) [
    | inl fits ↦ rw fits (
        attempt-bind-Post (λ r t. (n : Node) → r ≡ ok n → node_at temp t ≡ some n) Offered _ _ w
          (stat_found w) (λ r t there. pure-Post Offered _ t (Offered-usable r e t there)))
    | inr differs ↦ rw differs (pure-Post Offered 0 w (inl refl, inl refl))
  ]

  pub resume_offset-Offered :
      (w : World) → Post Offered (resume_offset host journal dst temp expected checksum) w
  unfolding resume_offset
  resume_offset-Offered w =
      bind-Post (λ _ _. Unit {0}) Offered _ _ w tt (λ o t _. Offered-offset o t) (λ _ _ _. tt)
