-- ===== src/Engine/Stream/Restarts.antt =====
-- A copy that was interrupted is not gone on with.
use mathlib.Core.Path.{subst}
use omafile.Prelude.{
  ℕ, Bytes, List, Bool, true, Option, none, some, Option-cases, Bool-cases, Result, ok, err, pure,
  nat_eq, list_eq, ◌≡◌, ◌⊎◌, inl, inr, refl, sym, ap, ◌∙◌, arith,
}
use omafile.Prelude.Action.Post.{Post, bind-Post, pure-Post, attempt-bind-Post}
use omafile.Paths.{FilePath}
use omafile.Error.{IoError, TransferError}
use omafile.Host.Machine.{Node, file, Read, read_error, payload, World, Host, Entry}
use omafile.Host.Calls.{stat, read_file, all_read, settle, tape}
use omafile.Host.Keeps.{node_at, open_read-Keeps}
use omafile.Host.Reads.{IsHonest}
use omafile.Journal.{Journal, path_for, record_entry, get, decoded}
use omafile.Journal.Recorded.{IsRecorded, record_entry-IsRecorded, read_tape-found}
use omafile.Engine.Stream.{agrees, usable, offset_from, resume_offset}

module _ (host : Host) where
  -- A file that is read is read as it is.
  abbrev Reads : Bytes → Result IoError Bytes → World → Type 0
  Reads c (ok x) w = x ≡ c
  Reads c (err e) w = Unit {0}

  all_read-Reads :
      (honest : IsHonest host) (k : ℕ) (c : Bytes) (w : World)
      → Reads c (all_read host (host.reads k c)) w
  all_read-Reads honest k c w = elim (Option-cases (read_error (host.reads k c))) [
    | inl e ↦
        let read : all_read host (host.reads k c) ≡ ok (payload (host.reads k c)) =
          ground (arith, e) in
        subst (λ r. Reads c r w) (sym read) (honest k c e)
    | inr (x, e) ↦
        let failed : all_read host (host.reads k c) ≡ err x = ground (arith, e) in
        subst (λ r. Reads c r w) (sym failed) tt
  ]

  module _ (journal : Journal) (e : Entry) where
    read_file-Reads :
        (honest : IsHonest host) (c : Bytes) (d : Bool) (w : World)
        → node_at (path_for host journal e.destination) w ≡ some (file c d)
        → Post (Reads c) (read_file host (path_for host journal e.destination)) w
    unfolding read_file
    read_file-Reads honest c d w there =
        bind-Post (λ _ u. node_at entry u ≡ node_at entry w) (Reads c) _ _ w
          ((open_read-Keeps host entry entry).at w)
          (λ _ u kept.
            bind-Post (λ r _. r ≡ ok (tape host u.clock 0 (some (file c d)))) (Reads c) _ _ u
              (read_tape-found host journal e (some (file c d)) u (kept ∙ there))
              (λ reads v got. read_now reads v u.clock (cc)) (λ _ _ _. tt))
          (λ _ _ _. tt)
      where
        entry : FilePath
        entry = path_for host journal e.destination

        read_now :
            (reads : List Read) (v : World) (k : ℕ)
            → reads ≡ host.reads k c
            → Post (Reads c) (settle host (all_read host reads)) v
        read_now reads v k got = rw got (all_read-Reads honest k c v)

    -- What is got is the entry, or nothing.
    abbrev IsGot : Result TransferError (Option Entry) → World → Type 0
    IsGot r w = (r ≡ ok none) ⊎ (r ≡ ok (some e))

    get-IsGot :
        (honest : IsHonest host) (d : Bool) (w : World)
        → host.from_slice (host.to_vec_pretty e) ≡ some e
        → node_at (path_for host journal e.destination) w ≡ some (file (host.to_vec_pretty e) d)
        → Post IsGot (get host journal e.destination) w
    unfolding get
    get-IsGot honest d w decodes there =
        attempt-bind-Post (Reads (host.to_vec_pretty e)) IsGot
          (read_file host (path_for host journal e.destination)) _ w
          (read_file-Reads honest (host.to_vec_pretty e) d w there) (λ r u got. decode r u got)
      where
        decode :
            (r : Result IoError Bytes) (u : World)
            → Reads (host.to_vec_pretty e) r u
            → Post IsGot (pure (decoded host journal r)) u
        decode (ok x) u same = pure-Post IsGot _ u (inr (rw same (ap ok decodes)))
        decode (err x) u same = pure-Post IsGot _ u (inl refl)

    usable-zero :
        (r : Result IoError Node) (expected : ℕ) → e.bytes_done ≡ 0 → usable host r e expected ≡ 0
    usable-zero (ok n) expected fresh = ground (arith, fresh)
    usable-zero (err x) expected fresh = refl

    offset_from-zero :
        (temp : FilePath) (expected : ℕ) (checksum : Bool) (o : Option Entry) (w : World)
        → e.bytes_done ≡ 0
        → (o ≡ none) ⊎ (o ≡ some e)
        → Post (λ r _. r ≡ ok 0) (offset_from host temp expected checksum o) w
    offset_from-zero temp expected checksum o w fresh (inl absent) =
        rw absent (pure-Post (λ r _. r ≡ ok 0) 0 w refl)
    offset_from-zero temp expected checksum o w fresh (inr there) =
        rw there (elim (Bool-cases (agrees e temp expected checksum)) [
          | inl same ↦ rw same (
              attempt-bind-Post (λ _ _. Unit {0}) (λ r _. r ≡ ok 0) (stat host temp) _ w tt
                (λ r u _.
                  pure-Post (λ s _. s ≡ ok 0) (usable host r e expected) u
                    (ap ok (usable-zero r expected fresh))))
          | inr other ↦ rw other (pure-Post (λ r _. r ≡ ok 0) 0 w refl)
        ])

    recorded_there :
        (r : Result IoError (Unit {0})) (w u : World)
        → IsRecorded host journal e w r u
        → r ≡ ok tt
        → node_at (path_for host journal e.destination) u ≡ some (file (host.to_vec_pretty e) true)
    recorded_there (ok _) w u h same = h
    recorded_there (err x) w u h bad = absurd (cc)

    -- Once a copy that starts at the beginning has been recorded, as each one is, every attempt that
    -- finds its record starts at the beginning too, however much is at the temporary path by then,
    -- whatever fails meanwhile, and whatever is asked for. It holds where reads deliver, unless they
    -- fail, all that is left of the file, and the entry can be decoded.
    pub resume_offset_restarts :
        (w u : World)
        → IsHonest host
        → host.from_slice (host.to_vec_pretty e) ≡ some e
        → e.bytes_done ≡ 0
        → (record_entry host journal e w).0 ≡ ok tt
        → node_at (path_for host journal e.destination) u
          ≡ node_at (path_for host journal e.destination) (record_entry host journal e w).1
        → (temp : FilePath) (expected : ℕ) (checksum : Bool)
        → Post (λ r _. r ≡ ok 0) (resume_offset host journal e.destination temp expected checksum) u
    unfolding resume_offset
    resume_offset_restarts w u honest decodes fresh recorded kept temp expected checksum =
        bind-Post IsGot (λ r _. r ≡ ok 0) (get host journal e.destination) _ u
          (get-IsGot honest true u decodes (
            kept
            ∙ recorded_there _ w (record_entry host journal e w).1
                (record_entry-IsRecorded host journal e w) recorded))
          (λ o v got. offset_from-zero temp expected checksum o v fresh (of_got o got))
          (λ x v bad. not_got x bad)
      where
        of_got : (o : Option Entry) → IsGot (ok o) u → (o ≡ none) ⊎ (o ≡ some e)
        of_got o (inl absent) = inl (cc)
        of_got o (inr there) = inr (cc)

        not_got :
            (x : TransferError) → IsGot (err x) u → ◌≡◌ {A = Result TransferError ℕ} (err x) (ok 0)
        not_got x (inl bad) = absurd (cc)
        not_got x (inr bad) = absurd (cc)
