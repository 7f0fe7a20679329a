-- ===== src/Journal/Recorded.antt =====
-- daemon/src/journal.rs: a record is replaced as a whole, and what was recorded is what is looked up.
use mathlib.Core.Path.{subst}
use omafile.Prelude.{
  ℕ, Bytes, codes, List, [], ◌∷◌, ◌++◌, true, false, Option, none, some, Result, ok, err, ◌≡◌, ◌≢◌,
  refl, Bool, ◌∙◌, arith, ==_refl, list_eq, nat_eq, pure,
}
use omafile.Prelude.Action.Post.{Post, bind-Post, pure-Post, attempt-bind-Post}
use omafile.Paths.{FilePath, display}
use omafile.Error.{IoError}
use omafile.Host.Machine.{Node, file, World, Host, Entry, Read, read_error, payload}
use omafile.Host.Calls.{
  open_read, read_tape, sync_all, rename, read_file, write_file, all_read, tape,
}
use omafile.Host.Keeps.{node_at, open_read-Keeps, create-Keeps, write_all-Keeps, sync_all-Keeps}
use omafile.Host.Renamed.{Arrived, rename-Arrived}
use omafile.Host.Reads.{IsHonest, Has, write_file-Has}
use omafile.Journal.{Journal, hex, path_for, part_for, record_entry, get, decoded}

part_named : (h : Bytes) → h ++ codes ".json" ≢ h ++ codes ".json.part"
part_named [] e = cc
part_named (x ∷ h) e = part_named h cc

module _ (host : Host) (journal : Journal) (e : Entry) where
  abbrev entry : FilePath
  entry = path_for host journal e.destination

  abbrev part : FilePath
  part = part_for host journal e.destination

  pub entry-ne-part : entry ≢ part
  unfolding path_for part_for
  entry-ne-part same = part_named (hex (host.sha256 (display e.destination))) cc

  module _ (w : World) where
    -- The record is the new one, flushed; or after an error it is what it was.
    abbrev pub IsRecorded : Result IoError (Unit {0}) → World → Type 0
    IsRecorded (ok _) t =
        node_at (path_for host journal e.destination) t ≡ some (file (host.to_vec_pretty e) true)
    IsRecorded (err _) t =
        node_at (path_for host journal e.destination) t
        ≡ node_at (path_for host journal e.destination) w

    abbrev Kept : World → Type 0
    Kept t = node_at entry t ≡ node_at entry w

    write_file-Kept :
        (c : Bytes) (t : World) → Kept t → Post (λ _ u. Kept u) (write_file host part c) t
    unfolding write_file
    write_file-Kept c t h =
        bind-Post (λ _ u. Kept u) (λ _ u. Kept u) _ _ t
          ((create-Keeps host entry part entry-ne-part).at t ∙ h)
          (λ _ u k. (write_all-Keeps host entry part 0 c entry-ne-part).at u ∙ k) (λ _ _ k. k)

    abbrev IsFlushed : Result IoError (Unit {0}) → World → Type 0
    IsFlushed (ok _) t = node_at part t ≡ some (file (host.to_vec_pretty e) true)
    IsFlushed (err _) t = Unit {0}

    sync_all-IsFlushed :
        (t : World)
        → node_at part t ≡ some (file (host.to_vec_pretty e) false)
        → Post IsFlushed (sync_all host part) t
    unfolding sync_all
    sync_all-IsFlushed t h = ground (arith, h, ==_refl part)

    arrived :
        (r : Result IoError (Unit {0})) (t u : World)
        → Kept t
        → Arrived host part entry (host.to_vec_pretty e) true t r u
        → IsRecorded r u
    arrived (ok _) t u k h = h.0
    arrived (err _) t u k h = h entry ∙ k

    -- Whatever fails and wherever the run stops, an entry that is recorded is its destination's record,
    -- whole and flushed; after an error the record is as it was.
    pub record_entry-IsRecorded : Post IsRecorded (record_entry host journal e) w
    unfolding record_entry
    record_entry-IsRecorded =
        bind-Post (λ r t. Kept t × Has host part (host.to_vec_pretty e) r t) IsRecorded
          (write_file host part (host.to_vec_pretty e)) _ w
          (
            write_file-Kept (host.to_vec_pretty e) w refl,
            write_file-Has host part (host.to_vec_pretty e) w,
          )
          (λ _ t held.
            bind-Post (λ r u. Kept u × (node_at part u ≡ node_at part t)) IsRecorded
              (open_read host part) _ t
              (
                (open_read-Keeps host entry part).at t ∙ held.0,
                (open_read-Keeps host part part).at t,
              )
              (λ _ u opened.
                bind-Post (λ r v. Kept v × IsFlushed r v) IsRecorded (sync_all host part) _ u
                  (
                    (sync_all-Keeps host entry part entry-ne-part).at u ∙ opened.0,
                    sync_all-IsFlushed u (opened.1 ∙ held.1),
                  )
                  (λ _ v full.
                    arrived (rename host part entry v).0 v (rename host part entry v).1 full.0
                      (rename-Arrived host part entry (host.to_vec_pretty e) true v full.1))
                  (λ _ _ stopped. stopped.0))
              (λ _ _ stopped. stopped.0))
          (λ _ _ held. held.0)

  -- A machine on which no call fails.
  abbrev pub NoFaults : Type 0
  NoFaults =
      ((t : ℕ) → host.fault t ≡ none) × ((t : ℕ) (c : Bytes) → read_error (host.reads t c) ≡ none)

  all_read-ok :
      (reads : List Read) (c : Bytes) (t : World)
      → read_error reads ≡ none
      → payload reads ≡ c
      → all_read host reads ≡ ok c
  all_read-ok reads c t clean same = ground (arith, clean, same)

  open_read-found :
      (works : NoFaults) (n : Node) (t : World)
      → node_at entry t ≡ some n
      → Post (λ r u. (r ≡ ok n) × (node_at entry u ≡ some n)) (open_read host entry) t
  unfolding open_read
  open_read-found works n t there =
      (ground (arith, works.0 t.clock, there), ground (arith, works.0 t.clock, there))

  pub read_tape-found :
      (o : Option Node) (t : World)
      → node_at entry t ≡ o
      → Post {E = IoError} (λ r u. r ≡ ok (tape host t.clock 0 o)) (read_tape host entry 0) t
  unfolding read_tape
  read_tape-found o t there = rw there refl

  read_file_works :
      (honest : IsHonest host) (works : NoFaults) (c : Bytes) (d : Bool) (t : World)
      → node_at entry t ≡ some (file c d)
      → Post (λ r u. r ≡ ok c) (read_file host entry) t
  unfolding read_file
  read_file_works honest works c d t there =
      bind-Post (λ r u. (r ≡ ok (file c d)) × (node_at entry u ≡ some (file c d))) (λ r u. r ≡ ok c)
        (open_read host entry) _ t (open_read-found works (file c d) t there)
        (λ _ u opened.
          bind-Post (λ r v. r ≡ ok (tape host u.clock 0 (some (file c d)))) (λ r v. r ≡ ok c)
            (read_tape host entry 0) _ u (read_tape-found (some (file c d)) u opened.1)
            (λ reads v got.
              all_read-ok reads c v (ok_read reads u.clock got works)
                (ok_payload reads u.clock got honest works))
            (λ x v bad. cc))
        (λ x u bad. cc)
    where
      same_reads :
          (reads : List Read) (k : ℕ)
          → ◌≡◌ {A = Result IoError (List Read)} (ok reads) (ok (host.reads k c))
          → reads ≡ host.reads k c
      same_reads reads k e = cc

      ok_read :
          (reads : List Read) (k : ℕ)
          → ◌≡◌ {A = Result IoError (List Read)} (ok reads) (ok (host.reads k c))
          → NoFaults
          → read_error reads ≡ none
      ok_read reads k e works = rw (same_reads reads k e) (works.1 k c)

      ok_payload :
          (reads : List Read) (k : ℕ)
          → ◌≡◌ {A = Result IoError (List Read)} (ok reads) (ok (host.reads k c))
          → IsHonest host
          → NoFaults
          → payload reads ≡ c
      ok_payload reads k e honest works = rw (same_reads reads k e) (honest k c (works.1 k c))

  -- On a machine on which no call fails and reads deliver the file, and where an entry's encoding
  -- decodes to it, an entry that was recorded is what is looked up for its destination.
  pub get-record_entry :
      (w : World)
      → IsHonest host
      → NoFaults
      → host.from_slice (host.to_vec_pretty e) ≡ some e
      → (record_entry host journal e w).0 ≡ ok tt
      → Post {E = IoError}
          (λ r t. r ≡ ok (some e))
          (get host journal e.destination)
          (record_entry host journal e w).1
  unfolding get
  get-record_entry w honest works serde recorded =
      let t = (record_entry host journal e w).1 in
      let there = subst (λ r. IsRecorded w r t) recorded (record_entry-IsRecorded w) in
      attempt-bind-Post (λ r u. r ≡ ok (host.to_vec_pretty e)) (λ r u. r ≡ ok (some e))
        (read_file host entry) (λ raw. pure (decoded host journal raw)) t
        (read_file_works honest works (host.to_vec_pretty e) true t there)
        (λ raw u same. pure-Post (λ r u. r ≡ ok (some e)) _ u (rw (same, serde) refl))
