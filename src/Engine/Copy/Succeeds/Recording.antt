-- ===== src/Engine/Copy/Succeeds/Recording.antt =====
-- `record_entry` succeeds on a machine on which no call fails.
use omafile.Prelude.{Bytes, [], Bool, true, false, ◌>>◌, ◌≡◌, ◌≢◌, refl, sym, ◌∙◌}
use omafile.Prelude.Action.Post.{Post}
use omafile.Prelude.Action.Done.{Done, bind-Done, Done-map}
use omafile.Paths.{FilePath}
use omafile.Host.Machine.{file, World, Host, Entry}
use omafile.Host.Calls.{dir_of, write_file, sync_all, rename, open_read, write_at}
use omafile.Host.Works.{NoFaults, open_read-Done}
use omafile.FsOps.{temp_path_for}
use omafile.Journal.{Journal, path_for, part_for, record_entry}
use omafile.Journal.Recorded.{entry-ne-part}
use omafile.Engine.Copy.Succeeds.Conditions.{Apart, temp_file, part_file, entry_file}
use omafile.Engine.Copy.Succeeds.Writing.{
  IsReady, Holding, create-Holding, write-Holding, sync-Holding, rename-Holding,
}

module _ (host : Host) (works : NoFaults host) (journal : Journal) (src dst : FilePath) (c : Bytes)
    (d : Bool) (apart : Apart host journal src dst) where
  abbrev pub Ok : World → Type 0
  Ok t = IsReady host works journal src dst c d apart t

  abbrev pub At : FilePath → Bytes → Bool → World → Type 0
  At p x b t = Holding host works journal src dst c d apart p x b t

  abbrev part : FilePath
  part = part_file host journal src dst

  abbrev entry : FilePath
  entry = entry_file host journal src dst

  abbrev temp : FilePath
  temp = temp_file host journal src dst

  dir_of-part_file : dir_of part ≡ journal.folder
  unfolding part_for dir_of
  dir_of-part_file = refl

  pub dir_of-entry_file : dir_of entry ≡ journal.folder
  unfolding path_for dir_of
  dir_of-entry_file = refl

  pub dir_of-temp_file : dir_of temp ≡ dir_of dst
  unfolding temp_path_for dir_of
  dir_of-temp_file = refl

  part-ne-entry : part ≢ entry
  part-ne-entry same = entry-ne-part host journal some_entry (sym same)
    where
      some_entry : Entry
      some_entry = record {
        source = src;
        destination = dst;
        temp = temp;
        expected_size = 0;
        bytes_done = 0;
        checksum_requested = false;
      }

  commit_record :
      (x : Bytes) (t : World)
      → At part x false t
      → Post
          (Done (λ _ u. Ok u))
          (do open_read host part; sync_all host part; rename host part entry)
          t
  commit_record x t h =
      bind-Done (λ _ v. At part x false v) (Done (λ _ u. Ok u)) _ _ t
        (Done-map _ _ (open_read host part) t (open_read-Done host works part (file x false) t h.1)
          (λ _ v k. rw (k.1) h))
        (λ _ v k.
          bind-Done (λ _ u. At part x true u) (Done (λ _ u. Ok u)) _ _ v
            (sync-Holding host works journal src dst c d apart part x false v apart.src_part k)
            (λ _ u l.
              Done-map _ _ (rename host part entry) u
                (rename-Holding host works journal src dst c d apart part entry x true u
                  apart.src_part apart.src_entry part-ne-entry l l.0.entry_free
                  (dir_of-part_file ∙ sym dir_of-entry_file) (rw dir_of-entry_file l.0.recorded_in))
                (λ _ v m. m.0)))

  write_record :
      (x : Bytes) (t : World)
      → Ok t
      → Post (Done (λ _ u. At part (write_at 0 x []) false u)) (write_file host part x) t
  unfolding write_file
  write_record x t r =
      bind-Done (λ _ u. At part [] false u) (Done (λ _ u. At part (write_at 0 x []) false u)) _ _ t
        (create-Holding host works journal src dst c d apart part t r apart.src_part r.part_free
          (rw dir_of-part_file r.recorded_in))
        (λ _ u h.
          write-Holding host works journal src dst c d apart part 0 x [] false u apart.src_part h)

  pub record_entry-Ready :
      (e : Entry) (t : World)
      → e.destination ≡ dst
      → Ok t
      → Post (Done (λ _ u. Ok u)) (record_entry host journal e) t
  unfolding record_entry
  record_entry-Ready e t own r = simp own (
      bind-Done (λ _ u. At part (write_at 0 (host.to_vec_pretty e) []) false u) (Done (λ _ u. Ok u))
        _ _ t (write_record (host.to_vec_pretty e) t r)
        (λ _ u h. commit_record (write_at 0 (host.to_vec_pretty e) []) u h))
