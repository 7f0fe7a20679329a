-- ===== src/Engine/Copy/Succeeds.antt =====
-- engine.rs: `copy_file_with` on a machine on which no call fails.
pub mod Conditions
pub mod Writing
pub mod Recording
pub mod Streaming
pub mod Committing
pub mod Cloning
use omafile.Prelude.{
  ℕ, Bytes, Bool, true, false, Option, none, some, Result, ok, err, pure, attempt, lift_err, length,
  if◌then◌else◌, ◌>>=◌, ◌⊎◌, inl, inr, ◌≡◌, ◌≢◌, refl, sym, ap, ◌∙◌, arith,
}
use omafile.Prelude.Action.Post.{Post, pure-Post}
use omafile.Prelude.Action.Done.{Done, Done-ok, bind-Done, lift-Done, Done-map}
use omafile.Paths.{FilePath}
use omafile.Error.{IoError, TransferError, io}
use omafile.Tier.{VerificationTier, shared_extents, checksummed, size_checked}
use omafile.Host.Machine.{Node, file, dir, World, Host}
use omafile.Host.Calls.{dir_of, stat, exists, node_len}
use omafile.Host.Keeps.{node_at}
use omafile.Host.Works.{NoFaults, ReadsWhole, is_writable, stat-Done}
use omafile.FsOps.{temp_path_for}
use omafile.Journal.{Journal, path_for, part_for}
use omafile.Journal.Keeps.{IsOutside, off_entry, off_part}
use omafile.Engine.Types.{Conflict, Options, Outcome, copied}
use omafile.Engine.FreeName.{resolve_conflict}
use omafile.Engine.Stream.Filled.{IsBounded}
use omafile.Engine.Copy.{on_resolved, copy_file_with}
use omafile.Engine.Copy.Plain.{IsPlain, IsAside-dir, IsAside-temp}
use omafile.Engine.Copy.Succeeds.Conditions.{filled_empty, Apart, Ready}
use omafile.Engine.Copy.Succeeds.Writing.{none_writable}
use omafile.Engine.Copy.Succeeds.Cloning.{Arrived, copy_to-Arrived}

all_apart :
    (host : Host) (journal : Journal) (src dst : FilePath) (w : World) (n : Node)
    → IsPlain src
    → IsOutside journal (dir_of src)
    → IsOutside journal (dir_of dst)
    → w.files src ≡ some n
    → w.files dst ≡ none
    → Apart host journal src dst
all_apart host journal src dst w n plain src_out dst_out there absent = record {
  src_temp = plain dst;
  src_part = off_part host journal src dst (IsAside-dir host journal src dst src_out);
  src_entry = off_entry host journal src dst (IsAside-dir host journal src dst src_out);
  src_dst = λ e. filled_empty (sym there ∙ (ap w.files e ∙ absent));
  entry_temp =
      λ e. off_entry host journal _ dst (IsAside-temp host journal dst dst dst_out) (sym e);
  dst_entry = off_entry host journal dst dst (IsAside-dir host journal dst dst dst_out);
}

exists_absent :
    (host : Host) (works : NoFaults host) (p : FilePath) (t : World)
    → t.files p ≡ none
    → Post {E = TransferError}
        (Done (λ there u. (there ≡ false) × (u.files ≡ t.files)))
        (exists host p)
        t
unfolding exists stat pure attempt ◌>>=◌
exists_absent host works p t absent =
    let r = exists host {E = TransferError} p t in
    Done-ok (λ there u. (there ≡ false) × (u.files ≡ t.files)) false r.0 r.1
      (ground (arith, works.1 t.clock, absent)) (refl, ground (arith, works.1 t.clock, absent))

resolve_free :
    (host : Host) (existed : Bool) (policy : Conflict) (dst : FilePath) (t : World)
    → existed ≡ false
    → Post
        (Done (λ target u. (target ≡ some dst) × (u.files ≡ t.files)))
        (resolve_conflict host existed policy dst)
        t
unfolding resolve_conflict
resolve_free host existed policy dst t e = rw e (
    pure-Post (Done (λ target u. (target ≡ some dst) × (u.files ≡ t.files))) (some dst) t
      (refl, refl))

-- The copy is reported, by a clone or with the tier that was asked for, and it is the source, flushed.
abbrev pub IsDelivered : FilePath → Bytes → Bool → Result TransferError Outcome → World → Type 0
IsDelivered dst c checksum r t =
    (tier : VerificationTier) × ((tier ≡ shared_extents)
      ⊎ (tier ≡ (if checksum then checksummed else size_checked)))
    × (r ≡ ok (copied tier (length c) false dst))
    × (node_at dst t ≡ some (file c true))

module _ (host : Host) (works : NoFaults host) (journal : Journal) (src dst : FilePath) (c : Bytes)
    (d : Bool) (apart : Apart host journal src dst) (whole : ReadsWhole host c)
    (bounded : IsBounded host) where
  abbrev Finished : Bool → Outcome → World → Type 0
  Finished checksum out t =
      Arrived host works journal src dst c d apart whole bounded checksum false out t

  from_Ready :
      (opts : Options) (w : World)
      → Ready host journal src dst c d w.files
      → w.files (path_for host journal dst) ≡ none
      → w.files dst ≡ none
      → Post (Done (Finished opts.checksum)) (copy_file_with host journal src dst opts) w
  unfolding copy_file_with node_len
  from_Ready opts w r unrecorded absent =
      lift-Done (λ n u. (n ≡ file c d) × (u.files ≡ w.files)) (Done (Finished opts.checksum)) _ io _
        w (stat-Done host works src (file c d) w r.source)
        (λ n u (known, same).
          bind-Done (λ there v. (there ≡ false) × (v.files ≡ u.files))
            (Done (Finished opts.checksum)) _ _ u
            (exists_absent host works dst u (ap (λ files. files dst) same ∙ absent))
            (λ existed v (missing, also).
              bind-Done (λ target v'. (target ≡ some dst) × (v'.files ≡ v.files))
                (Done (Finished opts.checksum)) _ _ v
                (resolve_free host existed opts.on_conflict dst v missing)
                (λ target v' (chosen, still).
                  let kept : v'.files ≡ w.files = still ∙ also ∙ same in
                  rw (known, missing, chosen)
                    (copy_to-Arrived host works journal src dst c d apart whole bounded
                      opts.checksum false v' (rw kept r) (rw kept unrecorded)))))

  reported :
      (checksum : Bool) (r : Result TransferError Outcome) (t : World)
      → Done (Finished checksum) r t
      → IsDelivered dst c checksum r t
  reported checksum (ok out) t (tier, kind, (said, there)) = (tier, kind, ap ok said, there)
  reported checksum (err e) t bad = absurd bad

-- On a machine on which no call fails and reads deliver the file, and no reads 2^63 bytes, a file that
-- is copied, between directories that are there, to a path where nothing is and that no record
-- names, arrives whole, flushed, with the verification that was asked for or by a clone. Neither
-- directory is the journal's, and the working files of an earlier attempt may be there.
pub copy_file-IsDelivered :
    (host : Host) (works : NoFaults host) (bounded : IsBounded host) (journal : Journal)
    (src dst : FilePath) (opts : Options) (c : Bytes) (d : Bool) (w : World)
    → ReadsWhole host c
    → IsPlain src
    → IsOutside journal (dir_of src)
    → IsOutside journal (dir_of dst)
    → node_at src w ≡ some (file c d)
    → node_at dst w ≡ none
    → node_at (path_for host journal dst) w ≡ none
    → is_writable (node_at (temp_path_for dst) w) ≡ true
    → is_writable (node_at (part_for host journal dst) w) ≡ true
    → node_at (dir_of src) w ≡ some dir
    → node_at (dir_of dst) w ≡ some dir
    → node_at journal.folder w ≡ some dir
    → Post (IsDelivered dst c opts.checksum) (copy_file_with host journal src dst opts) w
copy_file-IsDelivered host works bounded journal src dst opts c d w whole plain src_out dst_out
      there absent unrecorded temp_free part_free src_dir dst_dir folder =
    let apart = all_apart host journal src dst w (file c d) plain src_out dst_out there absent in
    let free : is_writable (w.files dst) ≡ true = rw absent none_writable in
    let entry_free : is_writable (w.files (path_for host journal dst)) ≡ true =
      rw unrecorded none_writable in
    reported host works journal src dst c d apart whole bounded opts.checksum _ _ (
      from_Ready host works journal src dst c d apart whole bounded opts w
        (record {
          source = there;
          source_in = src_dir;
          into = dst_dir;
          recorded_in = folder;
          temp_free = temp_free;
          part_free = part_free;
          entry_free = entry_free;
          dst_free = free;
        })
        unrecorded absent)
