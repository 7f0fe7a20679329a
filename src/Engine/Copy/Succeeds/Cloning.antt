-- ===== src/Engine/Copy/Succeeds/Cloning.antt =====
-- The clone returns on a machine on which no call fails, and leaves everything ready for the copy.
use omafile.Prelude.{
  Bytes, [], Bool, true, false, none, some, ok, Bool-cases, length, list_eq, nat_eq, ◌⊎◌, inl, inr,
  ◌≡◌, refl, sym, ap, ◌∙◌, arith,
}
use omafile.Prelude.Action.Post.{Post, pure-Post, discard-bind-Post}
use omafile.Prelude.Action.Done.{Done, bind-Done, lift-Done, attempt-Done, Done-map, Done-and}
use omafile.Paths.{FilePath}
use omafile.Error.{io}
use omafile.Tier.{VerificationTier, shared_extents}
use omafile.Host.Machine.{file, dir, World, Host}
use omafile.Host.Calls.{put_node, with_files, dir_of, remove_file, open_read, stat, tick}
use omafile.Host.Keeps.{node_at}
use omafile.Host.Works.{NoFaults, ReadsWhole, stat-Done, open_read-Done}
use omafile.FsOps.{cloned, ficlone, after_clone, try_reflink_into_temp, same_filesystem}
use omafile.FsOps.Clone.{try_reflink-Keeps}
use omafile.Journal.{Journal}
use omafile.Engine.Types.{Outcome}
use omafile.Engine.Stream.Filled.{IsBounded}
use omafile.Engine.Copy.{commit_clone, clone_renamed, on_clone, copy_by_stream, copy_to}
use omafile.Engine.Copy.Plain.{ne-temp}
use omafile.Engine.Copy.Succeeds.Conditions.{Apart, Ready-put_node, temp_file, entry_file}
use omafile.Engine.Copy.Succeeds.Recording.{Ok, At, dir_of-temp_file}
use omafile.Engine.Copy.Succeeds.Writing.{
  put-Holding, held-free, none_writable, create-Holding, sync-Holding, rename-Holding,
}
use omafile.Engine.Copy.Succeeds.Committing.{IsCopied, tier_of, copy_by_stream-IsCopied}

module _ (host : Host) (works : NoFaults host) (journal : Journal) (src dst : FilePath) (c : Bytes)
    (d : Bool) (apart : Apart host journal src dst) where
  abbrev Okay : World → Type 0
  Okay t = Ok host works journal src dst c d apart t

  abbrev temp : FilePath
  temp = temp_file host journal src dst

  abbrev HasTemp : Bool → World → Type 0
  HasTemp durable t = At host works journal src dst c d apart temp c durable t

  -- A clone that was made is in the temporary file.
  abbrev pub Cloned : Bool → Bool → World → Type 0
  Cloned durable true t = HasTemp durable t
  Cloned false false t = At host works journal src dst c d apart temp [] false t
  Cloned true false t = Okay t

  cloned-Done :
      (clones : Bool) (t : World)
      → At host works journal src dst c d apart temp [] false t
      → Post (Done (Cloned false)) (cloned host temp clones (some (file c d))) t
  cloned-Done true t h =
      put-Holding host works journal src dst c d apart temp c false t
        (with_files (put_node temp (some (file c false)) t.files) t) h.0 apart.src_temp
        (held-free host works journal src dst c d apart temp [] false t h.1) refl
  cloned-Done false t h = h

  ficlone-Done :
      (t : World)
      → At host works journal src dst c d apart temp [] false t
      → Post (Done (Cloned false)) (ficlone host src temp) t
  unfolding ficlone
  ficlone-Done t h = rw (h.0.source) (cloned-Done (host.clones t.clock) (tick t) h)

  remove_temp :
      (t : World)
      → At host works journal src dst c d apart temp [] false t
      → Okay (remove_file host temp t).1
  unfolding remove_file
  remove_temp t h =
      let gone : (remove_file host temp t).1.files ≡ put_node temp none t.files =
        ground (arith, works.0 t.clock, h.1) in
      rw gone (
        Ready-put_node host journal src dst c d temp none t.files h.0 apart.src_temp
          (held-free host works journal src dst c d apart temp [] false t h.1) none_writable)

  after_clone-Done :
      (shared : Bool) (t : World)
      → Cloned false shared t
      → Post (Done (Cloned true)) (after_clone host temp shared) t
  unfolding after_clone
  after_clone-Done true t h =
      bind-Done (λ _ u. HasTemp true u) (Done (Cloned true)) _ _ t
        (sync-Holding host works journal src dst c d apart temp c false t apart.src_temp h)
        (λ _ u k. pure-Post (Done (Cloned true)) true u k)
  after_clone-Done false t h =
      discard-bind-Post Okay (Done (Cloned true)) (remove_file host temp) _ t (remove_temp t h)
        (λ u k. pure-Post (Done (Cloned true)) false u k)

  abbrev entry : FilePath
  entry = entry_file host journal src dst

  -- A clone, and no record of the destination.
  abbrev pub Offered : Bool → World → Type 0
  Offered shared t = Cloned true shared t × (t.files entry ≡ none)

  try_reflink-Cloned :
      (t : World) → Okay t → Post (Done (Cloned true)) (try_reflink_into_temp host src temp) t
  unfolding try_reflink_into_temp
  try_reflink-Cloned t r =
      bind-Done (λ _ u. Okay u) (Done (Cloned true)) _ _ t
        (Done-map _ (λ _ u. Okay u) (open_read host src) t
          (open_read-Done host works src (file c d) t r.source) (λ _ u k. rw (k.1) r))
        (λ _ u r'.
          bind-Done (λ _ v. At host works journal src dst c d apart temp [] false v)
            (Done (Cloned true)) _ _ u
            (create-Holding host works journal src dst c d apart temp u r' apart.src_temp
              r'.temp_free (rw (dir_of-temp_file host works journal src dst c d apart) r'.into))
            (λ _ v h.
              bind-Done (Cloned false) (Done (Cloned true)) _ _ v (ficlone-Done v h)
                (λ shared v' k. after_clone-Done shared v' k)))

  try_reflink-Offered :
      (t : World)
      → Okay t
      → t.files entry ≡ none
      → Post (Done Offered) (try_reflink_into_temp host src temp) t
  try_reflink-Offered t r absent =
      Done-and (Cloned true) Offered (λ _ u. node_at entry u ≡ node_at entry t)
        (try_reflink_into_temp host src temp) t (try_reflink-Cloned t r)
        ((try_reflink-Keeps host entry temp apart.entry_temp src).at t)
        (λ shared u h kept. (h, kept ∙ absent))

  module _ (whole : ReadsWhole host c) (bounded : IsBounded host) where
    -- By a clone, or by reading and writing.
    abbrev pub Arrived : Bool → Bool → Outcome → World → Type 0
    Arrived checksum replaced out t =
        (tier : VerificationTier) × ((tier ≡ shared_extents)
          ⊎ (tier ≡ tier_of host works journal src dst c d apart whole bounded checksum))
        × IsCopied host works journal src dst c d apart whole bounded tier replaced out t

    commit_clone-Arrived :
        (checksum replaced : Bool) (t : World)
        → HasTemp true t
        → Post
            (Done (Arrived checksum replaced))
            (commit_clone host journal dst (length c) replaced)
            t
    unfolding commit_clone clone_renamed
    commit_clone-Arrived checksum replaced t h =
        attempt-Done (λ _ u. At host works journal src dst c d apart dst c true u)
          (Done (Arrived checksum replaced)) _ _ t
          (rename-Holding host works journal src dst c d apart temp dst c true t apart.src_temp
            apart.src_dst (λ same. ne-temp dst (sym same)) h h.0.dst_free
            (dir_of-temp_file host works journal src dst c d apart) h.0.into)
          (λ _ u k.
            pure-Post (Done (Arrived checksum replaced)) _ u
              (shared_extents, inl refl, (refl, k.1)))

    streamed-Arrived :
        (checksum replaced : Bool) (t : World)
        → Okay t
        → t.files entry ≡ none
        → Post
            (Done (Arrived checksum replaced))
            (copy_by_stream host journal src dst (length c) replaced checksum)
            t
    streamed-Arrived checksum replaced t r absent =
        Done-map _ (Arrived checksum replaced)
          (copy_by_stream host journal src dst (length c) replaced checksum) t
          (copy_by_stream-IsCopied host works journal src dst c d apart whole bounded checksum
            replaced t r absent)
          (λ out u k.
            (tier_of host works journal src dst c d apart whole bounded checksum, inr refl, k))

    on_clone-Arrived :
        (checksum replaced shared : Bool) (t : World)
        → Offered shared t
        → Post
            (Done (Arrived checksum replaced))
            (on_clone host journal src dst (length c) replaced checksum (ok shared))
            t
    on_clone-Arrived checksum replaced true t (h, absent) =
        commit_clone-Arrived checksum replaced t h
    on_clone-Arrived checksum replaced false t (h, absent) =
        streamed-Arrived checksum replaced t h absent

    same_filesystem-Done :
        (t : World)
        → Okay t
        → Post (Done (λ _ u. u.files ≡ t.files)) (same_filesystem host src dst) t
    unfolding same_filesystem
    same_filesystem-Done t r =
        bind-Done (λ _ u. u.files ≡ t.files) (Done (λ _ u. u.files ≡ t.files)) _ _ t
          (Done-map _ (λ _ u. u.files ≡ t.files) (stat host (dir_of src)) t
            (stat-Done host works (dir_of src) dir t r.source_in) (λ _ u k. k.1))
          (λ _ u same.
            bind-Done (λ _ v. v.files ≡ u.files) (Done (λ _ u. u.files ≡ t.files)) _ _ u
              (Done-map _ (λ _ v. v.files ≡ u.files) (stat host (dir_of dst)) u
                (stat-Done host works (dir_of dst) dir u
                  (ap (λ files. files (dir_of dst)) same ∙ r.into))
                (λ _ v k. k.1))
              (λ _ v also. pure-Post (Done (λ _ u. u.files ≡ t.files)) _ v (also ∙ same)))

    pub copy_to-Arrived :
        (checksum replaced : Bool) (t : World)
        → Okay t
        → t.files entry ≡ none
        → Post
            (Done (Arrived checksum replaced))
            (copy_to host journal src dst (length c) replaced checksum)
            t
    unfolding copy_to
    copy_to-Arrived checksum replaced t r absent =
        lift-Done (λ _ u. u.files ≡ t.files) (Done (Arrived checksum replaced)) _ io _ t
          (same_filesystem-Done t r)
          (λ one u same.
            let r' : Okay u = rw same r in
            let absent' : u.files entry ≡ none = rw same absent in
            elim (Bool-cases one) [
              | inl e ↦ rw e (
                  attempt-Done Offered (Done (Arrived checksum replaced)) _ _ u
                    (try_reflink-Offered u r' absent')
                    (λ shared v offered. on_clone-Arrived checksum replaced shared v offered))
              | inr e ↦ rw e (streamed-Arrived checksum replaced u r' absent')
            ])
