-- ===== src/Trash/Restore/RoundTrip.antt =====
-- Restoring what was trashed.
use mathlib.Core.Path.{subst}
use omafile.Prelude.{
  Bytes, codes, [], ◌∷◌, Bool, true, false, none, some, Result, ok, err, ◌≡◌, ◌≢◌, refl, sym, ap,
  ◌∙◌,
}
use omafile.Prelude.Action.Post.{
  Post, bind-Post, pure-Post, raise-Post, discard-bind-Post, lift-bind-Post,
}
use omafile.Paths.{FilePath, below, below-eq-none, child, display}
use omafile.Paths.Sibling.{below_child}
use omafile.Paths.Text.{lines, AreNames}
use omafile.Error.{IoError, TransferError, io, invalid_data}
use omafile.Host.Machine.{Node, file, World, Host}
use omafile.Host.Keeps.{node_at, remove_file-Keeps}
use omafile.Host.Renamed.{Moved, rename-Moved}
use omafile.Host.Reads.{IsHonest, Reads, read_file-Reads, read_file-Keeps}
use omafile.Host.Dirs.{create_dir_all-Stays}
use omafile.Trash.Escape.RoundTrip.{AreBytes}
use omafile.Trash.Bin.{trashed, info_at, trash_info, trash_in}
use omafile.Trash.Bin.Kept.{IsKept, trash_in-IsKept}
use omafile.Trash.Bin.Recorded.{Recorded, trash_in-Recorded}
use omafile.Trash.Restore.{original_in, as_text, read_to_string, make_parent, put_back, restore}
use omafile.Trash.Restore.Undone.{IsLine, original_in-trash_info}

module _ (path p : FilePath) (n : Node) where
  -- The file is back, or still in the trash.
  abbrev pub IsBack : Result TransferError FilePath → World → Type 0
  IsBack (ok q) t = (q ≡ path) × (node_at path t ≡ some n)
  IsBack (err _) t = node_at p t ≡ some n

module _ (host : Host) (from_utf8_lossy : Bytes → Bytes) (is_utf8 : Bytes → Bool)
    (honest : IsHonest host) (path p info : FilePath) (now : Bytes) (n : Node)
    (names : AreNames path) (bytes : AreBytes (display path))
    (valid : from_utf8_lossy (display path) ≡ display path) (line : IsLine now)
    (off_info : path ≢ info) where
  abbrev text : Bytes
  text = trash_info path now

  make_parent-Stays :
      (q : FilePath) (t : World)
      → node_at p t ≡ some n
      → Post (λ r u. node_at p u ≡ some n) (make_parent host q) t
  make_parent-Stays [] t h = pure-Post (λ r u. node_at p u ≡ some n) tt t h
  make_parent-Stays (name ∷ d) t h = create_dir_all-Stays host p n d t h

  put_back-IsBack :
      (t : World)
      → node_at p t ≡ some n
      → Post (IsBack path p n) (put_back host p info (some path)) t
  put_back-IsBack t h =
      lift-bind-Post (λ _ u. node_at p u ≡ some n) (IsBack path p n) _ io _ t
        (make_parent-Stays path t h)
        (λ _ u k.
          lift-bind-Post (Moved host p path n u) (IsBack path p n) _ io _ u
            (rename-Moved host p path n u k)
            (λ _ v arrived.
              discard-bind-Post (λ x. node_at path x ≡ some n) (IsBack path p n) _ _ v
                ((remove_file-Keeps host path info off_info).at v ∙ arrived)
                (λ x k'. pure-Post (IsBack path p n) path x (refl, k')))
            (λ _ v same. same p ∙ k))
        (λ _ _ k. k)

  put_back_from :
      (raw : Bytes) (t : World)
      → raw ≡ text
      → node_at p t ≡ some n
      → Post
          (IsBack path p n)
          (put_back host p info (original_in from_utf8_lossy (lines raw) none))
          t
  put_back_from raw t e h =
      subst (λ o. Post (IsBack path p n) (put_back host p info o) t)
        (sym (
          ap (λ r. original_in from_utf8_lossy (lines r) none) e
          ∙ original_in-trash_info from_utf8_lossy path now names bytes valid line))
        (put_back-IsBack t h)

  abbrev Told : Result IoError Bytes → World → Type 0
  Told (ok raw) t = (raw ≡ text) × (node_at p t ≡ some n)
  Told (err _) t = node_at p t ≡ some n

  as_text-Told :
      (one : Bool) (raw : Bytes) (t : World)
      → raw ≡ text
      → node_at p t ≡ some n
      → Post Told (as_text host one raw) t
  as_text-Told true raw t e h = pure-Post Told raw t (e, h)
  as_text-Told false raw t e h = raise-Post Told invalid_data t h

  read-Told :
      (d : Bool) (t : World)
      → node_at p t ≡ some n
      → node_at info t ≡ some (file text d)
      → Post Told (read_to_string host is_utf8 info) t
  unfolding read_to_string
  read-Told d t h there =
      bind-Post (λ r u. Reads host info text r u × (node_at p u ≡ node_at p t)) Told _ _ t
        (read_file-Reads host info honest text d t there, (read_file-Keeps host p info).at t)
        (λ raw u (e, kept). as_text-Told (is_utf8 raw) raw u e (kept ∙ h))
        (λ _ u (_, kept). kept ∙ h)

  restore-IsBack :
      (d : Bool) (t : World)
      → node_at p t ≡ some n
      → node_at info t ≡ some (file text d)
      → Post (IsBack path p n) (restore host from_utf8_lossy is_utf8 p info) t
  unfolding restore
  restore-IsBack d t h there =
      lift-bind-Post Told (IsBack path p n) _ io _ t (read-Told d t h there)
        (λ raw u (e, k). put_back_from raw u e k) (λ _ u k. k)

module _ (host : Host) (from_utf8_lossy : Bytes → Bytes) (is_utf8 : Bytes → Bool)
    (honest : IsHonest host) (root path : FilePath) (now : Bytes) (n : Node) (w : World)
    (there : node_at path w ≡ some n) (outside : below root path ≡ none)
    (not_around : below path root ≡ none) (names : AreNames path) (bytes : AreBytes (display path))
    (valid : from_utf8_lossy (display path) ≡ display path) (line : IsLine now) where
  off_info : (name : Bytes) → path ≢ info_at root name
  off_info name e =
      below-eq-none (info_at root name) path
        (below_child (child root (codes "info")) _ path
          (below_child root (codes "info") path outside))
        (sym e)

  -- What was reported as trashed can be restored by its two paths: the result is the path that it
  -- was trashed from, with the same node there; or, if the restore fails, it is still in the trash.
  -- It holds where reads deliver, unless they fail, all that is left of the file, the path is outside
  -- the trash and the trash outside it, its names are names and in UTF-8, and the date is one line.
  pub restore-trash_in :
      (p info : FilePath)
      → (trash_in host root path now w).0 ≡ ok (trashed p info)
      → Post
          (IsBack path p n)
          (restore host from_utf8_lossy is_utf8 p info)
          (trash_in host root path now w).1
  restore-trash_in p info e =
      let t = (trash_in host root path now w).1 in
      let (_, kept) =
        subst (λ r. IsKept host root path now n outside r t) e
          (trash_in-IsKept host root path now n outside w there) in
      let (name, (_, (at_info, recorded))) =
        subst (λ r. Recorded host root path now outside not_around r t) e
          (trash_in-Recorded host root path now outside not_around w) in
      restore-IsBack host from_utf8_lossy is_utf8 honest path p info now n names bytes valid line
        (λ same. off_info name (same ∙ at_info)) false t kept recorded
