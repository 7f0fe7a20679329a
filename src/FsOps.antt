-- ===== src/FsOps.antt =====
-- daemon/src/fs_ops.rs: the primitives that the engine sequences. `drop_cache` is advice to the
-- kernel that changes nothing a later call can see, and has no definition here.
pub mod Clone
use omafile.Prelude.{
  codes, ◌++◌, Bool, true, false, Option, some, ◌==◌, nat_eq, ok, Exec, pure, discard, ◌>>=◌, ◌>>◌,
}
use omafile.Paths.{FilePath, child, name_or_empty}
use omafile.Error.{IoError}
use omafile.Host.Machine.{Node, file, World, Host}
use omafile.Host.Calls.{
  tick, put_node, with_files, dir_of, stat, open_read, create, sync_all, remove_file,
}

unfoldable pub temp_path_for : FilePath → FilePath
unfolding dir_of
temp_path_for dst = child (dir_of dst) (codes ".omafile-" ++ (name_or_empty dst ++ codes ".part"))

module _ (host : Host) where
  -- What the ioctl leaves in `temp`, which is open for writing.
  abbrev pub cloned : FilePath → Bool → Option Node → Exec World IoError Bool
  cloned temp true (some (file content durable)) w =
      (ok true, with_files (put_node temp (some (file content false)) w.files) w)
  cloned temp _ _ w = (ok false, w)

  -- `ioctl(FICLONE)`: whether the source's extents are now those of `temp`.
  unfoldable pub ficlone : FilePath → FilePath → Exec World IoError Bool
  ficlone src temp w = cloned temp (host.clones w.clock) (w.files src) (tick w)

  -- The two arms on the ioctl's result.
  unfoldable pub after_clone : FilePath → Bool → Exec World IoError Bool
  after_clone temp true = do sync_all host temp; pure true
  after_clone temp false = do discard (remove_file host temp); pure false

  unfoldable pub try_reflink_into_temp : FilePath → FilePath → Exec World IoError Bool
  try_reflink_into_temp src temp = do
    open_read host src
    create host temp
    shared ← ficlone src temp
    after_clone temp shared

  unfoldable pub same_filesystem : FilePath → FilePath → Exec World IoError Bool
  same_filesystem a b = do
    stat host (dir_of a)
    stat host (dir_of b)
    pure (host.device (dir_of a) == host.device (dir_of b))
