-- ===== src/Engine/Move.antt =====
-- engine.rs: `move_file_with`.
pub mod NoLoss
pub mod Succeeds
use omafile.Prelude.{Option, none, some, if◌then◌else◌, Exec, pure, lift_err, ◌>>=◌, ◌>>◌}
use omafile.Paths.{FilePath}
use omafile.Error.{TransferError, io}
use omafile.Host.Machine.{World, Host}
use omafile.Host.Calls.{exists, rename, remove_file}
use omafile.FsOps.{same_filesystem}
use omafile.Journal.{Journal}
use omafile.Engine.Types.{Options, Outcome, moved, copied, skipped_existing}
use omafile.Engine.FreeName.{resolve_conflict}
use omafile.Engine.Copy.{copy_file_with}

module _ (host : Host) (journal : Journal) where
  -- The source goes only when the copy has landed.
  unfoldable pub after_copy : FilePath → Outcome → Exec World TransferError Outcome
  after_copy src (copied tier bytes replaced committed_as) = do
    lift_err io (remove_file host src)
    pure (moved committed_as)
  after_copy src other = pure other

  unfoldable pub move_to : FilePath → FilePath → Options → Exec World TransferError Outcome
  move_to src dst opts = do
    same ← lift_err io (same_filesystem host src dst)
    if same
        then (do lift_err io (rename host src dst); pure (moved dst))
        else (do outcome ← copy_file_with host journal src dst opts; after_copy src outcome)

  abbrev pub on_move_resolved :
      FilePath → Options → Option FilePath → Exec World TransferError Outcome
  on_move_resolved src opts none = pure skipped_existing
  on_move_resolved src opts (some dst) = move_to src dst opts

  unfoldable pub move_file_with : FilePath → FilePath → Options → Exec World TransferError Outcome
  move_file_with src dst opts = do
    existed ← exists host dst
    target ← resolve_conflict host existed opts.on_conflict dst
    on_move_resolved src opts target
