-- ===== src/Engine/Silent.antt =====
-- engine.rs: the methods of `Engine` that give no progress callback.
use omafile.Prelude.{Exec}
use omafile.Paths.{FilePath}
use omafile.Error.{TransferError}
use omafile.Host.Machine.{World, Host}
use omafile.Journal.{Journal}
use omafile.Engine.Types.{Options, Outcome}
use omafile.Engine.Verify.{verify_with_retry_reporting}
use omafile.Engine.Copy.{copy_file_with}
use omafile.Engine.Move.{move_file_with}

-- With the callback that does nothing.
unfoldable pub silently : {E A : Type 0} → Exec World E A → Exec World E A
silently m w = let (r, u) = m w in (r, record u { reported = w.reported })

module _ (host : Host) (journal : Journal) where
  unfoldable pub copy_file : FilePath → FilePath → Options → Exec World TransferError Outcome
  copy_file src dst opts = silently (copy_file_with host journal src dst opts)

  unfoldable pub move_file : FilePath → FilePath → Options → Exec World TransferError Outcome
  move_file src dst opts = silently (move_file_with host journal src dst opts)

  unfoldable pub verify_with_retry :
      FilePath → FilePath → FilePath → Exec World TransferError (Unit {0})
  verify_with_retry src temp dst = silently (verify_with_retry_reporting host journal src temp dst)
