-- ===== src/Engine/Copy.antt =====
-- engine.rs: `copy_file_with`. Each definition is one block of the function, up to a place where it
-- branches.
pub mod Whole
pub mod Plain
pub mod Safety
pub mod Atomic
pub mod Content
pub mod Reported
pub mod Succeeds
use omafile.Prelude.{
  ℕ, Bool, true, false, ◌&&◌, Option, none, some, ◌==◌, nat_eq, if◌then◌else◌, Result, ok, err,
  Exec, pure, raise, attempt, discard, lift_err, ◌>>=◌, ◌>>◌,
}
use omafile.Paths.{FilePath}
use omafile.Error.{IoError, TransferError, io, size_mismatch}
use omafile.Tier.{VerificationTier, shared_extents, checksummed, size_checked}
use omafile.Host.Machine.{World, Host}
use omafile.Host.Calls.{stat, exists, node_len, rename, remove_file}
use omafile.FsOps.{temp_path_for, try_reflink_into_temp, same_filesystem}
use omafile.Journal.{Journal, record_entry, clear}
use omafile.Engine.Types.{Options, Outcome, copied, skipped_existing, is_replace}
use omafile.Engine.FreeName.{resolve_conflict}
use omafile.Engine.Stream.{resume_offset, stream}
use omafile.Engine.Verify.{verify_with_retry_reporting}

module _ (host : Host) (journal : Journal) where
  -- The commit of a clone, on the result of the rename.
  unfoldable pub clone_renamed :
      FilePath → ℕ → Bool → Result IoError (Unit {0}) → Exec World TransferError Outcome
  clone_renamed dst expected replaced (ok _) = pure (copied shared_extents expected replaced dst)
  clone_renamed dst expected replaced (err e) = do
    discard (remove_file host (temp_path_for dst))
    raise (io e)

  unfoldable pub commit_clone : FilePath → ℕ → Bool → Exec World TransferError Outcome
  commit_clone dst expected replaced = do
    r ← attempt (rename host (temp_path_for dst) dst)
    clone_renamed dst expected replaced r

  -- The commit rename, and only then the journal.
  unfoldable pub commit : FilePath → VerificationTier → ℕ → Bool → Exec World TransferError Outcome
  commit dst tier expected replaced = do
    lift_err io (rename host (temp_path_for dst) dst)
    lift_err io (clear host journal dst)
    pure (copied tier expected replaced dst)

  unfoldable pub verified : FilePath → FilePath → Bool → Exec World TransferError VerificationTier
  verified src dst true = do
    verify_with_retry_reporting host journal src (temp_path_for dst) dst
    pure checksummed
  verified src dst false = pure size_checked

  -- The clean-up that the error paths share.
  unfoldable pub abandon : {A : Type 0} → FilePath → TransferError → Exec World TransferError A
  abandon dst e = do
    discard (remove_file host (temp_path_for dst))
    discard (clear host journal dst)
    raise e

  -- The unconditional size check, and what follows it.
  unfoldable pub check_size :
      FilePath
      → FilePath
      → ℕ
      → Bool
      → Bool
      → Result TransferError ℕ
      → Exec World TransferError Outcome
  check_size src dst expected replaced checksum (err e) = abandon dst e
  check_size src dst expected replaced checksum (ok written) =
      if written == expected
      then (do tier ← verified src dst checksum; commit dst tier expected replaced)
      else abandon dst (size_mismatch dst expected written)

  unfoldable pub copy_by_stream :
      FilePath → FilePath → ℕ → Bool → Bool → Exec World TransferError Outcome
  copy_by_stream src dst expected replaced checksum = do
    from ← resume_offset host journal dst (temp_path_for dst) expected checksum
    lift_err io (
        record_entry host journal (record {
          source = src;
          destination = dst;
          temp = temp_path_for dst;
          expected_size = expected;
          bytes_done = from;
          checksum_requested = checksum;
        }))
    written ← attempt (stream host src (temp_path_for dst) from expected)
    check_size src dst expected replaced checksum written

  abbrev pub on_clone :
      FilePath → FilePath → ℕ → Bool → Bool → Result IoError Bool → Exec World TransferError Outcome
  on_clone src dst expected replaced checksum (ok true) = commit_clone dst expected replaced
  on_clone src dst expected replaced checksum _ = copy_by_stream src dst expected replaced checksum

  -- The transfer to the resolved destination, by the fast path where there is one.
  unfoldable pub copy_to : FilePath → FilePath → ℕ → Bool → Bool → Exec World TransferError Outcome
  copy_to src dst expected replaced checksum = do
    same ← lift_err io (same_filesystem host src dst)
    if same
        then (do
          r ← attempt (try_reflink_into_temp host src (temp_path_for dst))
          on_clone src dst expected replaced checksum r)
        else copy_by_stream src dst expected replaced checksum

  abbrev pub on_resolved :
      FilePath → ℕ → Bool → Options → Option FilePath → Exec World TransferError Outcome
  on_resolved src expected existed opts none = pure skipped_existing
  on_resolved src expected existed opts (some dst) =
      copy_to src dst expected (existed && is_replace opts.on_conflict) opts.checksum

  unfoldable pub copy_file_with : FilePath → FilePath → Options → Exec World TransferError Outcome
  copy_file_with src dst opts = do
    meta ← lift_err io (stat host src)
    existed ← exists host dst
    target ← resolve_conflict host existed opts.on_conflict dst
    on_resolved src (node_len host meta) existed opts target
