-- ===== src/Engine/Verify.antt =====
-- engine.rs: the read-back verification with its one retry.
pub mod Keeps
pub mod Agreed
pub mod Passes
use omafile.Prelude.{
  ℕ, zero, suc, ◌-◌, ◌*◌, min, Bytes, List, [], ◌∷◌, ◌++◌, Bool, true, false, length, ltb, ◌==◌,
  list_eq, nat_eq, if◌then◌else◌, Result, ok, err, Exec, pure, raise, attempt, discard, lift_err,
  ◌>>=◌, ◌>>◌,
}
use omafile.Paths.{FilePath}
use omafile.Error.{IoError, TransferError, io, checksum_mismatch}
use omafile.Host.Machine.{Node, Read, chunk, failed, verifying, World, Host}
use omafile.Host.Calls.{stat, node_len, open_read, read_tape, remove_file, report}
use omafile.Journal.{Journal, clear}
use omafile.Engine.Stream.{u64_mod, add64}

-- `saturating_mul` on `u64`.
unfoldable pub saturating_mul : ℕ → ℕ → ℕ
saturating_mul a b = min (a * b) (u64_mod - 1)

module _ (host : Host) where
  -- `seen` is what the hasher has been given.
  unfoldable pub hash_chunks : ℕ → ℕ → List Read → ℕ → Bytes → Exec World TransferError Bytes
  hash_chunks total offset [] done seen = pure (host.sha256 seen)
  hash_chunks total offset (failed e ∷ rest) done seen = raise (io e)
  hash_chunks total offset (chunk [] ∷ rest) done seen = pure (host.sha256 seen)
  hash_chunks total offset (chunk (b ∷ bs) ∷ rest) done seen = do
    if ltb 0 total
        then report verifying (add64 offset (add64 done (length (b ∷ bs)))) total
        else pure tt
    hash_chunks total offset rest (add64 done (length (b ∷ bs))) (seen ++ (b ∷ bs))

  unfoldable pub hash_file_reporting : FilePath → ℕ → ℕ → Exec World TransferError Bytes
  hash_file_reporting p total offset = do
    lift_err io (open_read host p)
    reads ← read_tape host p 0
    hash_chunks total offset reads 0 []

  -- The attempts that are left. `true` means that the digests agreed.
  unfoldable pub attempts : FilePath → FilePath → ℕ → ℕ → Exec World TransferError Bool
  attempts src temp size zero = pure false
  attempts src temp size (suc left) = do
    want ← hash_file_reporting src (saturating_mul size 2) 0
    got ← hash_file_reporting temp (saturating_mul size 2) size
    if want == got then pure true else attempts src temp size left

  abbrev pub len_or_zero : Result IoError Node → ℕ
  len_or_zero (ok n) = node_len host n
  len_or_zero (err e) = 0

  -- What follows the attempts.
  unfoldable pub judge : Journal → FilePath → FilePath → Bool → Exec World TransferError (Unit {0})
  judge journal temp dst true = pure tt
  judge journal temp dst false = do
    discard (remove_file host temp)
    discard (clear host journal dst)
    raise (checksum_mismatch dst)

  unfoldable pub verify_with_retry_reporting :
      Journal → FilePath → FilePath → FilePath → Exec World TransferError (Unit {0})
  verify_with_retry_reporting journal src temp dst = do
    r ← attempt (stat host temp)
    agreed ← attempts src temp (len_or_zero r) 2
    judge journal temp dst agreed
