-- ===== src/Engine/Stream.antt =====
-- engine.rs: `resume_offset` and `stream`, which fills the temporary file. A `u64` sum keeps its
-- wrap-around, and the position written to is the running total.
pub mod Written
pub mod Keeps
pub mod Filled
pub mod Restarts
use omafile.Prelude.{
  ℕ, zero, suc, ◌+◌, ◌%◌, ◌^◌, List, [], ◌∷◌, Bool, true, false, not, ◌&&◌, Option, none, some,
  length, ltb, ◌==◌, list_eq, nat_eq, if◌then◌else◌, Result, ok, err, Exec, pure, raise, attempt,
  lift_err, ◌>>=◌, ◌>>◌,
}
use omafile.Paths.{FilePath}
use omafile.Error.{IoError, TransferError, io}
use omafile.Host.Machine.{Node, Read, chunk, failed, copying, World, Host, Entry}
use omafile.Host.Calls.{
  stat, node_len, create, open_write, open_read, seek, read_tape, write_all, sync_all, report,
}
use omafile.Journal.{Journal, get}

abbrev pub u64_mod : ℕ
u64_mod = 2 ^ 64

unfoldable pub add64 : ℕ → ℕ → ℕ
add64 a b = (a + b) % u64_mod

abbrev pub same_bool : Bool → Bool → Bool
same_bool true b = b
same_bool false b = not b

-- Whether the entry belongs to this destination and this request.
unfoldable pub agrees : Entry → FilePath → ℕ → Bool → Bool
agrees entry temp expected checksum =
    entry.temp == temp
    && entry.expected_size == expected
    && same_bool entry.checksum_requested checksum

module _ (host : Host) where
  abbrev pub usable : Result IoError Node → Entry → ℕ → ℕ
  usable (err e) entry expected = 0
  usable (ok n) entry expected =
      if node_len host n == entry.bytes_done && ltb (node_len host n) expected
      then node_len host n
      else 0

  abbrev pub offset_from : FilePath → ℕ → Bool → Option Entry → Exec World TransferError ℕ
  offset_from temp expected checksum none = pure 0
  offset_from temp expected checksum (some entry) =
      if agrees entry temp expected checksum
      then (do r ← attempt (stat host temp); pure (usable r entry expected))
      else pure 0

  unfoldable pub resume_offset :
      Journal → FilePath → FilePath → ℕ → Bool → Exec World TransferError ℕ
  resume_offset journal dst temp expected checksum = do
    entry ← get host journal dst
    offset_from temp expected checksum entry

  -- The loop over what the reads return. A read of no bytes ends it.
  unfoldable pub copy_chunks : FilePath → ℕ → List Read → ℕ → Exec World TransferError ℕ
  copy_chunks temp expected [] total = pure total
  copy_chunks temp expected (failed e ∷ rest) total = raise (io e)
  copy_chunks temp expected (chunk [] ∷ rest) total = pure total
  copy_chunks temp expected (chunk (b ∷ bs) ∷ rest) total = do
    lift_err io (write_all host temp total (b ∷ bs))
    report copying (add64 total (length (b ∷ bs))) expected
    copy_chunks temp expected rest (add64 total (length (b ∷ bs)))

  -- The temporary file is opened anew, or as it is to go on in it.
  unfoldable pub open_temp : FilePath → ℕ → Exec World IoError (Unit {0})
  open_temp temp zero = create host temp
  open_temp temp (suc from) = do open_write host temp; seek host; seek host

  unfoldable pub stream : FilePath → FilePath → ℕ → ℕ → Exec World TransferError ℕ
  stream src temp from expected = do
    lift_err io (open_read host src)
    lift_err io (open_temp temp from)
    reads ← read_tape host src from
    total ← copy_chunks temp expected reads from
    lift_err io (sync_all host temp)
    pure total
