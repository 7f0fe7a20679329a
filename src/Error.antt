-- ===== src/Error.antt =====
-- daemon/src/error.rs: what a transfer fails with, and the error kinds of std::io that the daemon
-- tells apart.
use omafile.Prelude.{ℕ, Bytes, codes, decimal, ◌++◌}
use omafile.Paths.{FilePath, display}

-- The kinds that the code looks at. Any other failure carries its errno.
pub data IoError : Type 0 where
  not_found : IoError
  already_exists : IoError
  connection_refused : IoError
  addr_in_use : IoError
  invalid_input : IoError
  invalid_data : IoError
  errno : ℕ → IoError

pub data TransferError : Type 0 where
  size_mismatch : FilePath → ℕ → ℕ → TransferError
  checksum_mismatch : FilePath → TransferError
  io : IoError → TransferError

-- `Display`, over the text that an io::Error shows. The dash of the messages is written in ASCII.
unfoldable pub error_text : (IoError → Bytes) → TransferError → Bytes
error_text io_text (size_mismatch path expected got) =
    display path
    ++ (codes ": expected "
        ++ (decimal expected
            ++ (codes " bytes, got " ++ (decimal got ++ codes " - nothing was written"))))
error_text io_text (checksum_mismatch path) =
    display path ++ codes ": checksum mismatch on retry - nothing was written"
error_text io_text (io e) = io_text e
