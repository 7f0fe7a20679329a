-- ===== src/Host/Machine.antt =====
-- What the daemon runs on: the file system that it changes, and the parts of the machine that decide
-- how each system call turns out.
use omafile.Prelude.{ℕ, Bytes, List, [], ◌∷◌, ◌++◌, Bool, Option, Result}
use omafile.Paths.{FilePath}
use omafile.Error.{IoError}

-- A file has its content and whether that content has been flushed to durable storage.
pub data Node : Type 0 where
  file : Bytes → Bool → Node
  dir : Node
  socket : Node

-- The result of one `read`: some bytes, none of them at the end of the file, or an error.
pub data Read : Type 0 where
  chunk : Bytes → Read
  failed : IoError → Read

-- protocol.rs: `Phase`.
pub data Phase : Type 0 where
  copying verifying : Phase

-- One call of the progress callback.
pub record Report : Type 0 where
  pub phase : Phase
  pub done : ℕ
  pub total : ℕ

abbrev pub Files : Type 0
Files = FilePath → Option Node

-- `clock` counts the system calls made; `reported` has the newest progress call first.
pub record World : Type 0 where
  pub files : Files
  pub clock : ℕ
  pub reported : List Report

-- journal.rs: `Entry`.
pub record Entry : Type 0 where
  pub source : FilePath
  pub destination : FilePath
  pub temp : FilePath
  pub expected_size : ℕ
  pub bytes_done : ℕ
  pub checksum_requested : Bool

-- The machine's choices, and the crates that the daemon calls. The n-th system call fails where
-- `fault n` is an error, or `stat_fault n` if it asks about a path; a `write` that fails has written
-- `torn n` bytes of what it was given.
-- `reads n content` are the results of the reads that follow call n on what is left of a file.
-- A crash after n calls is a machine on which every later call fails with no effect.
pub record Host : Type 0 where
  pub fault : ℕ → Option IoError
  pub stat_fault : ℕ → Option IoError
  pub torn : ℕ → ℕ
  pub reads : ℕ → Bytes → List Read
  pub device : FilePath → ℕ
  pub clones : ℕ → Bool
  pub dir_size : ℕ
  pub listing : ℕ → Files → FilePath → List (Result IoError FilePath)
  pub sha256 : Bytes → Bytes
  pub to_vec_pretty : Entry → Bytes
  pub from_slice : Bytes → Option Entry

-- The bytes that a row of reads delivers before the end of the file or an error.
abbrev pub payload : List Read → Bytes
payload [] = []
payload (chunk [] ∷ rest) = []
payload (chunk (b ∷ bs) ∷ rest) = (b ∷ bs) ++ payload rest
payload (failed e ∷ rest) = []

-- The error that ends a row of reads, if one does.
abbrev pub read_error : List Read → Option IoError
read_error [] = Option.none
read_error (chunk [] ∷ rest) = Option.none
read_error (chunk (b ∷ bs) ∷ rest) = read_error rest
read_error (failed e ∷ rest) = Option.some e
