-- ===== src/Space.antt =====
-- daemon/src/space.rs. What statvfs answers is a parameter, and so is the text of an errno.
pub mod Room
use omafile.Prelude.{ℕ, Bytes, codes, ◌++◌, ltb, ◌==◌, nat_eq, if◌then◌else◌, Result, ok, err}
use omafile.Paths.{FilePath, display}
use omafile.Error.{IoError}
use omafile.Engine.Verify.{saturating_mul}
use omafile.Server.Rename.{contains}

-- The fields of `libc::statvfs` that size a file system.
pub record StatVfs : Type 0 where
  pub f_frsize : ℕ
  pub f_bsize : ℕ
  pub f_blocks : ℕ
  pub f_bfree : ℕ
  pub f_bavail : ℕ

pub record Space : Type 0 where
  pub total : ℕ
  pub available : ℕ

-- The unit that the block counts are in.
unfoldable pub block_unit : StatVfs → ℕ
block_unit st = if ltb 0 st.f_frsize then st.f_frsize else st.f_bsize

abbrev pub space_of : FilePath → StatVfs → Result Bytes Space
space_of path st =
    if block_unit st == 0
    then err (display path ++ codes " reports no block size to count in")
    else ok (record {
      total = saturating_mul st.f_blocks (block_unit st);
      available = saturating_mul st.f_bavail (block_unit st);
    })

abbrev pub answered : (IoError → Bytes) → FilePath → Result IoError StatVfs → Result Bytes Space
answered io_text path (err e) = err (display path ++ (codes ": " ++ io_text e))
answered io_text path (ok st) = space_of path st

unfoldable pub query :
    (IoError → Bytes) → (FilePath → Result IoError StatVfs) → FilePath → Result Bytes Space
query io_text statvfs path =
    if contains 0 (display path)
    then err (display path ++ codes " is not a usable path")
    else answered io_text path (statvfs path)
