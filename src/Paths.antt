-- ===== src/Paths.antt =====
-- std::path as the daemon uses it. A path is absolute and lists its components, the innermost
-- first, so that `parent` and `file_name` are its tail and its head.
mod Below
pub mod Join
pub mod Name
pub mod Sibling
pub mod Text
pub use Below.{below_self, below-eq-none}
unfoldable pub use Below.{below}
use omafile.Prelude.{
  Bytes, codes, List, [], ◌∷◌, ◌++◌, Bool, true, Option, none, some, ◌==◌, list_eq, nat_eq,
  if◌then◌else◌,
}

abbrev pub FilePath : Type 0
FilePath = List Bytes

abbrev pub root : FilePath
root = []

abbrev pub parent : FilePath → Option FilePath
parent [] = none
parent (name ∷ dir) = some dir

abbrev pub file_name : FilePath → Option Bytes
file_name [] = none
file_name (name ∷ dir) = some name

-- `dir.join(name)` for a bare name.
abbrev pub child : FilePath → Bytes → FilePath
child dir name = name ∷ dir

-- `unwrap_or_default` on the file name.
abbrev pub name_or_empty : FilePath → Bytes
name_or_empty [] = []
name_or_empty (name ∷ dir) = name

-- The text of a path.
unfoldable pub display : FilePath → Bytes
display [] = codes "/"
display (name ∷ []) = b'/' ∷ name
display (name ∷ dir) = display dir ++ (b'/' ∷ name)
