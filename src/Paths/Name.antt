-- ===== src/Paths/Name.antt =====
-- A file name's stem and extension. A leading dot is part of the name.
use omafile.Prelude.{ℕ, Bytes, [], ◌∷◌, Option, none, some, ◌==◌, nat_eq, if◌then◌else◌}

-- The split at a dot that stands here, unless there is a later one.
abbrev at_dot : ℕ → Bytes → Option (Bytes × Bytes) → Option (Bytes × Bytes)
at_dot c rest (some (before, from)) = some (c ∷ before, from)
at_dot c rest none = if c == b'.' then some ([], c ∷ rest) else none

-- `name.rfind('.')`, as what stands before the last dot and what begins with it.
unfoldable pub rfind_dot : Bytes → Option (Bytes × Bytes)
rfind_dot [] = none
rfind_dot (c ∷ rest) = at_dot c rest (rfind_dot rest)

abbrev stem_of : Bytes → Option (Bytes × Bytes) → Bytes × Bytes
stem_of name none = (name, [])
stem_of name (some ([], from)) = (name, [])
stem_of name (some (c ∷ before, from)) = (c ∷ before, from)

-- The stem, and the extension with its dot.
unfoldable pub stem_and_ext : Bytes → Bytes × Bytes
unfolding rfind_dot
stem_and_ext name = stem_of name (rfind_dot name)

abbrev no_dot : Bytes → Bytes
no_dot [] = []
no_dot (c ∷ cs) = cs

-- `Path::extension`, empty if there is none.
unfoldable pub extension : Bytes → Bytes
unfolding stem_and_ext
extension name = no_dot (stem_and_ext name).1
