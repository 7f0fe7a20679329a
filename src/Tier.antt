-- ===== src/Tier.antt =====
-- daemon/src/tier.rs: what was established about a committed file.
use omafile.Prelude.{ℕ, Bytes, codes, decimal, ◌++◌, leb, if◌then◌else◌}

pub data VerificationTier : Type 0 where
  shared_extents checksummed size_checked : VerificationTier

unfoldable pub strength : VerificationTier → ℕ
strength shared_extents = 3
strength checksummed = 2
strength size_checked = 1

unfoldable pub weakest : VerificationTier → VerificationTier → VerificationTier
unfolding strength
weakest a b = if leb (strength a) (strength b) then a else b

unfoldable pub label : VerificationTier → Bytes
label shared_extents = codes "Shared extents"
label checksummed = codes "Checksummed"
label size_checked = codes "Size checked"

-- The dash of the first text is written in ASCII.
unfoldable pub detail : VerificationTier → ℕ → Bytes
detail shared_extents bytes = codes "same data as the source - cannot diverge"
detail checksummed bytes = codes "bytes read back and matched the source"
detail size_checked bytes = decimal bytes ++ codes " bytes, exactly as expected"
