-- ===== src/Engine/Types.antt =====
-- engine.rs: what a transfer is asked for, and what it turns out to be.
use omafile.Prelude.{ℕ, Bool, true, false}
use omafile.Paths.{FilePath}
use omafile.Tier.{VerificationTier}

pub data Conflict : Type 0 where
  skip replace keep_both : Conflict

pub record Options : Type 0 where
  pub checksum : Bool
  pub on_conflict : Conflict

pub data Outcome : Type 0 where
  moved : FilePath → Outcome
  copied : VerificationTier → ℕ → Bool → FilePath → Outcome
  skipped_existing : Outcome

-- `on_conflict == Conflict::Replace`
abbrev pub is_replace : Conflict → Bool
is_replace replace = true
is_replace _ = false
