-- ===== src/Server/Tally.antt =====
-- daemon/src/server.rs: `Tally`, `Completion` and `landed`. The messages' dash is written in ASCII.
pub mod Verdict
use omafile.Prelude.{
  ℕ, ◌+◌, ◌%◌, ◌^◌, Bytes, codes, List, [], ◌∷◌, ◌++◌, Bool, true, false, ◌&&◌, Option, none, some,
  ltb, ◌==◌, nat_eq, if◌then◌else◌, Result, ok, err, Exec, pure, attempt, ◌>>=◌,
}
use omafile.Paths.{FilePath}
use omafile.Error.{IoError}
use omafile.Tier.{VerificationTier, weakest, label, detail, strength}
use omafile.Host.Machine.{Node, World, Host}
use omafile.Host.Calls.{stat, node_len}
use omafile.Engine.Types.{Outcome, moved, copied, skipped_existing}
use omafile.Engine.Stream.{add64}
use omafile.Server.Protocol.{Landed}

-- `u32` addition.
unfoldable pub add32 : ℕ → ℕ → ℕ
add32 a b = (a + b) % 2 ^ 32

pub record Tally : Type 0 where
  pub weakest_tier : Option VerificationTier
  pub moved_files : ℕ
  pub copied_files : ℕ
  pub replaced_files : ℕ
  pub skipped_files : ℕ
  pub bytes : ℕ
  pub landed_files : List Landed
  pub is_move : Bool

-- `Tally::default()` for a verb.
abbrev pub no_files : Bool → Tally
no_files is_move = record {
  weakest_tier = none;
  moved_files = 0;
  copied_files = 0;
  replaced_files = 0;
  skipped_files = 0;
  bytes = 0;
  landed_files = [];
  is_move = is_move;
}

pub record Completion : Type 0 where
  pub outcome : Bytes
  pub tier : Bytes
  pub detail_text : Bytes
  pub strength_rank : Option ℕ

unfoldable pub landed : Bytes → FilePath → Landed
landed asked [] = record { asked = asked; name = asked }
landed asked (name ∷ dir) = record { asked = asked; name = name }

abbrev pub weaker : Option VerificationTier → VerificationTier → VerificationTier
weaker none tier = tier
weaker (some w) tier = weakest w tier

-- One file's outcome; a moved file's size is given.
unfoldable pub count : ℕ → Bytes → Outcome → Tally → Tally
count size asked (moved p) t = record t {
  moved_files = add32 t.moved_files 1;
  bytes = add64 t.bytes size;
  landed_files = t.landed_files ++ (landed asked p ∷ []);
}
count size asked (copied tier bytes replaced p) t = record t {
  copied_files = add32 t.copied_files 1;
  replaced_files = if replaced then add32 t.replaced_files 1 else t.replaced_files;
  weakest_tier = some (weaker t.weakest_tier tier);
  bytes = add64 t.bytes bytes;
  landed_files = t.landed_files ++ (landed asked p ∷ []);
}
count size asked skipped_existing t = record t { skipped_files = add32 t.skipped_files 1 }

module _ (host : Host) where
  -- `map(|m| m.len()).unwrap_or(0)`
  abbrev pub len_or_zero : Result IoError Node → ℕ
  len_or_zero (ok n) = node_len host n
  len_or_zero (err e) = 0

  unfoldable pub record_outcome : {E : Type 0} → Bytes → Outcome → Tally → Exec World E Tally
  record_outcome asked (moved p) t = do
    r ← attempt (stat host p)
    pure (count (len_or_zero r) asked (moved p) t)
  record_outcome asked other t = pure (count 0 asked other t)

unfoldable pub files_done : Tally → ℕ
files_done t = add32 t.moved_files t.copied_files

abbrev pub with_tier : Tally → Option VerificationTier → Completion
with_tier t (some tier) = record {
  outcome = codes "copied";
  tier = label tier;
  detail_text = detail tier t.bytes;
  strength_rank = some (strength tier);
}
with_tier t none = record {
  outcome = codes "skipped";
  tier = if t.is_move then codes "Nothing moved" else codes "Nothing copied";
  detail_text = codes "every file was already there - left alone as you asked";
  strength_rank = none;
}

unfoldable pub finish : Tally → Completion
finish t =
    if ltb 0 t.moved_files && t.copied_files == 0
    then record {
      outcome = codes "moved";
      tier = codes "Moved";
      detail_text = codes "same filesystem - nothing was copied";
      strength_rank = none;
    }
    else with_tier t t.weakest_tier
