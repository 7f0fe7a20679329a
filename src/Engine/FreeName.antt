-- ===== src/Engine/FreeName.antt =====
-- engine.rs: `free_name_beside`, and how a conflict is resolved before anything is written.
pub mod Chosen
use omafile.Prelude.{
  ℕ, zero, suc, Bytes, ◌∷◌, ◌++◌, Bool, true, false, Option, none, some, Exec, pure, raise,
  if◌then◌else◌, ◌>>=◌,
}
use omafile.Paths.{FilePath, child, name_or_empty}
use omafile.Paths.Name.{stem_and_ext}
use omafile.Prelude.{decimal}
use omafile.Error.{TransferError, io, already_exists}
use omafile.Host.Machine.{World, Host}
use omafile.Host.Calls.{dir_of, exists}
use omafile.Engine.Types.{Conflict, skip, replace, keep_both}

-- `format!("{stem}-{n}{ext}")`
unfoldable pub numbered : Bytes × Bytes → ℕ → Bytes
numbered (stem, ext) n = stem ++ (b'-' ∷ decimal n ++ ext)

module _ (host : Host) where
  -- The loop from candidate `n` on, with the rounds that are left.
  unfoldable pub first_free : FilePath → Bytes × Bytes → ℕ → ℕ → Exec World TransferError FilePath
  first_free d name zero n = raise (io already_exists)
  first_free d name (suc rounds) n = do
    taken ← exists host (child d (numbered name n))
    if taken then first_free d name rounds (suc n) else pure (child d (numbered name n))

  unfoldable pub free_name_beside : FilePath → Exec World TransferError FilePath
  unfolding first_free dir_of stem_and_ext
  free_name_beside dst = first_free (dir_of dst) (stem_and_ext (name_or_empty dst)) 9998 2

  -- The match on whether the destination existed. `none` is the early return of a skip.
  unfoldable pub resolve_conflict :
      Bool → Conflict → FilePath → Exec World TransferError (Option FilePath)
  resolve_conflict false policy dst = pure (some dst)
  resolve_conflict true skip dst = pure none
  resolve_conflict true replace dst = pure (some dst)
  resolve_conflict true keep_both dst = do beside ← free_name_beside dst; pure (some beside)
