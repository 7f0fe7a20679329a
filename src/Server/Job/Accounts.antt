-- ===== src/Server/Job/Accounts.antt =====
-- A job's last view accounts for every file that was asked for.
use omafile.Prelude.{
  ℕ, suc, ◌+◌, ◌<◌, ◌≤◌, ◌^◌, Bytes, List, [], ◌∷◌, Option, none, some, length, length-append,
  Result, ok, err, pure, ◌>>=◌, ◌≡◌, refl, arith,
}
use omafile.Prelude.Action.Post.{Post, bind-Post, pure-Post, attempt-bind-Post}
use omafile.Paths.{FilePath}
use omafile.Error.{IoError, TransferError}
use omafile.Host.Machine.{World, Host}
use omafile.Journal.{Journal}
use omafile.Engine.Types.{Outcome, moved, copied, skipped_existing}
use omafile.Server.Protocol.{JobView}
use omafile.Engine.Stream.{add64}
use omafile.Host.Calls.{stat}
use omafile.Server.Tally.{len_or_zero, Tally, no_files, add32, count, record_outcome, files_done}
use omafile.Server.Tally.Verdict.{CountedAs, record_outcome-CountedAs}
use omafile.Server.Job.{
  file_name_of, sub32, Order, base_view, file_view, failed_view, done_view, expected_size, transfer,
  run_files, run_job, start_job,
}

-- The file that a job stopped at.
abbrev pub stopped_at : Option Bytes → ℕ
stopped_at none = 0
stopped_at (some e) = 1

-- Of a tally of some files: those that arrived and those left alone are all of them, and each one
-- that arrived is listed.
abbrev pub IsTallied : ℕ → Tally → Type 0
IsTallied n t =
    (t.moved_files + (t.copied_files + t.skipped_files) ≡ n)
    × ((length t.landed_files ≡ t.moved_files + t.copied_files)
        × (t.replaced_files ≤ t.copied_files))

count-IsTallied :
    (size : ℕ) (asked : Bytes) (o : Outcome) (n : ℕ) (t : Tally)
    → suc n < 2 ^ 32
    → IsTallied n t
    → IsTallied (suc n) (count size asked o t)
unfolding count add32
count-IsTallied size asked (moved p) n t h (a, (b, c)) =
    (omega arith, (omega (arith, length-append t.landed_files (_ ∷ [])), c))
count-IsTallied size asked (copied tier bytes replaced p) n t h (a, (b, c)) =
    (omega arith, (omega (arith, length-append t.landed_files (_ ∷ [])), ground arith))
count-IsTallied size asked skipped_existing n t h (a, (b, c)) = (omega arith, (b, c))

-- Every file asked for arrived, was left alone, was never attempted, or is the one that stopped the
-- job; the files that arrived are listed one by one; and no more were replaced than arrived.
abbrev pub IsAccounted : ℕ → JobView → Type 0
IsAccounted total v =
    (v.files_done + (v.files_skipped_existing + (v.files_skipped + stopped_at v.error)) ≡ total)
    × ((length v.landed_as ≡ v.files_done) × (v.files_replaced ≤ v.files_done))

done_view-IsAccounted :
    (base : JobView) (t : Tally) (total : ℕ)
    → total < 2 ^ 32
    → base.files_skipped ≡ 0
    → base.error ≡ none
    → IsTallied total t
    → IsAccounted total (done_view base t)
unfolding done_view files_done add32
done_view-IsAccounted base t total h k e (a, (b, c)) =
    (rw e (omega arith), (omega arith, omega arith))

failed_view-IsAccounted :
    (io_text : IoError → Bytes) (base : JobView) (source : FilePath) (e : TransferError) (t : Tally)
    (index total : ℕ)
    → index < total
    → total < 2 ^ 32
    → base.files_total ≡ total
    → IsTallied index t
    → IsAccounted total (failed_view io_text (file_view base source t) index e t)
unfolding failed_view file_view files_done add32 sub32
failed_view-IsAccounted io_text base source e t index total i h k (a, (b, c)) =
    (omega arith, (omega arith, omega arith))

module _ (E : Type 0) (host : Host) (io_text : IoError → Bytes) (order : Order) where
  abbrev pub EndsIn : (JobView → Type 0) → Result E JobView → World → Type 0
  EndsIn P (ok v) u = P v
  EndsIn P (err e) u = ⊥

  run_files-IsAccounted :
      (journal : Journal) (base : JobView) (total : ℕ)
      → total < 2 ^ 32
      → base.files_skipped ≡ 0
      → base.error ≡ none
      → base.files_total ≡ total
      → (sources : List FilePath) (index : ℕ) (t : Tally) (w : World)
      → index + length sources ≡ total
      → IsTallied index t
      → Post
          (EndsIn (IsAccounted total))
          (run_files host io_text journal order base sources index t)
          w
  unfolding run_files
  run_files-IsAccounted journal base total h k e f [] index t w i tallied =
      pure-Post (EndsIn (IsAccounted total)) (done_view base t) w
        (done_view-IsAccounted base t total h k e (omega (arith, tallied.0), tallied.1))
  run_files-IsAccounted journal base total h k e f (source ∷ rest) index t w i tallied =
      attempt-bind-Post (λ _ _. Unit {0}) (EndsIn (IsAccounted total))
        (transfer host io_text journal order base source) _ w tt
        (λ r u _.
          next
            (λ t' v tallied'.
              run_files-IsAccounted journal base total h k e f rest (suc index) t' v
                (omega (arith, i)) tallied')
            r u)
    where
      next :
          ((t' : Tally) (v : World)
            → IsTallied (suc index) t'
            → Post
                (EndsIn (IsAccounted total))
                (run_files host io_text journal order base rest (suc index) t')
                v)
          → (r : Result TransferError Outcome) (u : World)
          → Post
              (EndsIn (IsAccounted total))
              (elim r [
                | ok outcome ↦
                    (record_outcome host (file_name_of source) outcome t >>= λ tally'.
                    run_files host io_text journal order base rest (suc index) tally')
                | err e ↦ pure (failed_view io_text (file_view base source t) index e t)
              ])
              u
      next again (ok o) u =
          bind-Post (CountedAs E host (file_name_of source) o t) (EndsIn (IsAccounted total)) _ _ u
            (record_outcome-CountedAs E host (file_name_of source) o t u)
            (λ t' v (size, same). again t' v (
              rw same
                (count-IsTallied size (file_name_of source) o index t (omega (arith, i)) tallied)))
            (λ _ _ bad. bad)
      next again (err x) u =
          pure-Post (EndsIn (IsAccounted total))
            (failed_view io_text (file_view base source t) index x t) u
            (failed_view-IsAccounted io_text base source x t index total (omega (arith, i)) h f
              tallied)

  abbrev pub Sized : Result E ℕ → World → Type 0
  Sized (ok n) u = Unit {0}
  Sized (err e) u = ⊥

  pub expected_size-Sized :
      (sources : List FilePath) (total : ℕ) (w : World)
      → Post Sized (expected_size host io_text sources total) w
  unfolding expected_size
  expected_size-Sized [] total w = pure-Post Sized total w tt
  expected_size-Sized (source ∷ rest) total w =
      attempt-bind-Post (λ _ _. Unit {0}) Sized (stat host source) _ w tt
        (λ r u _. expected_size-Sized rest (add64 total (len_or_zero host r)) u)

  -- Whatever its transfers meet, a job of fewer than 2^32 files whose journal is open comes to an
  -- end, and its last view accounts for all of them.
  pub start_job_counted :
      (journal : Journal) (w : World)
      → length order.sources < 2 ^ 32
      → Post
          (EndsIn (IsAccounted (length order.sources)))
          (start_job host io_text (ok journal) order)
          w
  unfolding start_job run_job base_view
  start_job_counted journal w h =
      bind-Post Sized (EndsIn (IsAccounted (length order.sources))) _ _ w
        (expected_size-Sized order.sources 0 w)
        (λ total u _.
          run_files-IsAccounted journal (base_view order total) (length order.sources) h refl refl
            (omega (arith, h)) order.sources 0 (no_files order.is_move) u (omega arith)
            (omega arith, (omega arith, omega arith)))
        (λ _ _ bad. bad)
