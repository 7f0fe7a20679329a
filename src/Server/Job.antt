-- ===== src/Server/Job.antt =====
-- daemon/src/server.rs: `start_job`, the thread that it starts, and `file_name_of`. The paths of a
-- request are given as their components. The thread is given the journal that was opened.
pub mod Accounts
pub mod Listing
pub mod Puts
use omafile.Prelude.{
  ℕ, suc, ◌+◌, ◌-◌, ◌%◌, ◌^◌, Bytes, codes, List, [], ◌∷◌, ◌++◌, Bool, true, false, Option, none,
  some, length, decimal, ltb, ◌==◌, nat_eq, if◌then◌else◌, Result, ok, err, Exec, pure, attempt,
  ◌>>=◌, ◌>>◌,
}
use omafile.Paths.{FilePath, display, child}
use omafile.Error.{IoError, TransferError, error_text}
use omafile.Host.Machine.{Node, World, Host, Phase, copying, Report}
use omafile.Host.Calls.{stat, node_len}
use omafile.Journal.{Journal}
use omafile.Engine.Types.{Conflict, Options, Outcome}
use omafile.Engine.Stream.{add64}
use omafile.Engine.Copy.{copy_file_with}
use omafile.Engine.Move.{move_file_with}
use omafile.Server.Protocol.{Landed, JobView}
use omafile.Server.Tally.{
  Tally, Completion, no_files, len_or_zero, record_outcome, files_done, finish,
}

abbrev pub file_name_of : FilePath → Bytes
file_name_of [] = display []
file_name_of (name ∷ dir) = name

-- `PathBuf::from(destination_dir).join(name)`: a path joined with the root is the root.
abbrev pub joined : FilePath → FilePath → FilePath
joined dir [] = []
joined dir (name ∷ _) = child dir name

abbrev pub first_source : List FilePath → FilePath
first_source [] = []
first_source (source ∷ rest) = source

abbrev pub first_name : List FilePath → Bytes
first_name [] = []
first_name (source ∷ rest) = file_name_of source

-- A `u32` difference.
unfoldable pub sub32 : ℕ → ℕ → ℕ
sub32 a b = (a + (2 ^ 32 - b % 2 ^ 32)) % 2 ^ 32

-- `as u32`
abbrev pub as_u32 : ℕ → ℕ
as_u32 n = n % 2 ^ 32

abbrev pub share : ℕ → ℕ → ℕ × ℕ
share bytes expected = if ltb 0 expected then (bytes, expected) else (0, 1)

-- What the thread was started with.
pub record Order : Type 0 where
  pub job : Bytes
  pub sources : List FilePath
  pub destination_dir : FilePath
  pub opts : Options
  pub is_move : Bool

unfoldable pub job_label : List FilePath → Bytes
job_label sources =
    if as_u32 (length sources) == 1
    then first_name sources
    else decimal (as_u32 (length sources)) ++ codes " files"

unfoldable pub base_view : Order → ℕ → JobView
base_view order expected_total = record {
  job = order.job;
  label = job_label order.sources;
  file = first_name order.sources;
  source = first_source order.sources;
  destination = order.destination_dir;
  phase = some copying;
  done = (0, 1);
  files_done = 0;
  files_total = as_u32 (length order.sources);
  files_skipped = 0;
  files_replaced = 0;
  files_skipped_existing = 0;
  bytes = 0;
  expected = expected_total;
  outcome = none;
  tier = none;
  strength = none;
  detail = none;
  landed_as = [];
  error = none;
}

-- The view while a file is worked on.
unfoldable pub file_view : JobView → FilePath → Tally → JobView
file_view base source tally = record base {
  file = file_name_of source;
  source = source;
  files_done = files_done tally;
  files_replaced = tally.replaced_files;
  files_skipped_existing = tally.skipped_files;
}

-- The progress callback's view of one report of the engine.
unfoldable pub progress_view : JobView → ℕ → Report → JobView
progress_view view bytes_before r = record view {
  phase = some r.phase;
  bytes = add64 bytes_before r.done;
  done = share (add64 bytes_before r.done) view.expected;
}

-- The view of a job that stopped at a file.
unfoldable pub failed_view : (IoError → Bytes) → JobView → ℕ → TransferError → Tally → JobView
failed_view io_text view index e tally = record view {
  phase = none;
  outcome = some (codes "failed");
  error = some (error_text io_text e);
  files_done = files_done tally;
  files_skipped = sub32 (sub32 view.files_total (as_u32 index)) 1;
  bytes = tally.bytes;
  landed_as = tally.landed_files;
  done = share tally.bytes view.expected;
}

-- The view of a job that came to the end of its files.
unfoldable pub done_view : JobView → Tally → JobView
done_view base tally =
    let completion = finish tally in
    record base {
      phase = none;
      done = (1, 1);
      files_done = files_done tally;
      bytes = tally.bytes;
      outcome = some completion.outcome;
      tier = some completion.tier;
      strength = completion.strength_rank;
      detail = some completion.detail_text;
      files_replaced = tally.replaced_files;
      files_skipped_existing = tally.skipped_files;
      landed_as = tally.landed_files;
    }

-- The view of a job whose journal could not be opened.
unfoldable pub unopened_view : (IoError → Bytes) → JobView → IoError → JobView
unopened_view io_text base e = record base {
  outcome = some (codes "failed");
  error = some (io_text e);
  files_skipped = base.files_total;
}

module _ (host : Host) (io_text : IoError → Bytes) where
  -- The sizes of the sources, summed; a source that is not there counts nothing.
  unfoldable pub expected_size : {E : Type 0} → List FilePath → ℕ → Exec World E ℕ
  expected_size [] total = pure total
  expected_size (source ∷ rest) total = do
    r ← attempt (stat host source)
    expected_size rest (add64 total (len_or_zero host r))

  module _ (journal : Journal) (order : Order) (base : JobView) where
    unfoldable pub transfer : FilePath → Exec World TransferError Outcome
    transfer source =
        if order.is_move
        then move_file_with host journal source (joined order.destination_dir source) order.opts
        else copy_file_with host journal source (joined order.destination_dir source) order.opts

    -- The loop over the sources from an index on, to the view that the job ends with.
    unfoldable pub run_files : {E : Type 0} → List FilePath → ℕ → Tally → Exec World E JobView
    run_files [] index tally = pure (done_view base tally)
    run_files (source ∷ rest) index tally = do
      r ← attempt (transfer source)
      elim r [
        | ok outcome ↦
            (record_outcome host (file_name_of source) outcome tally >>= λ tally'.
            run_files rest (suc index) tally')
        | err e ↦ pure (failed_view io_text (file_view base source tally) index e tally)
      ]

  -- The thread, to the view that it leaves in the registry.
  unfoldable pub run_job :
      {E : Type 0} → Result IoError Journal → Order → JobView → Exec World E JobView
  run_job (err e) order base = pure (unopened_view io_text base e)
  run_job (ok journal) order base =
      run_files journal order base order.sources 0 (no_files order.is_move)

  -- From the request on.
  unfoldable pub start_job : {E : Type 0} → Result IoError Journal → Order → Exec World E JobView
  start_job opened order = do
    expected_total ← expected_size order.sources 0
    run_job opened order (base_view order expected_total)
