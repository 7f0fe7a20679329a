-- ===== src/Server/Job/Puts.antt =====
-- daemon/src/server.rs: every view that the thread of `start_job` puts in the registry, in order: one
-- for each report of the engine, and the one that ends the job.
pub mod Story
pub mod Shown
use omafile.Prelude.{
  ℕ, suc, ◌-◌, Bytes, List, [], ◌∷◌, ◌++◌, map, length, take, Result, ok, err, Exec, pure, ◌>>=◌,
}
use omafile.Paths.{FilePath}
use omafile.Error.{IoError, TransferError}
use omafile.Host.Machine.{World, Host, Report}
use omafile.Journal.{Journal}
use omafile.Server.Protocol.{JobView}
use omafile.Server.Tally.{Tally, no_files, record_outcome}
use omafile.Server.Job.{
  file_name_of, Order, file_view, progress_view, failed_view, done_view, unopened_view, transfer,
}

abbrev oldest_first : List Report → List Report → List Report
oldest_first [] out = out
oldest_first (r ∷ rs) out = oldest_first rs (r ∷ out)

-- The result of an action, with the reports that it made.
unfoldable pub with_reports :
    {E F A : Type 0} → Exec World F A → Exec World E (Result F A × List Report)
with_reports m w =
    let (r, u) = m w in
    (ok (r, oldest_first (take (length u.reported - length w.reported) u.reported) []), u)

module _ (host : Host) (io_text : IoError → Bytes) where
  module _ (journal : Journal) (order : Order) (base : JobView) where
    -- The callback's views of a file's reports.
    unfoldable pub progress_views : FilePath → Tally → List Report → List JobView
    progress_views source tally reports =
        map (progress_view (file_view base source tally) tally.bytes) reports

    unfoldable pub file_views :
        {E : Type 0} → List FilePath → ℕ → Tally → Exec World E (List JobView)
    file_views [] index tally = pure (done_view base tally ∷ [])
    file_views (source ∷ rest) index tally = do
      made ← with_reports (transfer host io_text journal order base source)
      elim made.0 [
        | ok outcome ↦
            (record_outcome host (file_name_of source) outcome tally >>= λ tally'.
            file_views rest (suc index) tally' >>= λ more.
            pure (progress_views source tally made.1 ++ more))
        | err e ↦ pure (
            progress_views source tally made.1
            ++ (failed_view io_text (file_view base source tally) index e tally ∷ []))
      ]

  unfoldable pub thread_views :
      {E : Type 0} → Result IoError Journal → Order → JobView → Exec World E (List JobView)
  thread_views (err e) order base = pure (unopened_view io_text base e ∷ [])
  thread_views (ok journal) order base =
      file_views journal order base order.sources 0 (no_files order.is_move)
