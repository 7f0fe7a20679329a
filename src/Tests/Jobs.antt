-- ===== src/Tests/Jobs.antt =====
-- A job whose only file is not there, and another job beside it.
use omafile.Prelude.{
  codes, List, [], ◌∷◌, false, some, ok, list_beq, list_eq, nat_eq, ◌≡◌, refl, pure, attempt,
  lift_err, ◌>>=◌,
}
use omafile.Paths.{FilePath}
use omafile.Error.{IoError, io, not_found}
use omafile.Host.Calls.{stat}
use omafile.Engine.Copy.{copy_file_with}
use omafile.Server.Protocol.{JobView}
use omafile.Server.Registry.Map.{Change, stored, released, apply_all, lookup}
use omafile.Server.Tally.{no_files}
use omafile.Server.Job.{Order, base_view, file_view, failed_view, run_job, run_files, transfer}
use omafile.Server.Job.Puts.{thread_views, file_views, progress_views, with_reports}
use omafile.Server.Job.Puts.Shown.{thread_views_shown}
use omafile.Tests.Machine.{ideal, journal, start}
use omafile.Tests.Transfers.{skipping}
use omafile.Tests.Serving.{io_text, view, first_state, first-IsKeyed}

abbrev gone : FilePath
gone = codes "gone" ∷ codes "s" ∷ []

abbrev order : Order
order = record {
  job = codes "j1";
  sources = gone ∷ [];
  destination_dir = codes "d" ∷ [];
  opts = skipping;
  is_move = false;
}

abbrev stopped_view : JobView
stopped_view =
    failed_view io_text (file_view (base_view order 0) gone (no_files false)) 0 (io not_found)
      (no_files false)

abbrev second : JobView
second = record view { job = codes "j2" }

abbrev changes : List Change
changes = stored second ∷ stored stopped_view ∷ released (codes "j2") ∷ []

runs :
    (run_job ideal io_text {E = IoError} (ok journal) order (base_view order 0) start).0
    ≡ ok stopped_view
unfolding run_job run_files transfer copy_file_with stat list_beq pure attempt lift_err ◌>>=◌
    base_view
runs = refl

puts :
    (thread_views ideal io_text {E = IoError} (ok journal) order (base_view order 0) start).0
    ≡ ok (stopped_view ∷ [])
unfolding thread_views file_views progress_views with_reports transfer copy_file_with stat list_beq
    pure attempt lift_err ◌>>=◌ base_view
puts = refl

thread_views_shown_example :
    lookup (codes "j1") (apply_all changes first_state).jobs ≡ some stopped_view
unfolding base_view failed_view file_view list_beq
thread_views_shown_example =
    thread_views_shown IoError ideal io_text (ok journal) order 0 start stopped_view changes
      first_state runs puts (refl, tt) first-IsKeyed
