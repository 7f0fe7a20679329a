-- ===== src/Server/Job/Puts/Story.antt =====
-- What a job's views say, one after the other.
use omafile.Prelude.{
  ℕ, suc, Bytes, List, [], ◌∷◌, ◌++◌, Bool, true, false, map, Result, ok, err, Exec, pure, attempt,
  ◌>>=◌, ◌≡◌, refl, arith,
}
use omafile.Prelude.Action.{continue}
use omafile.Paths.{FilePath}
use omafile.Error.{IoError, TransferError}
use omafile.Host.Machine.{World, Host, Report}
use omafile.Journal.{Journal}
use omafile.Engine.Types.{Outcome}
use omafile.Server.Protocol.{JobView}
use omafile.Server.Registry.{is_terminal}
use omafile.Server.Tally.{Tally, no_files, record_outcome}
use omafile.Server.Tally.Verdict.{CountedAs, record_outcome-CountedAs}
use omafile.Server.Job.{
  file_name_of, Order, base_view, file_view, progress_view, failed_view, done_view, unopened_view,
  transfer, run_files, run_job,
}
use omafile.Server.Job.Puts.{with_reports, progress_views, file_views, thread_views}

abbrev Says : Bytes → Bool → JobView → Type 0
Says job ended v = (v.job ≡ job) × (is_terminal v ≡ ended)

-- All the views are of the job; only the last says that it has ended, and it is the one given.
abbrev pub IsStory : Bytes → JobView → List JobView → Type 0
IsStory job final [] = ⊥
IsStory job final (v ∷ []) = (v ≡ final) × Says job true v
IsStory job final (v ∷ (u ∷ vs)) = Says job false v × IsStory job final (u ∷ vs)

IsStory-cons :
    (job : Bytes) (final v : JobView) (vs : List JobView)
    → Says job false v
    → IsStory job final vs
    → IsStory job final (v ∷ vs)
IsStory-cons job final v [] h bad = absurd bad
IsStory-cons job final v (u ∷ vs) h story = (h, story)

module _ (base : JobView) (runs : is_terminal base ≡ false) (source : FilePath) (tally : Tally)
    (rest : List JobView) (final : JobView) where
  progress_views-IsStory :
      (reports : List Report)
      → IsStory base.job final rest
      → IsStory base.job final
          (map (progress_view (file_view base source tally) tally.bytes) reports ++ rest)
  unfolding progress_view file_view is_terminal
  progress_views-IsStory [] story = story
  progress_views-IsStory (r ∷ rs) story =
      IsStory-cons base.job final (progress_view (file_view base source tally) tally.bytes r) _
        (refl, runs) (progress_views-IsStory rs story)

failed_view-Says :
    (io_text : IoError → Bytes) (base : JobView) (source : FilePath) (index : ℕ) (e : TransferError)
    (t : Tally)
    → Says base.job true (failed_view io_text (file_view base source t) index e t)
unfolding failed_view file_view is_terminal
failed_view-Says io_text base source index e t = (refl, refl)

done_view-Says : (base : JobView) (t : Tally) → Says base.job true (done_view base t)
unfolding done_view is_terminal
done_view-Says base t = (refl, ground arith)

-- Of the view that is left in the registry, and the views that are put.
abbrev pub Told : (E : Type 0) → Bytes → Result E JobView → Result E (List JobView) → Type 0
Told E job (ok v) (ok vs) = IsStory job v vs
Told E job _ _ = ⊥

module _ (E : Type 0) (host : Host) (io_text : IoError → Bytes) (journal : Journal)
    (order : Order) where
  -- More views before the ones that were put.
  Told-before :
      (base : JobView) (runs : is_terminal base ≡ false) (source : FilePath) (tally : Tally)
      (reports : List Report) (r : Result E JobView) (s : Result E (List JobView)) (w : World)
      → Told E base.job r s
      → Told E base.job r
          (continue s
            (λ more.
              pure (progress_views host io_text journal order base source tally reports ++ more))
            w).0
  unfolding pure progress_views
  Told-before base runs source tally reports (ok v) (ok vs) w h =
      progress_views-IsStory base runs source tally vs v reports h
  Told-before base runs source tally reports (ok v) (err e) w bad = absurd bad
  Told-before base runs source tally reports (err e) s w bad = absurd bad

  module _ (base : JobView) (runs : is_terminal base ≡ false) (source : FilePath)
      (rest : List FilePath) (index : ℕ) (t : Tally) (reports : List Report)
      (again : (t' : Tally) (v : World)
        → Told E base.job
            (run_files host io_text journal order base rest (suc index) t' v).0
            (file_views host io_text journal order base rest (suc index) t' v).0) where
    after_record :
        (o : Outcome) (u : World) (r : Result E Tally) (v : World)
        → CountedAs E host (file_name_of source) o t r v
        → Told E base.job
            (continue r (λ t'. run_files host io_text journal order base rest (suc index) t') v).0
            (continue r
              (λ t'. file_views host io_text journal order base rest (suc index) t' >>= λ more.
                pure (progress_views host io_text journal order base source t reports ++ more))
              v).0
    unfolding ◌>>=◌
    after_record o u (ok t') v counted =
        Told-before base runs source t reports _ _
          (file_views host io_text journal order base {E = E} rest (suc index) t' v).1 (again t' v)
    after_record o u (err e) v bad = absurd bad

    after_transfer :
        (r : Result TransferError Outcome) (u : World)
        → Told E base.job
            ((elim r as (λ _. Exec World E JobView) [
              | ok outcome ↦
                  (record_outcome host (file_name_of source) outcome t >>= λ t'.
                  run_files host io_text journal order base rest (suc index) t')
              | err e ↦ pure (failed_view io_text (file_view base source t) index e t)
            ])
              u).0
            ((elim r as (λ _. Exec World E (List JobView)) [
              | ok outcome ↦
                  (record_outcome host (file_name_of source) outcome t >>= λ t'.
                  file_views host io_text journal order base rest (suc index) t' >>= λ more.
                  pure (progress_views host io_text journal order base source t reports ++ more))
              | err e ↦ pure (
                  progress_views host io_text journal order base source t reports
                  ++ (failed_view io_text (file_view base source t) index e t ∷ []))
            ])
              u).0
    unfolding pure progress_views ◌>>=◌
    after_transfer (ok o) u =
        after_record o u _ _ (record_outcome-CountedAs E host (file_name_of source) o t u)
    after_transfer (err e) u =
        progress_views-IsStory base runs source t
          (failed_view io_text (file_view base source t) index e t ∷ []) _ reports
          (refl, failed_view-Says io_text base source index e t)

  file_views-Told :
      (base : JobView)
      → is_terminal base ≡ false
      → (sources : List FilePath) (index : ℕ) (t : Tally) (w : World)
      → Told E base.job
          (run_files host io_text journal order base sources index t w).0
          (file_views host io_text journal order base sources index t w).0
  unfolding run_files file_views with_reports attempt pure ◌>>=◌
  file_views-Told base runs [] index t w = (refl, done_view-Says base t)
  file_views-Told base runs (source ∷ rest) index t w =
      after_transfer base runs source rest index t _
        (λ t' v. file_views-Told base runs rest (suc index) t' v)
        (transfer host io_text journal order base source w).0
        (transfer host io_text journal order base source w).1

unopened_view-Says :
    (io_text : IoError → Bytes) (base : JobView) (e : IoError)
    → Says base.job true (unopened_view io_text base e)
unfolding unopened_view is_terminal
unopened_view-Says io_text base e = (refl, refl)

base_view-runs : (order : Order) (expected : ℕ) → is_terminal (base_view order expected) ≡ false
unfolding base_view is_terminal
base_view-runs order expected = refl

-- Whatever a job's transfers meet, and even if its journal does not open, the views that its thread
-- puts in the registry all bear the job's name; there is at least one; the last one says that the job
-- has ended and no other one does; and it is the view that the thread's run is modelled to end with.
pub thread_views-Told :
    (E : Type 0) (host : Host) (io_text : IoError → Bytes) (opened : Result IoError Journal)
    (order : Order) (expected : ℕ) (w : World)
    → Told E order.job
        (run_job host io_text opened order (base_view order expected) w).0
        (thread_views host io_text opened order (base_view order expected) w).0
unfolding run_job thread_views pure base_view
thread_views-Told E host io_text (ok journal) order expected w =
    file_views-Told E host io_text journal order (base_view order expected)
      (base_view-runs order expected) order.sources 0 (no_files order.is_move) w
thread_views-Told E host io_text (err e) order expected w =
    (refl, unopened_view-Says io_text (base_view order expected) e)
