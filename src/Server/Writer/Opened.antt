-- ===== src/Server/Writer/Opened.antt =====
-- daemon/src/server.rs: what the opening snapshot has told of an end is not told again.
use omafile.Prelude.{
  ℕ, Bytes, List, [], ◌∷◌, true, list_eq, nat_eq, ==_refl, Bool-cases, ◌≡◌, inl, inr, refl, sym,
  arith,
}
use omafile.Server.Protocol.{JobView}
use omafile.Server.Registry.{Shared, is_terminal, contains_job}
use omafile.Server.Writer.{finished_jobs, open_connection}
use omafile.Server.Writer.Once.{endings, write_passes, write_passes_once, AllKeyed}
use omafile.Server.Writer.Tells.{IsIn}

contains_job-cons :
    (job x : Bytes) (xs : List Bytes)
    → contains_job job xs ≡ true
    → contains_job job (x ∷ xs) ≡ true
unfolding contains_job
contains_job-cons job x xs h = ground (arith, h)

pub contains_job-finished_jobs :
    (v : JobView) (js : List JobView)
    → IsIn v js
    → is_terminal v ≡ true
    → contains_job v.job (finished_jobs js) ≡ true
unfolding finished_jobs contains_job
contains_job-finished_jobs v [] bad ended = elim bad [ ]
contains_job-finished_jobs v (j ∷ js) (inl e) ended = rw (sym e, ended, ==_refl v.job) refl
contains_job-finished_jobs v (j ∷ js) (inr h) ended =
    let more = contains_job-finished_jobs v js h ended in
    elim (Bool-cases (is_terminal j)) [
      | inl t ↦ rw t (contains_job-cons v.job j.job (finished_jobs js) more)
      | inr t ↦ rw t more
    ]

-- A client is never told by its writer of the end of a job that had ended in its opening snapshot,
-- however the registry changes afterwards, as long as it has one view of each job.
pub open_connection_silent :
    (version : Bytes) (protocol : ℕ) (s later : Shared) (v : JobView) (ss : List Shared)
    → IsIn v s.jobs
    → is_terminal v ≡ true
    → AllKeyed ss
    → endings v.job (write_passes (open_connection version protocol s later).1 ss) ≡ 0
unfolding open_connection
open_connection_silent version protocol s later v ss there ended keyed =
    let once = write_passes_once v.job (open_connection version protocol s later).1 ss keyed in
    let marked = contains_job-finished_jobs v s.jobs there ended in ground (arith, once, marked)
