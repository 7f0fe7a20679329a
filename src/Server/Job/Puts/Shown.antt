-- ===== src/Server/Job/Puts/Shown.antt =====
-- The registry shows how a job has ended.
use omafile.Prelude.{
  ℕ, Bytes, List, [], ◌∷◌, false, some, Result, ok, err, ◌==◌, list_eq, nat_eq, Bool-cases,
  if◌then◌else◌, ◌≡◌, inl, inr, refl, ap, ◌∙◌,
}
use omafile.Error.{IoError}
use omafile.Host.Machine.{World, Host}
use omafile.Journal.{Journal}
use omafile.Server.Protocol.{JobView}
use omafile.Server.Registry.{Shared, IsKeyed}
use omafile.Server.Registry.Map.{
  Change, stored, released, Views, changed, changed_all, apply_all, lookup, apply_all-changed_all,
}
use omafile.Server.Job.{Order, base_view, run_job}
use omafile.Server.Job.Puts.{thread_views}
use omafile.Server.Job.Puts.Story.{IsStory, Told, thread_views-Told}

-- The views of a job that are put, among all the changes of the registry.
abbrev pub of_job : Bytes → List Change → List JobView
of_job job [] = []
of_job job (stored v ∷ cs) = let rest = of_job job cs in if v.job == job then v ∷ rest else rest
of_job job (released r ∷ cs) = of_job job cs

abbrev pub IsHeld : Bytes → List Change → Type 0
IsHeld job [] = Unit {0}
IsHeld job (stored v ∷ cs) = IsHeld job cs
IsHeld job (released r ∷ cs) = ((r == job) ≡ false) × IsHeld job cs

untouched :
    (job : Bytes) (cs : List Change) (views : Views)
    → of_job job cs ≡ []
    → IsHeld job cs
    → changed_all cs views job ≡ views job
unfolding changed_all
untouched job [] views e held = refl
untouched job (stored v ∷ cs) views e held = elim (Bool-cases (v.job == job)) [
  | inl own ↦ absurd (cons_nil (rw own at e))
  | inr other ↦
      let same : of_job job cs ≡ [] = rw other at e in
      untouched job cs (changed (stored v) views) same held ∙ rw other refl
]
  where
    cons_nil : v ∷ of_job job cs ≡ [] → ⊥
    cons_nil bad = cc
untouched job (released r ∷ cs) views e (other, held) =
    untouched job cs (changed (released r) views) e held ∙ rw other refl

nothing_more :
    (job : Bytes) (v : JobView) (vs : List JobView) (final : JobView) (cs : List Change)
    (views : Views)
    → of_job job cs ≡ vs
    → IsHeld job cs
    → IsStory job final (v ∷ vs)
    → views job ≡ some v
    → (IsStory job final vs → changed_all cs views job ≡ some final)
    → changed_all cs views job ≡ some final
nothing_more job v [] final cs views e held (same, says) now more =
    untouched job cs views e held ∙ now ∙ ap some same
nothing_more job v (u ∷ vs) final cs views e held (says, story) now more = more story

last_shown :
    (job : Bytes) (final : JobView) (cs : List Change) (views : Views)
    → IsHeld job cs
    → IsStory job final (of_job job cs)
    → changed_all cs views job ≡ some final
unfolding changed_all
last_shown job final [] views held bad = absurd bad
last_shown job final (stored v ∷ cs) views held story = elim (Bool-cases (v.job == job)) [
  | inl own ↦
      let told : IsStory job final (v ∷ of_job job cs) = rw own at story in
      nothing_more job v (of_job job cs) final cs (changed (stored v) views) refl held told
        (rw own refl) (λ more. last_shown job final cs (changed (stored v) views) held more)
  | inr other ↦
      let told : IsStory job final (of_job job cs) = rw other at story in
      last_shown job final cs (changed (stored v) views) held told
]
last_shown job final (released r ∷ cs) views (other, held) story =
    last_shown job final cs (changed (released r) views) held story

Told-IsStory :
    (E : Type 0) (job : Bytes) (r : Result E JobView) (s : Result E (List JobView)) (v : JobView)
    (vs : List JobView)
    → Told E job r s
    → r ≡ ok v
    → s ≡ ok vs
    → IsStory job v vs
Told-IsStory E job (ok v') (ok vs') v vs told e f =
    let same : v' ≡ v = cc in let same_views : vs' ≡ vs = cc in rw (← same, ← same_views) told
Told-IsStory E job (ok v') (err x) v vs bad e f = absurd bad
Told-IsStory E job (err x) s v vs bad e f = absurd bad

-- Once a job's thread has put all its views, the registry shows the view that its run ends with,
-- whatever was put and released of other jobs meanwhile, if nobody has released the job, and the
-- registry had one view of each job.
pub thread_views_shown :
    (E : Type 0) (host : Host) (io_text : IoError → Bytes) (opened : Result IoError Journal)
    (order : Order) (expected : ℕ) (w : World) (v : JobView) (cs : List Change) (s : Shared)
    → (run_job host io_text {E = E} opened order (base_view order expected) w).0 ≡ ok v
    → (thread_views host io_text {E = E} opened order (base_view order expected) w).0
      ≡ ok (of_job order.job cs)
    → IsHeld order.job cs
    → IsKeyed s.jobs
    → lookup order.job (apply_all cs s).jobs ≡ some v
thread_views_shown E host io_text opened order expected w v cs s ran put held keyed =
    (apply_all-changed_all cs s keyed).1 order.job
    ∙ last_shown order.job v cs (λ x. lookup x s.jobs) held
        (Told-IsStory E order.job _ _ v (of_job order.job cs)
          (thread_views-Told E host io_text opened order expected w) ran put)
