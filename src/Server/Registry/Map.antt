-- ===== src/Server/Registry/Map.antt =====
-- daemon/src/server.rs: the registry, as its clients see it, is a map from jobs to their last views.
use omafile.Prelude.{
  ◌≤◌, Bytes, List, [], ◌∷◌, false, Option, none, some, ◌==◌, list_eq, nat_eq, ==_iff, Bool-cases,
  if◌then◌else◌, ◌≡◌, inl, inr, refl, sym, ◌∙◌, arith,
}
use omafile.Server.Protocol.{JobView}
use omafile.Server.Registry.{Shared, insert, without, put, remove, views_of, IsKeyed, put-IsKeyed}

pub data Change : Type 0 where
  stored : JobView → Change
  released : Bytes → Change

-- The view of a job in a list of views.
unfoldable pub lookup : Bytes → List JobView → Option JobView
lookup job [] = none
lookup job (j ∷ js) = let rest = lookup job js in if j.job == job then some j else rest

abbrev pub Views : Type 0
Views = Bytes → Option JobView

-- What a change makes of a map.
abbrev pub changed : Change → Views → Views
changed (stored v) views job = if v.job == job then some v else views job
changed (released r) views job = if r == job then none else views job

abbrev pub apply : Change → Shared → Shared
apply (stored v) s = put v s
apply (released r) s = remove r s

unfoldable pub apply_all : List Change → Shared → Shared
apply_all [] s = s
apply_all (c ∷ cs) s = apply_all cs (apply c s)

unfoldable pub changed_all : List Change → Views → Views
changed_all [] views = views
changed_all (c ∷ cs) views = changed_all cs (changed c views)

lookup-insert :
    (job : Bytes) (v : JobView) (js : List JobView)
    → lookup job (insert v js) ≡ changed (stored v) (λ x. lookup x js) job
unfolding lookup insert
lookup-insert job v [] = refl
lookup-insert job v (j ∷ js) = elim (Bool-cases (j.job == v.job)) [
  | inl e ↦ rw (e, (==_iff j.job v.job).0 e) ground arith
  | inr e ↦
      rw (e, lookup-insert job v js)
        (elim (Bool-cases (v.job == job)) [
          | inl f ↦
              let other : (j.job == job) ≡ false = rw (sym ((==_iff v.job job).0 f)) e in
              rw (f, other) refl
          | inr f ↦ rw f refl
        ])
]

lookup-without :
    (job r : Bytes) (js : List JobView)
    → lookup job (without r js) ≡ changed (released r) (λ x. lookup x js) job
unfolding lookup without
lookup-without job r [] = ground arith
lookup-without job r (j ∷ js) = elim (Bool-cases (j.job == r)) [
  | inl e ↦ rw (e, lookup-without job r js, (==_iff j.job r).0 e) ground arith
  | inr e ↦
      rw (e, lookup-without job r js)
        (elim (Bool-cases (r == job)) [
          | inl f ↦
              let other : (j.job == job) ≡ false = rw (sym ((==_iff r job).0 f)) e in
              rw (f, other) refl
          | inr f ↦ rw f refl
        ])
]

lookup-apply :
    (job : Bytes) (c : Change) (s : Shared)
    → lookup job (apply c s).jobs ≡ changed c (λ x. lookup x s.jobs) job
unfolding put remove
lookup-apply job (stored v) s = lookup-insert job v s.jobs
lookup-apply job (released r) s = lookup-without job r s.jobs

changed-cong :
    (c : Change) (f g : Views) (job : Bytes)
    → ((x : Bytes) → f x ≡ g x)
    → changed c f job ≡ changed c g job
changed-cong (stored v) f g job h = rw (h job) refl
changed-cong (released r) f g job h = rw (h job) refl

changed_all-cong :
    (cs : List Change) (f g : Views) (job : Bytes)
    → ((x : Bytes) → f x ≡ g x)
    → changed_all cs f job ≡ changed_all cs g job
unfolding changed_all
changed_all-cong [] f g job h = h job
changed_all-cong (c ∷ cs) f g job h =
    changed_all-cong cs (changed c f) (changed c g) job (λ x. changed-cong c f g x h)

lookup_all :
    (job : Bytes) (cs : List Change) (s : Shared)
    → lookup job (apply_all cs s).jobs ≡ changed_all cs (λ x. lookup x s.jobs) job
unfolding apply_all changed_all
lookup_all job [] s = refl
lookup_all job (c ∷ cs) s =
    lookup_all job cs (apply c s)
    ∙ changed_all-cong cs (λ x. lookup x (apply c s).jobs) (changed c (λ x. lookup x s.jobs)) job
        (λ x. lookup-apply x c s)

views_of-without :
    (job r : Bytes) (js : List JobView) → views_of job (without r js) ≤ views_of job js
unfolding views_of without
views_of-without job r [] = omega arith
views_of-without job r (j ∷ js) = elim (Bool-cases (j.job == r)) [
  | inl e ↦ rw e (omega (arith, views_of-without job r js))
  | inr e ↦ rw e (omega (arith, views_of-without job r js))
]

pub apply-IsKeyed : (c : Change) (s : Shared) → IsKeyed s.jobs → IsKeyed (apply c s).jobs
unfolding remove
apply-IsKeyed (stored v) s h job = put-IsKeyed v s h job
apply-IsKeyed (released r) s h job = omega (arith, views_of-without job r s.jobs, h job)

apply_all-IsKeyed : (cs : List Change) (s : Shared) → IsKeyed s.jobs → IsKeyed (apply_all cs s).jobs
unfolding apply_all
apply_all-IsKeyed [] s h = h
apply_all-IsKeyed (c ∷ cs) s h = apply_all-IsKeyed cs (apply c s) (apply-IsKeyed c s h)

-- Whatever is put in the registry and released from it, in whatever order, it has at most one view of
-- each job if it began so, and the view of a job is what the map of jobs to views has after the same
-- changes: the last one put, unless the job was released since.
pub apply_all-changed_all :
    (cs : List Change) (s : Shared)
    → IsKeyed s.jobs
    → IsKeyed (apply_all cs s).jobs
      × ((job : Bytes)
          → lookup job (apply_all cs s).jobs ≡ changed_all cs (λ x. lookup x s.jobs) job)
apply_all-changed_all cs s h = (apply_all-IsKeyed cs s h, λ job. lookup_all job cs s)
