-- ===== src/Server/Registry.antt =====
-- daemon/src/server.rs: `Registry` and `Shared`, as one value that each thread changes under the lock. The
-- map from job to view is a list; its order, which is the HashMap's, is nothing that is relied on.
pub mod Map
use mathlib.Core.Path.{subst}
use omafile.Prelude.{
  ℕ, ◌+◌, ◌≤◌, Bytes, List, [], ◌∷◌, Bool, true, false, not, ◌||◌, Option, none, some, ◌==◌,
  list_eq, nat_eq, ==_iff, ==_refl, Bool-cases, if◌then◌else◌, ◌≡◌, inl, inr, refl, arith,
}
use omafile.Engine.Stream.{add64}
use omafile.Server.Protocol.{JobView}

pub record Shared : Type 0 where
  pub jobs : List JobView
  pub seq : ℕ
  pub next_job : ℕ
  pub revision : ℕ

abbrev pub no_jobs : Shared
no_jobs = record { jobs = []; seq = 0; next_job = 1; revision = 0 }

-- The number that `next_seq` returns, and the state after it.
unfoldable pub next_seq : Shared → ℕ × Shared
next_seq s = (s.seq, record s { seq = add64 s.seq 1 })

-- `HashMap::insert`
unfoldable pub insert : JobView → List JobView → List JobView
insert v [] = v ∷ []
insert v (j ∷ js) = let rest = insert v js in if j.job == v.job then v ∷ js else j ∷ rest

unfoldable pub without : Bytes → List JobView → List JobView
without job [] = []
without job (j ∷ js) = let rest = without job js in if j.job == job then rest else j ∷ rest

unfoldable pub put : JobView → Shared → Shared
put v s = record s { jobs = insert v s.jobs; revision = add64 s.revision 1 }

unfoldable pub remove : Bytes → Shared → Shared
remove job s = record s { jobs = without job s.jobs }

abbrev pub is_some : {A : Type 0} → Option A → Bool
is_some none = false
is_some (some a) = true

-- `j.error.is_some() || j.tier.is_some()`
unfoldable pub is_terminal : JobView → Bool
is_terminal j = is_some j.error || is_some j.tier

unfoldable pub contains_job : Bytes → List Bytes → Bool
contains_job job [] = false
contains_job job (x ∷ xs) = x == job || contains_job job xs

unfoldable pub untold : List Bytes → List JobView → List JobView
untold sent [] = []
untold sent (j ∷ js) =
    let rest = untold sent js in
    if not (is_terminal j) || not (contains_job j.job sent) then j ∷ rest else rest

unfoldable pub snapshot_for : List Bytes → Shared → List JobView
snapshot_for sent s = untold sent s.jobs

-- How many views of a job there are.
unfoldable pub views_of : Bytes → List JobView → ℕ
views_of job [] = 0
views_of job (j ∷ js) = (if j.job == job then 1 else 0) + views_of job js

-- One view for each job.
abbrev pub IsKeyed : List JobView → Type 0
IsKeyed js = (job : Bytes) → views_of job js ≤ 1

insert_other :
    (job : Bytes) (v : JobView) (js : List JobView)
    → (v.job == job) ≡ false
    → views_of job (insert v js) ≡ views_of job js
unfolding views_of insert
insert_other job v [] h = rw h refl
insert_other job v (j ∷ js) h = elim (Bool-cases (j.job == v.job)) [
  | inl same ↦ rw (same, h, (==_iff j.job v.job).0 same, h) refl
  | inr other ↦ rw other (omega (arith, insert_other job v js h))
]

insert_own :
    (v : JobView) (js : List JobView) → views_of v.job js ≤ 1 → views_of v.job (insert v js) ≤ 1
unfolding views_of insert
insert_own v [] h = rw (==_refl v.job) (omega arith)
insert_own v (j ∷ js) h = elim (Bool-cases (j.job == v.job)) [
  | inl same ↦ let one = rw same at h in rw (same, ==_refl v.job) one
  | inr other ↦
      let fewer = rw other at h in
      rw (other, other) (omega (arith, insert_own v js (omega (arith, fewer))))
]

-- A registry that has one view for each job has one after a `put` too.
pub put-IsKeyed : (v : JobView) (s : Shared) → IsKeyed s.jobs → IsKeyed (put v s).jobs
unfolding put
put-IsKeyed v s h job = elim (Bool-cases (v.job == job)) [
  | inl own ↦
      subst (λ x. views_of x (insert v s.jobs) ≤ 1) ((==_iff v.job job).0 own)
        (insert_own v s.jobs (h v.job))
  | inr other ↦ omega (arith, insert_other job v s.jobs other, h job)
]
