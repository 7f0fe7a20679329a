-- ===== src/Paths/Sibling.antt =====
-- Paths of one directory, and paths outside a folder.
use omafile.Prelude.{
  Bytes, List, [], ◌∷◌, none, ==_ne, list_eq, nat_eq, ◌≡◌, ◌≢◌, ap, arith, length, ◌≤◌,
}
use omafile.Paths.Below.{below, below-parent, below-eq-none}

-- Nothing is inside a longer path.
pub below-eq-none_of_length : (p q : List Bytes) → length q ≤ length p → p ≢ q → below p q ≡ none
unfolding below
below-eq-none_of_length p [] h ne = ground (arith, ==_ne p [] ne)
below-eq-none_of_length p (name ∷ d) h ne = ground (
  arith,
  ==_ne p (name ∷ d) ne,
  below-eq-none_of_length p d (omega arith) (λ e. absurd (omega (arith, ap length e))),
)

pub below-root : (name : Bytes) (f : List Bytes) → below (name ∷ f) [] ≡ none
below-root name f = below-eq-none_of_length (name ∷ f) [] (omega arith) (λ e. cc)

-- What is outside a folder is outside everything in it.
pub below_child :
    (f : List Bytes) (name : Bytes) (q : List Bytes) → below f q ≡ none → below (name ∷ f) q ≡ none
unfolding below
below_child f name [] h = ground (arith, ==_ne (name ∷ f) [] (λ e. cc))
below_child f name (other ∷ d) h = ground (
  arith,
  below_child f name d (below-parent f other d h),
  ==_ne (name ∷ f) (other ∷ d) (λ e. below-eq-none f d (below-parent f other d h) (cc)),
)

-- A file in a folder is not in a directory outside that folder.
pub below_outside :
    (f : List Bytes) (name : Bytes) (d : List Bytes) (other : Bytes)
    → below f d ≡ none
    → below (name ∷ f) (other ∷ d) ≡ none
unfolding below
below_outside f name d other h =
    ground
      (arith, below_child f name d h, ==_ne (name ∷ f) (other ∷ d) (λ e. below-eq-none f d h (cc)))
