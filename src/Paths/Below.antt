-- ===== src/Paths/Below.antt =====
-- What lies at a path or inside it.
use omafile.Prelude.{
  Bytes, List, [], ◌∷◌, Option, none, some, ◌==◌, ==_refl, list_eq, nat_eq, if◌then◌else◌, ◌≡◌, ◌≢◌,
  arith,
}

abbrev pub inside : Bytes → Option (List Bytes) → Option (List Bytes)
inside name none = none
inside name (some rest) = some (name ∷ rest)

-- `below p q` is what remains of `q` under `p`: nothing unless `q` is `p` or inside it.
unfoldable pub below : List Bytes → List Bytes → Option (List Bytes)
below p [] = if p == [] then some [] else none
below p (name ∷ dir) =
    let deeper = inside name (below p dir) in if p == name ∷ dir then some [] else deeper

pub below_self : (p : List Bytes) → below p p ≡ some []
unfolding below
below_self [] = ground (arith, ==_refl {A = List Bytes} [])
below_self (name ∷ dir) = ground (arith, ==_refl (name ∷ dir))

pub below-eq-none : (p q : List Bytes) → below p q ≡ none → p ≢ q
below-eq-none p q h e = ground (arith, below_self p)

pub below-parent :
    (p : List Bytes) (name : Bytes) (d : List Bytes) → below p (name ∷ d) ≡ none → below p d ≡ none
unfolding below
below-parent p name d h = ground arith
