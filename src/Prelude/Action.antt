-- ===== src/Prelude/Action.antt =====
-- Fallible code that changes a state. What was done before an error stays done, so the state comes
-- back beside the error too.
pub mod Post
pub mod Done
use mathlib.Core.Bool.{Bool, true, false}

pub data Result (E A : Type 0) : Type 0 where
  ok : A → Result E A
  err : E → Result E A

abbrev pub is_ok : {E A : Type 0} → Result E A → Bool
is_ok (ok a) = true
is_ok (err e) = false

-- `map_err`, which `?` makes with `From`.
abbrev pub map_err : {E F A : Type 0} → (E → F) → Result E A → Result F A
map_err f (ok a) = ok a
map_err f (err e) = err (f e)

abbrev pub Exec : Type 0 → Type 0 → Type 0 → Type 0
Exec S E A = S → Result E A × S

module _ {S E A : Type 0} where
  unfoldable pub pure : A → Exec S E A
  pure a s = (ok a, s)

  unfoldable pub raise : E → Exec S E A
  raise e s = (err e, s)

  -- The call whose result the code looks at itself, instead of passing an error on by `?`.
  unfoldable pub attempt : {F : Type 0} → Exec S F A → Exec S E (Result F A)
  attempt m s = let (r, t) = m s in (ok r, t)

  -- `let _ = …`.
  unfoldable pub discard : {F : Type 0} → Exec S F A → Exec S E (Unit {0})
  discard m s = let (r, t) = m s in (ok tt, t)

  unfoldable pub lift_err : {F : Type 0} → (F → E) → Exec S F A → Exec S E A
  lift_err f m s = let (r, t) = m s in (map_err f r, t)

module _ {S E A B : Type 0} where
  abbrev pub continue : Result E A → (A → Exec S E B) → Exec S E B
  continue (ok a) f s = f a s
  continue (err e) f s = (err e, s)

  infixl 5 ◌>>=◌ ◌>>◌
  unfoldable pub ◌>>=◌ : Exec S E A → (A → Exec S E B) → Exec S E B
  ◌>>=◌ m f s = let (r, t) = m s in continue r f t

  abbrev pub ◌>>◌ : Exec S E A → Exec S E B → Exec S E B
  m >> n = m >>= λ _. n
