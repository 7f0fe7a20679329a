-- ===== src/Prelude/Action/Post.antt =====
-- Postconditions of fallible code: one rule for each way to build an action.
use mathlib.Core.Path.{◌≡◌, refl, ◌∙◌}
use mathlib.Core.Bool.{Bool, true, false}
use omafile.Prelude.Tests.{if◌then◌else◌}
use omafile.Prelude.Action.{
  Exec, Result, ok, err, map_err, pure, raise, attempt, discard, lift_err, continue, ◌>>=◌,
}

-- A postcondition: what holds of the result and of the state after it.
abbrev pub Post : {S E A : Type 0} → (Result E A → S → Type 0) → Exec S E A → S → Type 0
Post Q m s = Q (m s).0 (m s).1

module _ {S E A : Type 0} where
  pub pure-Post : (Q : Result E A → S → Type 0) (a : A) (s : S) → Q (ok a) s → Post Q (pure a) s
  unfolding pure
  pure-Post Q a s h = h

  pub raise-Post : (Q : Result E A → S → Type 0) (e : E) (s : S) → Q (err e) s → Post Q (raise e) s
  unfolding raise
  raise-Post Q e s h = h

  pub attempt-Post :
      {F : Type 0} (Q : Result E (Result F A) → S → Type 0) (m : Exec S F A) (s : S)
      → Post (λ r t. Q (ok r) t) m s
      → Post Q (attempt m) s
  unfolding attempt
  attempt-Post Q m s h = h

  pub discard-Post :
      {F : Type 0} (Q : Result E (Unit {0}) → S → Type 0) (m : Exec S F A) (s : S)
      → Post (λ r t. Q (ok tt) t) m s
      → Post Q (discard m) s
  unfolding discard
  discard-Post Q m s h = h

  pub lift_err-Post :
      {F : Type 0} (f : F → E) (Q : Result E A → S → Type 0) (m : Exec S F A) (s : S)
      → Post (λ r t. Q (map_err f r) t) m s
      → Post Q (lift_err f m) s
  unfolding lift_err
  lift_err-Post f Q m s h = h

module _ {S E A B : Type 0} where
  continue-Post :
      (P : Result E A → S → Type 0) (Q : Result E B → S → Type 0) (f : A → Exec S E B)
      (r : Result E A) (t : S)
      → P r t
      → ((a : A) (t : S) → P (ok a) t → Post Q (f a) t)
      → ((e : E) (t : S) → P (err e) t → Q (err e) t)
      → Q (continue r f t).0 (continue r f t).1
  continue-Post P Q f (ok a) t h on_ok on_err = on_ok a t h
  continue-Post P Q f (err e) t h on_ok on_err = on_err e t h

  -- A postcondition of the first action, and what each of its outcomes leads to.
  pub bind-Post :
      (P : Result E A → S → Type 0) (Q : Result E B → S → Type 0) (m : Exec S E A)
      (f : A → Exec S E B) (s : S)
      → Post P m s
      → ((a : A) (t : S) → P (ok a) t → Post Q (f a) t)
      → ((e : E) (t : S) → P (err e) t → Q (err e) t)
      → Post Q (m >>= f) s
  unfolding ◌>>=◌
  bind-Post P Q m f s h on_ok on_err = continue-Post P Q f (m s).0 (m s).1 h on_ok on_err

module _ {S E F A B : Type 0} where
  -- A step whose error `?` converts.
  pub lift-bind-Post :
      (P : Result F A → S → Type 0) (Q : Result E B → S → Type 0) (m : Exec S F A) (g : F → E)
      (f : A → Exec S E B) (s : S)
      → Post P m s
      → ((a : A) (t : S) → P (ok a) t → Post Q (f a) t)
      → ((e : F) (t : S) → P (err e) t → Q (err (g e)) t)
      → Post Q (lift_err g m >>= f) s
  unfolding ◌>>=◌ lift_err
  lift-bind-Post P Q m g f s h on_ok on_err = go (m s).0 (m s).1 h
    where
      go :
          (r : Result F A) (t : S)
          → P r t
          → Q (continue (map_err g r) f t).0 (continue (map_err g r) f t).1
      go (ok a) t p = on_ok a t p
      go (err e) t p = on_err e t p

  -- A step whose result the code looks at itself.
  pub attempt-bind-Post :
      (P : Result F A → S → Type 0) (Q : Result E B → S → Type 0) (m : Exec S F A)
      (f : Result F A → Exec S E B) (s : S)
      → Post P m s
      → ((r : Result F A) (t : S) → P r t → Post Q (f r) t)
      → Post Q (attempt m >>= f) s
  unfolding ◌>>=◌ attempt
  attempt-bind-Post P Q m f s h next = next (m s).0 (m s).1 h

  pub discard-bind-Post :
      (P : S → Type 0) (Q : Result E B → S → Type 0) (m : Exec S F A) (f : Unit {0} → Exec S E B)
      (s : S)
      → Post (λ r t. P t) m s
      → ((t : S) → P t → Post Q (f tt) t)
      → Post Q (discard m >>= f) s
  unfolding ◌>>=◌ discard
  discard-bind-Post P Q m f s h next = next (m s).1 h

-- An action that leaves a view of the state as it was, whether it returns or fails.
pub record Keeps {S E A V : Type 0} (view : S → V) (m : Exec S E A) : Type 0 where
  pub at : (s : S) → view (m s).1 ≡ view s

module _ {S E A V : Type 0} {view : S → V} where
  pub Keeps-pure : (a : A) → Keeps {E = E} view (pure a)
  unfolding pure
  Keeps-pure a = record { at = λ s. refl }

  pub Keeps-raise : (e : E) → Keeps {A = A} view (raise e)
  unfolding raise
  Keeps-raise e = record { at = λ s. refl }

  pub Keeps-if :
      (b : Bool) (m n : Exec S E A) → Keeps view m → Keeps view n → Keeps view (if b then m else n)
  Keeps-if true m n km kn = km
  Keeps-if false m n km kn = kn

module _ {S E F A V : Type 0} {view : S → V} where
  pub Keeps-attempt : (m : Exec S F A) → Keeps view m → Keeps {E = E} view (attempt m)
  unfolding attempt
  Keeps-attempt m km = record { at = km.at }

  pub Keeps-discard : (m : Exec S F A) → Keeps view m → Keeps {E = E} view (discard m)
  unfolding discard
  Keeps-discard m km = record { at = km.at }

  pub Keeps-lift_err : (f : F → E) (m : Exec S F A) → Keeps view m → Keeps view (lift_err f m)
  unfolding lift_err
  Keeps-lift_err f m km = record { at = km.at }

module _ {S E A B V : Type 0} {view : S → V} where
  pub Keeps-bind :
      (m : Exec S E A) (f : A → Exec S E B)
      → Keeps view m
      → ((a : A) → Keeps view (f a))
      → Keeps view (m >>= f)
  Keeps-bind m f km kf = record {
    at = λ s.
        bind-Post (λ r t. view t ≡ view s) (λ r t. view t ≡ view s) m f s (km.at s)
          (λ a t h. (kf a).at t ∙ h) (λ e t h. h);
  }

pub ruleset keeps_rules =
    (Keeps-pure, Keeps-raise, Keeps-if, Keeps-attempt, Keeps-discard, Keeps-lift_err, Keeps-bind)
