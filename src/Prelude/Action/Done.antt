-- ===== src/Prelude/Action/Done.antt =====
-- Actions that return: the rules of Post for those that do not fail.
use mathlib.Core.Path.{◌≡◌}
use omafile.Prelude.Action.{Exec, Result, ok, err, lift_err, attempt, ◌>>=◌}
use omafile.Prelude.Action.Post.{Post, bind-Post, lift-bind-Post, attempt-bind-Post}

-- The action returns, and this holds of its result and the state after it.
abbrev pub Done : {S E A : Type 0} → (A → S → Type 0) → Result E A → S → Type 0
Done P (ok a) t = P a t
Done P (err e) t = ⊥

pub Done-ok :
    {S E A : Type 0} (P : A → S → Type 0) (a : A) (r : Result E A) (t : S)
    → r ≡ ok a
    → P a t
    → Done P r t
Done-ok P a r t e h = rw e h

module _ {S E A B : Type 0} (P : A → S → Type 0) (Q : Result E B → S → Type 0) where
  pub bind-Done :
      (m : Exec S E A) (f : A → Exec S E B) (s : S)
      → Post (Done P) m s
      → ((a : A) (t : S) → P a t → Post Q (f a) t)
      → Post Q (m >>= f) s
  bind-Done m f s h next = bind-Post (Done P) Q m f s h next (λ _ _ bad. absurd bad)

module _ {S E F A B : Type 0} (P : A → S → Type 0) (Q : Result E B → S → Type 0) where
  pub lift-Done :
      (m : Exec S F A) (g : F → E) (f : A → Exec S E B) (s : S)
      → Post (Done P) m s
      → ((a : A) (t : S) → P a t → Post Q (f a) t)
      → Post Q (lift_err g m >>= f) s
  lift-Done m g f s h next = lift-bind-Post (Done P) Q m g f s h next (λ _ _ bad. absurd bad)

  -- A step whose result the code looks at itself.
  pub attempt-Done :
      (m : Exec S F A) (f : Result F A → Exec S E B) (s : S)
      → Post (Done P) m s
      → ((a : A) (t : S) → P a t → Post Q (f (ok a)) t)
      → Post Q (attempt m >>= f) s
  attempt-Done m f s h next = attempt-bind-Post (Done P) Q m f s h go
    where
      go : (r : Result F A) (t : S) → Done P r t → Post Q (f r) t
      go (ok a) t p = next a t p
      go (err e) t bad = absurd bad

module _ {S E A : Type 0} (P Q : A → S → Type 0) where
  pub Done-map :
      (m : Exec S E A) (s : S)
      → Post (Done P) m s
      → ((a : A) (t : S) → P a t → Q a t)
      → Post (Done Q) m s
  Done-map m s h next = go (m s).0 (m s).1 h
    where
      go : (r : Result E A) (t : S) → Done P r t → Done Q r t
      go (ok a) t p = next a t p
      go (err e) t bad = bad

  -- What is known of every result besides.
  pub Done-and :
      (K : Result E A → S → Type 0) (m : Exec S E A) (s : S)
      → Post (Done P) m s
      → Post K m s
      → ((a : A) (t : S) → P a t → K (ok a) t → Q a t)
      → Post (Done Q) m s
  Done-and K m s h k next = go (m s).0 (m s).1 h k
    where
      go : (r : Result E A) (t : S) → Done P r t → K r t → Done Q r t
      go (ok a) t p known = next a t p known
      go (err e) t bad known = bad
