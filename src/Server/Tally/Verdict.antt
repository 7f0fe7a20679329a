-- ===== src/Server/Tally/Verdict.antt =====
-- What a finished job claims is what its files, taken together, allow.
use omafile.Prelude.{
  ℕ, suc, ◌+◌, ◌<◌, ◌^◌, Bytes, codes, List, [], ◌∷◌, Bool, ◌&&◌, Option, none, some, length, min,
  ltb, ◌==◌, nat_eq, if◌then◌else◌, Result, ok, err, Exec, pure, ◌>>=◌, ◌≡◌, ◌≢◌, refl, sym, ap,
  ◌∙◌, arith,
}
use omafile.Prelude.Action.Post.{Post, bind-Post, pure-Post, attempt-bind-Post}
use omafile.Tier.{VerificationTier, strength, weakest, shared_extents, checksummed, size_checked}
use omafile.Host.Machine.{World, Host}
use omafile.Host.Calls.{stat}
use omafile.Engine.Types.{Outcome, moved, copied, skipped_existing}
use omafile.Server.Tally.{
  Tally, Completion, no_files, count, record_outcome, finish, add32, weaker, with_tier, len_or_zero,
}

-- The numbers of files that were moved and copied, and the rank of the weakest copy.
abbrev pub moves : List (Bytes × Outcome) → ℕ
moves [] = 0
moves ((asked, moved p) ∷ os) = suc (moves os)
moves ((asked, _) ∷ os) = moves os

abbrev pub copies : List (Bytes × Outcome) → ℕ
copies [] = 0
copies ((asked, copied tier bytes replaced p) ∷ os) = suc (copies os)
copies ((asked, _) ∷ os) = copies os

abbrev pub least : Option ℕ → ℕ → ℕ
least none n = n
least (some m) n = min m n

-- From the weakest so far on.
abbrev pub weakest_rank : Option ℕ → List (Bytes × Outcome) → Option ℕ
weakest_rank m [] = m
weakest_rank m ((asked, copied tier bytes replaced p) ∷ os) =
    weakest_rank (some (least m (strength tier))) os
weakest_rank m ((asked, _) ∷ os) = weakest_rank m os

abbrev verdict_from : Option ℕ → ℕ → Bytes × Option ℕ
verdict_from (some rank) n = (codes "copied", some rank)
verdict_from none n = (if ltb 0 n then codes "moved" else codes "skipped", none)

-- One copied file makes the job a copy, of the weakest copy's rank; else one moved file makes it a
-- move; else it is a skip.
abbrev pub verdict : List (Bytes × Outcome) → Bytes × Option ℕ
verdict os = verdict_from (weakest_rank none os) (moves os)

abbrev pub claim : Completion → Bytes × Option ℕ
claim c = (c.outcome, c.strength_rank)

-- All outcomes recorded, in order.
unfoldable pub record_all :
    {E : Type 0} → Host → List (Bytes × Outcome) → Tally → Exec World E Tally
record_all host [] t = pure t
record_all host ((asked, outcome) ∷ os) t = do
  t' ← record_outcome host asked outcome t
  record_all host os t'

abbrev rank : Option VerificationTier → Option ℕ
rank none = none
rank (some tier) = some (strength tier)

strength-weakest : (a b : VerificationTier) → strength (weakest a b) ≡ min (strength a) (strength b)
unfolding strength weakest
strength-weakest shared_extents shared_extents = refl
strength-weakest shared_extents checksummed = refl
strength-weakest shared_extents size_checked = refl
strength-weakest checksummed shared_extents = refl
strength-weakest checksummed checksummed = refl
strength-weakest checksummed size_checked = refl
strength-weakest size_checked shared_extents = refl
strength-weakest size_checked checksummed = refl
strength-weakest size_checked size_checked = refl

rank-weaker :
    (o : Option VerificationTier) (tier : VerificationTier)
    → strength (weaker o tier) ≡ least (rank o) (strength tier)
rank-weaker none tier = refl
rank-weaker (some w) tier = strength-weakest w tier

room :
    (asked : Bytes) (o : Outcome) (n : ℕ) (t : Tally) (size : ℕ)
    → t.moved_files + (t.copied_files + suc n) < 2 ^ 32
    → (count size asked o t).moved_files + ((count size asked o t).copied_files + n) < 2 ^ 32
unfolding count add32
room asked (moved p) n t size h = omega arith
room asked (copied tier bytes replaced p) n t size h = omega arith
room asked skipped_existing n t size h = omega arith

copied_rank : (m : ℕ) (os : List (Bytes × Outcome)) → weakest_rank (some m) os ≢ none
copied_rank m [] e = cc
copied_rank m ((asked, moved p) ∷ os) e = copied_rank m os e
copied_rank m ((asked, copied tier bytes replaced p) ∷ os) e =
    copied_rank (min m (strength tier)) os e
copied_rank m ((asked, skipped_existing) ∷ os) e = copied_rank m os e

none_copied : (os : List (Bytes × Outcome)) → copies os ≡ 0 → weakest_rank none os ≡ none
none_copied [] h = refl
none_copied ((asked, moved p) ∷ os) h = none_copied os h
none_copied ((asked, copied tier bytes replaced p) ∷ os) h = absurd (omega arith)
none_copied ((asked, skipped_existing) ∷ os) h = none_copied os h

no_rank : (os : List (Bytes × Outcome)) → weakest_rank none os ≡ none → copies os ≡ 0
no_rank [] e = refl
no_rank ((asked, moved p) ∷ os) e = no_rank os e
no_rank ((asked, copied tier bytes replaced p) ∷ os) e = absurd (copied_rank (strength tier) os e)
no_rank ((asked, skipped_existing) ∷ os) e = no_rank os e

none-some : {n : ℕ} → Option.none ≢ some n
none-some e = cc

-- Where a copied file and a rank go together, what `finish` tests is what the verdict tests.
finish-claim :
    (t : Tally)
    → (t.copied_files ≡ 0 → rank t.weakest_tier ≡ none)
    → (rank t.weakest_tier ≡ none → t.copied_files ≡ 0)
    → claim (finish t) ≡ verdict_from (rank t.weakest_tier) t.moved_files
unfolding finish
finish-claim t k j = go t.weakest_tier k j
  where
    go :
        (o : Option VerificationTier)
        → (t.copied_files ≡ 0 → rank o ≡ none)
        → (rank o ≡ none → t.copied_files ≡ 0)
        → claim (
            if ltb 0 t.moved_files && t.copied_files == 0
            then record {
              outcome = codes "moved";
              tier = codes "Moved";
              detail_text = codes "same filesystem - nothing was copied";
              strength_rank = none;
            }
            else with_tier t o)
          ≡ verdict_from (rank o) t.moved_files
    go (some tier) k j =
        let copied_one : t.copied_files ≢ 0 = λ e. absurd (none-some (sym (k e))) in ground arith
    go none k j = let zero_copied : t.copied_files ≡ 0 = j refl in ground arith

module _ (E : Type 0) (host : Host) where
  abbrev pub CountedAs : Bytes → Outcome → Tally → Result E Tally → World → Type 0
  CountedAs asked o t (ok t') u = (size : ℕ) × (t' ≡ count size asked o t)
  CountedAs asked o t (err e) u = ⊥

  pub record_outcome-CountedAs :
      (asked : Bytes) (o : Outcome) (t : Tally) (w : World)
      → Post (CountedAs asked o t) (record_outcome host asked o t) w
  unfolding record_outcome
  record_outcome-CountedAs asked (moved p) t w =
      attempt-bind-Post (λ _ _. Unit {0}) (CountedAs asked (moved p) t) (stat host p) _ w tt
        (λ r u _. pure-Post (CountedAs asked (moved p) t) _ u (len_or_zero host r, refl))
  record_outcome-CountedAs asked (copied tier bytes replaced p) t w =
      pure-Post (CountedAs asked (copied tier bytes replaced p) t) _ w (0, refl)
  record_outcome-CountedAs asked skipped_existing t w =
      pure-Post (CountedAs asked skipped_existing t) _ w (0, refl)

  -- The tally after the files, from a tally on.
  abbrev Sums : List (Bytes × Outcome) → Tally → Result E Tally → World → Type 0
  Sums os t (ok t') u =
      (t'.moved_files ≡ t.moved_files + moves os)
      × ((t'.copied_files ≡ t.copied_files + copies os)
          × (rank t'.weakest_tier ≡ weakest_rank (rank t.weakest_tier) os))
  Sums os t (err e) u = ⊥

  Sums-step :
      (asked : Bytes) (o : Outcome) (os : List (Bytes × Outcome)) (t : Tally) (size : ℕ)
      (r : Result E Tally) (u : World)
      → t.moved_files + (t.copied_files + suc (length os)) < 2 ^ 32
      → Sums os (count size asked o t) r u
      → Sums ((asked, o) ∷ os) t r u
  unfolding count add32
  Sums-step asked (moved p) os t size (ok t') u h (a, (b, c)) = (omega arith, (b, c))
  Sums-step asked (copied tier bytes replaced p) os t size (ok t') u h (a, (b, c)) =
      (a, (omega arith, c ∙ ap (λ n. weakest_rank (some n) os) (rank-weaker t.weakest_tier tier)))
  Sums-step asked skipped_existing os t size (ok t') u h (a, (b, c)) = (a, (b, c))
  Sums-step asked o os t size (err e) u h bad = bad

  record_all-Sums :
      (os : List (Bytes × Outcome)) (t : Tally) (w : World)
      → t.moved_files + (t.copied_files + length os) < 2 ^ 32
      → Post (Sums os t) (record_all host os t) w
  unfolding record_all
  record_all-Sums [] t w h = pure-Post (Sums [] t) t w (omega arith, (omega arith, refl))
  record_all-Sums ((asked, o) ∷ os) t w h =
      bind-Post (CountedAs asked o t) (Sums ((asked, o) ∷ os) t) _ _ w
        (record_outcome-CountedAs asked o t w)
        (λ t' u (size, e). rw e (
          Sums-step asked o os t size _ _ h
            (record_all-Sums os (count size asked o t) u (room asked o (length os) t size h))))
        (λ e u bad. bad)

  abbrev pub Claims : Bytes × Option ℕ → Result E Tally → World → Type 0
  Claims v (ok t) u = claim (finish t) ≡ v
  Claims v (err e) u = ⊥

  summed :
      (os : List (Bytes × Outcome)) (is_move : Bool) (r : Result E Tally) (u : World)
      → Sums os (no_files is_move) r u
      → Claims (verdict os) r u
  summed os is_move (ok t) u (a, (b, c)) =
      let all_moved : t.moved_files ≡ moves os = omega (arith, a) in
      finish-claim t (λ e. c ∙ none_copied os (omega (arith, b, e)))
        (λ e. omega (arith, b, no_rank os (sym c ∙ e)))
      ∙ rw (c, all_moved) refl
  summed os is_move (err e) u bad = bad

  -- The outcome and the rank that a finished job claims, its files' outcomes recorded one by one in
  -- the counters and the running weakest tier, are the verdict on all its files: a copy of the
  -- weakest copied file's rank if any file was copied, else a move if any was moved, else a skip.
  pub record_all-finish :
      (os : List (Bytes × Outcome)) (is_move : Bool) (w : World)
      → length os < 2 ^ 32
      → Post (Claims (verdict os)) (record_all host os (no_files is_move)) w
  record_all-finish os is_move w h =
      summed os is_move _ _ (record_all-Sums os (no_files is_move) w (omega arith))
