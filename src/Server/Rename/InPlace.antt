-- ===== src/Server/Rename/InPlace.antt =====
-- A rename stays in its directory, takes a free name, and otherwise changes nothing.
use omafile.Prelude.{
  Bytes, codes, [], ◌∷◌, none, some, ◌==◌, list_eq, nat_eq, ==_iff, Bool-cases, Result, ok, err,
  pure, raise, lift_err, ◌>>◌, ◌≡◌, ◌⊎◌, inl, inr, refl, sym, ap, ◌∙◌, ◌||◌,
}
use omafile.Prelude.Action.Post.{Post, bind-Post, pure-Post, raise-Post, lift-bind-Post}
use omafile.Paths.{FilePath}
use omafile.Error.{IoError}
use omafile.Host.Machine.{Node, World, Host}
use omafile.Host.Calls.{exists, rename}
use omafile.Host.Keeps.{node_at, exists-Keeps}
use omafile.Host.Renamed.{Moved, rename-Moved}
use omafile.Engine.FreeName.Chosen.{StatsWork, Truthful, exists-Truthful, absent-Truthful}
use omafile.Server.Rename.Bare.{IsBare, tests-IsBare, join-IsBare}
use omafile.Server.Rename.{contains, rename_to, rename_in_place}

module _ (host : Host) (io_text : IoError → Bytes) (name : Bytes) (d : FilePath) (new_name : Bytes)
    (n : Node) (w : World) (there : node_at (name ∷ d) w ≡ some n) (works : StatsWork host) where
  abbrev AllSame : World → Type 0
  AllSame t = (x : FilePath) → node_at x t ≡ node_at x w

  -- The file is at its new name, a bare one, which was its own or free; an error has changed nothing.
  abbrev pub InPlace : Result Bytes FilePath → World → Type 0
  InPlace (ok p) t =
      IsBare new_name
      × ((p ≡ new_name ∷ d) × ((node_at p t ≡ some n) × ((p ≡ name ∷ d) ⊎ (node_at p w ≡ none))))
  InPlace (err _) t = AllSame t

  raised : (e : Bytes) (t : World) → AllSame t → Post InPlace (raise e) t
  raised e t same = raise-Post InPlace e t same

  asked :
      (p : FilePath) (t : World)
      → AllSame t
      → Post (λ r u. AllSame u × Truthful Bytes host works p r u) (exists host p) t
  asked p t same =
      (λ x. (exists-Keeps host x p).at t ∙ same x, exists-Truthful Bytes host works p t)

  module _ (bare : IsBare new_name) where
    rename_free :
        (t : World)
        → AllSame t
        → node_at (new_name ∷ d) t ≡ none
        → Post InPlace
            (do lift_err io_text (rename host (name ∷ d) (new_name ∷ d)); pure (new_name ∷ d))
            t
    rename_free t same free =
        lift-bind-Post (Moved host (name ∷ d) (new_name ∷ d) n t) InPlace _ io_text _ t
          (rename-Moved host (name ∷ d) (new_name ∷ d) n t (same (name ∷ d) ∙ there))
          (λ _ u arrived.
            pure-Post InPlace (new_name ∷ d) u
              (bare, (refl, (arrived, inr (sym (same (new_name ∷ d)) ∙ free)))))
          (λ _ u kept x. kept x ∙ same x)

    rename_to-InPlace :
        (t : World)
        → AllSame t
        → Post InPlace (rename_to host io_text (name ∷ d) new_name (new_name ∷ d)) t
    unfolding rename_to
    rename_to-InPlace t same = elim (Bool-cases (new_name ∷ d == name ∷ d)) [
      | inl own ↦ rw own (
          pure-Post InPlace (new_name ∷ d) t (
            bare,
            (
              refl,
              (
                ap (λ p. node_at p t) ((==_iff (new_name ∷ d) (name ∷ d)).0 own)
                    ∙ (same (name ∷ d) ∙ there),
                inl ((==_iff (new_name ∷ d) (name ∷ d)).0 own),
              ),
            ),
          ))
      | inr other ↦ rw other (
          bind-Post (λ r u. AllSame u × Truthful Bytes host works (new_name ∷ d) r u) InPlace _ _ t
            (asked (new_name ∷ d) t same)
            (λ taken u (same', seen). elim (Bool-cases taken) [
              | inl e ↦ rw e (raised _ u same')
              | inr e ↦ rw e (
                  rename_free u same'
                    (absent-Truthful Bytes host works (new_name ∷ d) taken u seen e))
            ])
            (λ _ u (same', _). same'))
    ]

  -- Where file names can be looked up, a rename that succeeds had a bare name for its new one, which
  -- is not empty, `.` or `..` and has no `/` and no NUL; it leaves the file whole in the same
  -- directory under that name, which was the file's own or free, so that nothing is replaced. One
  -- that is refused or fails has changed nothing.
  pub rename_in_place-InPlace : Post InPlace (rename_in_place host io_text (name ∷ d) new_name) w
  unfolding rename_in_place
  rename_in_place-InPlace = elim (Bool-cases (new_name == [])) [
    | inl e ↦ rw e (raised _ w (λ x. refl))
    | inr e ↦ rw e (elim (Bool-cases (contains b'/' new_name || contains 0 new_name)) [
      | inl f ↦ rw f (raised _ w (λ x. refl))
      | inr f ↦ rw f (elim (Bool-cases (new_name == codes "." || new_name == codes "..")) [
        | inl g ↦ rw g (raised _ w (λ x. refl))
        | inr g ↦ rw g (
            bind-Post (λ r u. AllSame u × Truthful Bytes host works (name ∷ d) r u) InPlace _ _ w
              (asked (name ∷ d) w (λ x. refl))
              (λ found u (same, _). elim (Bool-cases found) [
                | inl h ↦
                    rw (h, join-IsBare d new_name (tests-IsBare new_name e f g))
                      (rename_to-InPlace (tests-IsBare new_name e f g) u same)
                | inr h ↦ rw h (raised _ u same)
              ])
              (λ _ u (same, _). same))
      ])
    ])
  ]
