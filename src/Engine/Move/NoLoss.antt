-- ===== src/Engine/Move/NoLoss.antt =====
-- A move never loses the file: until it is whole at the destination, it is at the source.
use mathlib.Core.Path.{subst}
use omafile.Prelude.{
  ◌<◌, ◌^◌, Bool, true, false, Option, none, some, ◌==◌, nat_eq, ==_refl, Result, ok, err, pure,
  lift_err, ◌>>=◌, ◌>>◌, ◌≡◌, ◌≢◌, ◌⊎◌, inl, inr, sym, ap, ◌∙◌, if◌then◌else◌,
}
use omafile.Prelude.Action.Post.{Post, bind-Post, pure-Post, lift-bind-Post}
use omafile.Paths.{FilePath}
use omafile.Error.{TransferError, io}
use omafile.Host.Machine.{Node, World, Host}
use omafile.Host.Calls.{dir_of, rename, remove_file}
use omafile.Host.Keeps.{node_at, exists-Keeps, remove_file-Keeps}
use omafile.Host.Renamed.{Moved, rename-Moved}
use mathlib.Core.Bool.{false≢true}
use omafile.FsOps.Clone.{same_filesystem-Keeps, Compared, same_filesystem-Compared}
use omafile.Journal.{Journal}
use omafile.Journal.Keeps.{IsOutside}
use omafile.Engine.Types.{Options, Outcome, moved, copied, skipped_existing}
use omafile.Engine.FreeName.Chosen.{Resolved, resolve-Resolved, resolve-Keeps}
use omafile.Engine.Stream.Filled.{IsBounded}
use omafile.Engine.Copy.{copy_file_with}
use omafile.Engine.Copy.Whole.{IsWhole}
use omafile.Engine.Copy.Plain.{IsPlain, IsAside-dir}
use omafile.Engine.Copy.Safety.{size_at, LandedAt, SafeAt, copy_file-Final}
use omafile.Engine.Move.{after_copy, move_to, on_move_resolved, move_file_with}

module _ (host : Host) (journal : Journal) (src dst : FilePath) (opts : Options) (w : World)
    (n : Node) (there : node_at src w ≡ some n) (bounded : IsBounded host)
    (fits : size_at host src w < 2 ^ 63) (outside : IsOutside journal (dir_of dst))
    (src_plain : IsPlain src) (src_outside : IsOutside journal (dir_of src)) where
  -- The file at a path of the destination's directory: itself, or a whole copy.
  abbrev pub ArrivedAt : FilePath → World → Type 0
  ArrivedAt p t =
      (dir_of p ≡ dir_of dst) × ((node_at p t ≡ some n) ⊎ IsWhole (size_at host src w) p t)

  abbrev pub NotLost : World → Type 0
  NotLost t = (node_at src t ≡ some n) ⊎ ((p : FilePath) × ArrivedAt p t)

  abbrev pub MovedTo : Result TransferError Outcome → World → Type 0
  MovedTo (ok (moved p)) t = ArrivedAt p t
  MovedTo (ok (copied tier bytes replaced p)) t = ⊥
  MovedTo (ok skipped_existing) t = (x : FilePath) → node_at x t ≡ node_at x w
  MovedTo (err _) t = Unit {0}

  abbrev pub Kept : Result TransferError Outcome → World → Type 0
  Kept r t = NotLost t × MovedTo r t

  abbrev AllSame : World → Type 0
  AllSame t = (x : FilePath) → node_at x t ≡ node_at x w

  -- What the copy of a move across devices has done, from a state like the first.
  module _ (p : FilePath) (u : World) (here : dir_of p ≡ dir_of dst)
      (across : dir_of src ≢ dir_of dst) (same : (x : FilePath) → node_at x u ≡ node_at x w) where
    same_size : size_at host src u ≡ size_at host src w
    same_size = rw (same src, size_at)

    out : IsOutside journal (dir_of p)
    out = rw here outside

    fits_u : size_at host src u < 2 ^ 63
    fits_u = rw same_size fits

    ne_src : (x : FilePath) → dir_of x ≡ dir_of dst → x ≢ src
    ne_src x e h = across (sym (ap dir_of h) ∙ e)

    removed-Kept :
        (x : FilePath) (t : World)
        → dir_of x ≡ dir_of p
        → IsWhole (size_at host src u) x t
        → Post Kept (do lift_err io (remove_file host src); pure (moved x)) t
    removed-Kept x t e whole =
        let in_place : dir_of x ≡ dir_of dst = e ∙ here in
        let arrived : (v : World) → node_at x v ≡ node_at x t → ArrivedAt x v =
          λ v kept. (in_place, inr (rw (← same_size) (whole.0, kept ∙ whole.1, whole.2))) in
        lift-bind-Post (λ _ v. node_at x v ≡ node_at x t) Kept _ io _ t
          ((remove_file-Keeps host x src (ne_src x in_place)).at t)
          (λ _ v kept. pure-Post Kept (moved x) v (inr (x, arrived v kept), arrived v kept))
          (λ _ v kept. (inr (x, arrived v kept), tt))

    after_copy-Kept :
        (r : Outcome) (t : World)
        → LandedAt host journal src p opts u bounded fits_u out src_plain src src_plain
            (λ d. IsAside-dir host journal src d src_outside)
            (ok r)
            t
        → Post Kept (after_copy host journal src r) t
    unfolding after_copy
    after_copy-Kept (moved x) t h = absurd h
    after_copy-Kept skipped_existing t h =
        pure-Post Kept skipped_existing t (inl (h src ∙ (same src ∙ there)), λ x. h x ∙ same x)
    after_copy-Kept (copied tier bytes replaced x) t (e, _, whole) = removed-Kept x t e whole

    copy_branch :
        Post Kept
          (do outcome ← copy_file_with host journal src p opts; after_copy host journal src outcome)
          u
    copy_branch =
        bind-Post
          (λ r t.
            SafeAt host journal src p opts u bounded fits_u out src_plain src src_plain
              (λ d. IsAside-dir host journal src d src_outside) t
            × LandedAt host journal src p opts u bounded fits_u out src_plain src src_plain
                (λ d. IsAside-dir host journal src d src_outside) r t)
          Kept _ _ u
          (copy_file-Final host journal src p opts u bounded fits_u out src_plain src src_plain
            (λ d. IsAside-dir host journal src d src_outside))
          (λ r t (_, landed). after_copy-Kept r t landed)
          (λ _ t (safe, _). (kept_source t safe, tt))
      where
        kept_source :
            (t : World)
            → SafeAt host journal src p opts u bounded fits_u out src_plain src src_plain
                (λ d. IsAside-dir host journal src d src_outside)
                t
            → NotLost t
        kept_source t (inl kept) = inl (kept ∙ (same src ∙ there))
        kept_source t (inr (e, _, whole)) = absurd (across (e ∙ here))

  rename_branch :
      (p : FilePath) (u : World)
      → dir_of p ≡ dir_of dst
      → AllSame u
      → Post Kept (do lift_err io (rename host src p); pure (moved p)) u
  rename_branch p u here same =
      lift-bind-Post (Moved host src p n u) Kept _ io _ u
        (rename-Moved host src p n u (same src ∙ there))
        (λ _ t arrived.
          pure-Post Kept (moved p) t (inr (p, (here, inl arrived)), (here, inl arrived)))
        (λ _ t kept. (inl (kept src ∙ (same src ∙ there)), tt))

  move_to-Kept :
      (p : FilePath) (u : World)
      → dir_of p ≡ dir_of dst
      → AllSame u
      → Post Kept (move_to host journal src p opts) u
  unfolding move_to
  move_to-Kept p u here same =
      lift-bind-Post (λ r t. AllSame t × Compared host src p r t) Kept _ io _ u
        (
          λ x. (same_filesystem-Keeps host x src p).at u ∙ same x,
          same_filesystem-Compared host src p u,
        )
        (λ one t (same', told). branch one t same' told)
        (λ _ t (same', _). (inl (same' src ∙ there), tt))
    where
      branch :
          (one : Bool) (t : World)
          → ((x : FilePath) → node_at x t ≡ node_at x w)
          → one ≡ (host.device (dir_of src) == host.device (dir_of p))
          → Post Kept
              (if one then (do lift_err io (rename host src p); pure (moved p)) else (do
                outcome ← copy_file_with host journal src p opts
                after_copy host journal src outcome))
              t
      branch true t same' told = rename_branch p t here same'
      branch false t same' told =
          copy_branch p t here
            (λ e. absurd (false≢true (told ∙ rw (e, ← here) (==_refl (host.device (dir_of p))))))
            same'

  on_Resolved-Kept :
      (existed : Bool) (target : Option FilePath) (u : World)
      → AllSame u
      → Resolved host existed opts.on_conflict dst (ok target) u
      → Post Kept (on_move_resolved host journal src opts target) u
  on_Resolved-Kept existed none u same resolved =
      pure-Post Kept skipped_existing u (inl (same src ∙ there), same)
  on_Resolved-Kept existed (some p) u same (here, _) = move_to-Kept p u here same

  pub move_file-Kept : Post Kept (move_file_with host journal src dst opts) w
  unfolding move_file_with
  move_file-Kept =
      bind-Post (λ _ t. AllSame t) Kept _ _ w (λ x. (exists-Keeps host x dst).at w)
        (λ existed t same.
          bind-Post (λ r u. AllSame u × Resolved host existed opts.on_conflict dst r u) Kept _ _ t
            (
              λ x. (resolve-Keeps host x existed opts.on_conflict dst).at t ∙ same x,
              resolve-Resolved host existed opts.on_conflict dst t,
            )
            (λ target u (same', resolved). on_Resolved-Kept existed target u same' resolved)
            (λ _ u (same', _). (inl (same' src ∙ there), tt)))
        (λ _ t same. (inl (same src ∙ there), tt))

  -- Whatever fails and wherever the run stops, what was to be moved is still at the source, or it is
  -- in the destination's directory, renamed or as a flushed file of exactly its size.
  -- It holds where no row of reads delivers 2^63 bytes, the source is smaller than 2^63 bytes
  -- and is no temporary file, and the destination's directory and the source's are outside the
  -- journal's folder.
  pub move_file-safe : NotLost (move_file_with host journal src dst opts w).1
  move_file-safe = move_file-Kept.0

  -- A move that is reported has arrived where it says; a move that was skipped has changed nothing;
  -- and no move reports a copy.
  -- It holds where no row of reads delivers 2^63 bytes, the source is smaller than 2^63 bytes
  -- and is no temporary file, and the destination's directory and the source's are outside the
  -- journal's folder.
  pub move_file-reported :
      (outcome : Outcome)
      → (move_file_with host journal src dst opts w).0 ≡ ok outcome
      → MovedTo (ok outcome) (move_file_with host journal src dst opts w).1
  move_file-reported outcome e =
      subst (λ r. MovedTo r (move_file_with host journal src dst opts w).1) e move_file-Kept.1
