-- ===== src/Server/Listener/Fresh.antt =====
-- A daemon that starts takes nothing from one that runs, and removes nothing but a dead socket.
use omafile.Prelude.{
  ℕ, Bool, true, false, Option, none, some, ==_refl, list_eq, nat_eq, Result, ok, err, raise, ◌>>◌,
  ◌≡◌, ◌≢◌, ◌⊎◌, inl, inr, refl, sym, ap, ◌∙◌, arith, Option-cases,
}
use omafile.Prelude.Action.Post.{Post, bind-Post, raise-Post, attempt-bind-Post}
use omafile.Paths.{FilePath}
use omafile.Error.{IoError, not_found, already_exists, addr_in_use, connection_refused}
use omafile.Host.Machine.{Node, file, dir, socket, Files, World, Host}
use omafile.Host.Calls.{stat, remove_file, put_node, dir_of, is_dir, tick}
use omafile.Host.Keeps.{node_at, put_node_other, stat-Keeps, remove_file-Keeps}
use omafile.Host.Renamed.{guarded-Post}
use omafile.Server.Listener.{bind, bound, connect, on_connect, on_found, bind_fresh}

module _ (host : Host) (connects : ℕ → Result IoError (Unit {0})) (p : FilePath) where
  abbrev pub OthersSame : World → World → Type 0
  OthersSame w t = (q : FilePath) → q ≢ p → node_at q t ≡ node_at q w

  abbrev Bound : World → Result IoError (Unit {0}) → World → Type 0
  Bound w (ok _) t = OthersSame w t × ((node_at p w ≡ none) × (node_at p t ≡ some socket))
  Bound w (err _) t = (q : FilePath) → node_at q t ≡ node_at q w

  put_here : (v : Option Node) (files : Files) → put_node p v files p ≡ v
  put_here v files = ground (arith, ==_refl p)

  bound-Bound :
      (w t : World) (n : Option Node) (in_dir : Bool)
      → t.files ≡ w.files
      → w.files p ≡ n
      → Post (Bound w) (bound host connects p n in_dir) t
  bound-Bound w t (some n) in_dir same e = λ q. ap (λ (files : Files). files q) same
  bound-Bound w t none true same e = (
    λ q other.
        put_node_other p q (some socket) t.files other ∙ ap (λ (files : Files). files q) same,
    (e, put_here (some socket) t.files),
  )
  bound-Bound w t none false same e = λ q. ap (λ (files : Files). files q) same

  bind-Bound : (w : World) → Post (Bound w) (bind host connects p) w
  unfolding bind
  bind-Bound w =
      guarded-Post host (Bound w)
        (λ v. bound host connects p (v.files p) (is_dir (v.files (dir_of p))) v) w (λ e q. refl)
        (bound-Bound w (tick w) (w.files p) (is_dir (w.files (dir_of p))) refl refl)

  abbrev pub Refused : Type 0
  Refused = (k : ℕ) × (connects k ≡ err connection_refused)

  -- What may have become of the path.
  abbrev pub MayTake : World → World → Type 0
  MayTake w t =
      (node_at p t ≡ node_at p w) ⊎ ((node_at p w ≡ none) ⊎ ((node_at p w ≡ some socket) × Refused))

  abbrev pub IsFresh : World → Result IoError (Unit {0}) → World → Type 0
  IsFresh w (ok _) t = OthersSame w t × (MayTake w t × (node_at p t ≡ some socket))
  IsFresh w (err _) t = OthersSame w t × MayTake w t

  module _ (w : World) where
    abbrev Same : World → Type 0
    Same t = (q : FilePath) → node_at q t ≡ node_at q w

    refused-IsFresh : (e : IoError) (t : World) → Same t → Post (IsFresh w) (raise e) t
    refused-IsFresh e t same = raise-Post (IsFresh w) e t (λ q _. same q, inl (same p))

    bind_free : (t : World) → Same t → Post (IsFresh w) (bind host connects p) t
    bind_free t same = go (bind host connects p t).0 (bind host connects p t).1 (bind-Bound t)
      where
        go : (r : Result IoError (Unit {0})) (u : World) → Bound t r u → IsFresh w r u
        go (ok _) u (others, (free, made)) =
            (λ q other. others q other ∙ same q, (inr (inl (sym (same p) ∙ free)), made))
        go (err _) u kept = (λ q _. kept q ∙ same q, inl (kept p ∙ same p))

    replaced :
        (t : World)
        → Same t
        → node_at p w ≡ some socket
        → Refused
        → Post (IsFresh w) (do remove_file host p; bind host connects p) t
    replaced t same here refused =
        bind-Post (λ _ u. OthersSame w u) (IsFresh w) _ _ t
          (λ q other. (remove_file-Keeps host q p other).at t ∙ same q)
          (λ _ u others.
            go (bind host connects p u).0 (bind host connects p u).1 u others (bind-Bound u))
          (λ _ u others. (others, inr (inr (here, refused))))
      where
        go :
            (r : Result IoError (Unit {0})) (v u : World)
            → OthersSame w u
            → Bound u r v
            → IsFresh w r v
        go (ok _) v u others (others', (free, made)) =
            (λ q other. others' q other ∙ others q other, (inr (inr (here, refused)), made))
        go (err _) v u others kept = (λ q other. kept q ∙ others q other, inr (inr (here, refused)))

    connected :
        (t : World) (k : ℕ) (r : Result IoError (Unit {0}))
        → connects k ≡ r
        → Same t
        → node_at p w ≡ some socket
        → Post (IsFresh w) (on_connect host connects p r) t
    connected t k (ok _) e same here = refused-IsFresh addr_in_use t same
    connected t k (err connection_refused) e same here = replaced t same here (k, e)
    connected t k (err x) e same here = refused-IsFresh x t same

    connect_answer :
        (t : World)
        → Same t
        → Post (λ r u. Same u × (connects t.clock ≡ r)) (connect host connects) t
    unfolding connect
    connect_answer t same = (same, refl)

    abbrev Found : Result IoError Node → Type 0
    Found (ok n) = node_at p w ≡ some n
    Found (err _) = Unit {0}

    Found-Post : Post (λ r t. Same t × Found r) (stat host p) w
    unfolding stat
    Found-Post = (
      λ q. (stat-Keeps host q p).at w,
      elim (Option-cases (w.files p)) [ inl e ↦ ground arith | inr (n, e) ↦ ground arith ],
    )

    asked :
        (r : Result IoError Node) (t : World)
        → Same t
        → Found r
        → Post (IsFresh w) (on_found host connects p r) t
    asked (err not_found) t same found = bind_free t same
    asked (ok socket) t same found =
        attempt-bind-Post (λ r u. Same u × (connects t.clock ≡ r)) (IsFresh w)
          (connect host connects) (on_connect host connects p) t (connect_answer t same)
          (λ r u (same', e). connected u t.clock r e same' found)
    asked (ok (file c d)) t same found = refused-IsFresh already_exists t same
    asked (ok dir) t same found = refused-IsFresh already_exists t same
    asked (err e) t same found = refused-IsFresh e t same

    -- A daemon that starts changes nothing but its own socket's path, and takes that only where
    -- nothing was, or where a socket was that refused a connection; if it starts, its socket is there.
    pub bind_fresh-IsFresh : Post (IsFresh w) (bind_fresh host connects p) w
    unfolding bind_fresh
    bind_fresh-IsFresh =
        attempt-bind-Post (λ r t. Same t × Found r) (IsFresh w) _ _ w Found-Post
          (λ r t (same, found). asked r t same found)
