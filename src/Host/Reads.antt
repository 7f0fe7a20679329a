-- ===== src/Host/Reads.antt =====
-- What a whole file that is written, or read, holds.
use omafile.Prelude.{
  ◌+◌, ℕ, Bytes, [], length, drop_all, Bool, false, Option, none, some, ==_refl, list_eq, nat_eq,
  Result, ok, err, ◌≡◌, refl, ap, ◌∙◌, arith,
}
use mathlib.Core.List.{List, append-nil}
use omafile.Prelude.Action.Post.{Post, Keeps, keeps_rules, bind-Post}
use omafile.Paths.{FilePath}
use omafile.Error.{IoError}
use omafile.Host.Machine.{Node, file, Read, payload, read_error, World, Host}
use omafile.Host.Calls.{
  create, write_all, write_file, read_tape, read_file, all_read, settle, tape, write_at,
}
use omafile.Host.Keeps.{node_at, open_read-Keeps, read_tape-Keeps, settle-Keeps}

-- Reads that meet no error deliver what is left of the file.
abbrev pub IsHonest : Host → Type 0
IsHonest host =
    (t : ℕ) (c : Bytes) → read_error (host.reads t c) ≡ none → payload (host.reads t c) ≡ c

written : (c : Bytes) → write_at 0 c [] ≡ c
written c = rw (drop_all {A = ℕ} (0 + length c) [] (omega arith)) (append-nil c)

module _ (host : Host) where
  pub read_file-Keeps : (q p : FilePath) → Keeps (node_at q) (read_file host p)
  unfolding read_file
  read_file-Keeps q p = search (keeps_rules, open_read-Keeps, read_tape-Keeps, settle-Keeps)

module _ (host : Host) (p : FilePath) where
  abbrev pub Has : Bytes → {A : Type 0} → Result IoError A → World → Type 0
  Has c (ok _) t = node_at p t ≡ some (file c false)
  Has c (err _) t = Unit {0}

  create-Has : (w : World) → Post (Has []) (create host p) w
  unfolding create
  create-Has w = ground (arith, ==_refl p)

  write_all-Has :
      (c : Bytes) (w : World)
      → node_at p w ≡ some (file [] false)
      → Post (Has c) (write_all host p 0 c) w
  unfolding write_all
  write_all-Has c w h = ground (arith, written c, ==_refl p)

  -- A file that was written holds what was given.
  pub write_file-Has : (c : Bytes) (w : World) → Post (Has c) (write_file host p c) w
  unfolding write_file
  write_file-Has c w =
      bind-Post (Has []) (Has c) _ _ w (create-Has w) (λ _ t made. write_all-Has c t made)
        (λ _ _ _. tt)

  abbrev pub Reads : Bytes → Result IoError Bytes → World → Type 0
  Reads c (ok raw) t = raw ≡ c
  Reads c (err _) t = Unit {0}

  all_read-Reads :
      (honest : IsHonest host) (t : ℕ) (c : Bytes) (d : Bool) (w : World)
      → Reads c (all_read host (tape host t 0 (some (file c d)))) w
  all_read-Reads honest t c d w =
      elim (read_error (host.reads t c))
          as (λ o.
            (read_error (host.reads t c) ≡ o)
            → Reads c (elim o [ some e ↦ err e | none ↦ ok (payload (host.reads t c)) ]) w) [
              | none ↦ λ e. honest t c e
              | some x ↦ λ e. tt
            ]
        refl

  read_now :
      (n : Option Node) (w : World)
      → node_at p w ≡ n
      → Post {E = IoError} (λ r u. r ≡ ok (tape host w.clock 0 n)) (read_tape host p 0) w
  unfolding read_tape
  read_now n w e = ap (λ s. ok (tape host w.clock 0 s)) e

  settled-Reads :
      (honest : IsHonest host) (t : ℕ) (c : Bytes) (d : Bool) (reads : List Read) (w : World)
      → reads ≡ tape host t 0 (some (file c d))
      → Post (Reads c) (settle host (all_read host reads)) w
  settled-Reads honest t c d reads w e = rw e (all_read-Reads honest t c d w)

  -- A file that was read gives its content.
  pub read_file-Reads :
      (honest : IsHonest host) (c : Bytes) (d : Bool) (w : World)
      → node_at p w ≡ some (file c d)
      → Post (Reads c) (read_file host p) w
  unfolding read_file
  read_file-Reads honest c d w there =
      bind-Post (λ _ t. node_at p t ≡ node_at p w) (Reads c) _ _ w ((open_read-Keeps host p p).at w)
        (λ _ t kept.
          bind-Post (λ r u. r ≡ ok (tape host t.clock 0 (some (file c d)))) (Reads c) _ _ t
            (read_now (some (file c d)) t (kept ∙ there))
            (λ reads u got. settled-Reads honest t.clock c d reads u (cc)) (λ _ _ _. tt))
        (λ _ _ _. tt)
