-- ===== src/Host/Renamed.antt =====
-- A file renamed: it is at its new path whole, or nothing has changed.
use omafile.Prelude.{
  Bytes, Bool, Option, none, some, ◌==◌, ==_refl, ==_ne, list_eq, nat_eq, Result, Exec, ok, err,
  ◌≡◌, ◌≢◌, inl, inr, refl, arith, Bool-cases, ap, ◌∙◌, if◌then◌else◌,
}
use omafile.Prelude.Action.Post.{Post}
use omafile.Paths.{FilePath, below_self}
use omafile.Error.{IoError}
use omafile.Host.Machine.{Node, dir, socket, file, Files, World, Host}
use omafile.Host.Calls.{arrive, relocate, rename, renamed, moved_by, dir_of, guarded, tick}
use omafile.Host.Keeps.{node_at}

-- A guarded call fails with nothing done, or is the call.
pub guarded-Post :
    (host : Host) {A : Type 0} (Q : Result IoError A → World → Type 0) (m : Exec World IoError A)
    (w : World)
    → ((e : IoError) → Q (err e) (tick w))
    → Post Q m (tick w)
    → Post Q (guarded host m) w
unfolding guarded
guarded-Post host Q m w fails goes =
    elim (host.fault w.clock)
      as (λ o. Post Q (λ v. elim o [ some e ↦ (err e, tick v) | none ↦ m (tick v) ]) w) [
        | some e ↦ fails e
        | none ↦ goes
      ]

module _ (host : Host) (from to : FilePath) (c : Bytes) (durable : Bool) (w : World) where
  -- The target has the file, and every other path but the old one has what it had.
  abbrev pub Arrived : Result IoError (Unit {0}) → World → Type 0
  Arrived (ok _) t =
      (node_at to t ≡ some (file c durable))
      × ((q : FilePath) → q ≢ from → q ≢ to → node_at q t ≡ node_at q w)
  Arrived (err _) t = (q : FilePath) → node_at q t ≡ node_at q w

  arrive_file :
      (q : FilePath)
      → arrive from to (file c durable) w.files q
        ≡ (if q == to then some (file c durable) else if q == from then none else w.files q)
  unfolding arrive
  arrive_file q = refl

  moved_by-Arrived :
      (t : World)
      → t.files ≡ w.files
      → (refusal : Option IoError) → Post Arrived (moved_by host from to (file c durable) refusal) t
  moved_by-Arrived t same (some e) = λ q. ap (λ (files : Files). files q) same
  moved_by-Arrived t same none = rw same (
    arrive_file to ∙ ground (arith, ==_refl to),
    λ q a b. arrive_file q ∙ ground (arith, ==_ne q from a, ==_ne q to b),
  )

  renamed-Arrived :
      (t : World)
      → t.files ≡ w.files
      → Post Arrived (renamed host from to (some (file c durable))) t
  renamed-Arrived t same =
      elim (Bool-cases (host.device (dir_of from) == host.device (dir_of to))) [
        | inl here ↦ rw here (moved_by-Arrived t same _)
        | inr across ↦ rw across (λ q. ap (λ (files : Files). files q) same)
      ]

  pub rename-Arrived : node_at from w ≡ some (file c durable) → Post Arrived (rename host from to) w
  unfolding rename
  rename-Arrived h =
      guarded-Post host Arrived (λ v. renamed host from to (v.files from) v) w (λ e q. refl)
        (rw h (renamed-Arrived (tick w) refl))

-- Whatever is renamed, a directory too, is at its new path, or nothing has changed.
module _ (host : Host) (from to : FilePath) (n : Node) (w : World) where
  abbrev pub Moved : Result IoError (Unit {0}) → World → Type 0
  Moved (ok _) t = node_at to t ≡ some n
  Moved (err _) t = (q : FilePath) → node_at q t ≡ node_at q w

  arrive_target : node_at from w ≡ some n → arrive from to n w.files to ≡ some n
  unfolding arrive relocate
  arrive_target h =
      elim n as (λ m. node_at from w ≡ some m → arrive from to m w.files to ≡ some m) [
        | dir ↦ λ e. rw (below_self, arrive, relocate) e
        | file c d ↦ λ e. ground (arith, ==_refl to)
        | socket ↦ λ e. ground (arith, ==_refl to)
      ]
        h

  moved_by-Moved :
      (t : World)
      → t.files ≡ w.files
      → node_at from w ≡ some n
      → (refusal : Option IoError) → Post Moved (moved_by host from to n refusal) t
  moved_by-Moved t same h (some e) = λ q. ap (λ (files : Files). files q) same
  moved_by-Moved t same h none = rw same (arrive_target h)

  renamed-Moved :
      (t : World)
      → t.files ≡ w.files
      → node_at from w ≡ some n
      → Post Moved (renamed host from to (some n)) t
  renamed-Moved t same h =
      elim (Bool-cases (host.device (dir_of from) == host.device (dir_of to))) [
        | inl here ↦ rw here (moved_by-Moved t same h _)
        | inr across ↦ rw across (λ q. ap (λ (files : Files). files q) same)
      ]

  pub rename-Moved : node_at from w ≡ some n → Post Moved (rename host from to) w
  unfolding rename
  rename-Moved h =
      guarded-Post host Moved (λ v. renamed host from to (v.files from) v) w (λ e q. refl)
        (rw h (renamed-Moved (tick w) refl h))
