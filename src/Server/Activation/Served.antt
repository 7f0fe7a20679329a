-- ===== src/Server/Activation/Served.antt =====
-- daemon/src/server.rs: `serve`. The daemon serves a socket that it was passed, or one that it binds
-- itself, and starts a thread for each connection.
use omafile.Prelude.{ℕ, List, [], ◌∷◌, ◌++◌, map, Option, Result, ok, err, ◌≡◌, ◌⊎◌}
use omafile.Prelude.Action.Post.{Post}
use omafile.Paths.{FilePath}
use omafile.Error.{IoError}
use omafile.Host.Machine.{World, Host}
use omafile.Server.Listener.Fresh.{IsFresh}
use omafile.Server.Activation.{Descriptor, Process}
use omafile.Server.Activation.Adopted.{Listens, Names, Counts, IsAdopted}

-- The connections that came in before the first that failed, which is the error.
abbrev pub Accepted : List (Result IoError ℕ) → Result IoError (Unit {0}) → List ℕ → Type 0
Accepted incoming (ok _) streams = incoming ≡ map ok streams
Accepted incoming (err e) streams =
    (after : List (Result IoError ℕ)) × (incoming ≡ map ok streams ++ (err e ∷ after))

module _ (host : Host) (connects : ℕ → Result IoError (Unit {0})) (pid : ℕ) (d : Descriptor)
    (path : FilePath) (p : Process) where
  -- Where the daemon's socket came from, and the files after.
  abbrev pub Listening : Result IoError (Unit {0}) → World → Type 0
  Listening (ok _) w =
      (Names pid p.variables.listen_pid
        × (Counts p.variables.listen_fds × (Listens d × (w ≡ p.world))))
      ⊎ ((¬ Names pid p.variables.listen_pid) × IsFresh host connects path p.world (ok tt) w)
  Listening (err e) w =
      (Names pid p.variables.listen_pid × (w ≡ p.world))
      ⊎ ((¬ Names pid p.variables.listen_pid) × IsFresh host connects path p.world (err e) w)

  -- The connections that a thread was started for.
  abbrev pub Starts :
      List (Result IoError ℕ) → Result IoError (Unit {0}) → Process → Process → Type 0
  Starts incoming r s t =
      (streams : List ℕ) × ((t.started ≡ s.started ++ streams) × Accepted incoming r streams)

  abbrev pub IsServed : List (Result IoError ℕ) → Result IoError (Unit {0}) → Process → Type 0
  IsServed incoming (ok x) q = Listening (ok x) q.world × Starts incoming (ok x) p q
  IsServed incoming (err e) q =
      Listening (err e) q.world
      × ((q.started ≡ p.started) ⊎ (Listening (ok tt) q.world × Starts incoming (err e) p q))

  -- The one outcome of starting a thread.
  abbrev IsNext : Process → ℕ → Result IoError (Unit {0}) → Process → Type 0
  IsNext s stream (ok _) t = t ≡ record s { started = s.started ++ (stream ∷ []) }
  IsNext s stream (err e) t = ⊥

  abbrev Served : List (Result IoError ℕ) → Process → Result IoError (Unit {0}) → Process → Type 0
  Served incoming s r t = (t.world ≡ s.world) × Starts incoming r s t

  abbrev one_more : Process → ℕ → Process
  one_more s stream = record s { started = s.started ++ (stream ∷ []) }

  abbrev Opened : Result IoError (Unit {0}) → Process → Type 0
  Opened r t = Listening r t.world × (t.started ≡ p.started)

  abbrev Inherited : Result IoError (Option ℕ) → Process → Type 0
  Inherited r q =
      (q.world ≡ p.world) × ((q.started ≡ p.started) × IsAdopted pid d p.variables r q.variables)
