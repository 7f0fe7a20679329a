-- ===== src/Server/Session.antt =====
-- daemon/src/server.rs: what one connection's reading thread works on, and `send`. The socket is the
-- parameter `accepts`: whether it takes the n-th event.
use omafile.Prelude.{
  ℕ, Bytes, List, [], ◌∷◌, ◌++◌, Bool, Option, none, some, length, Result, ok, err, Exec, ◌>>=◌,
  ◌≡◌, refl,
}
use omafile.Prelude.Action.Post.{Post}
use omafile.Paths.{FilePath}
use omafile.Error.{IoError}
use omafile.Host.Machine.{World, Host}
use omafile.Server.Protocol.{JobView, Event}
use omafile.Server.Registry
use omafile.Server.Registry.{Shared}
use omafile.Server.Job.{Order}
use omafile.Space.{StatVfs}

-- A thread that was started and has not run yet.
pub record Thread : Type 0 where
  pub order : Order
  pub base : JobView

-- `sent` is what the client was sent, in order.
pub record Session : Type 0 where
  pub world : World
  pub shared : Shared
  pub sent : List Event
  pub threads : List Thread

-- What the daemon runs with: the machine, the socket, the standard library's conversions and texts,
-- the clock's text, and where the trash and the journal are.
pub record Env : Type 0 where
  pub host : Host
  pub accepts : ℕ → Option IoError
  pub io_text : IoError → Bytes
  pub from_utf8_lossy : Bytes → Bytes
  pub is_utf8 : Bytes → Bool
  pub spared : ℕ → FilePath → Bool
  pub statvfs : FilePath → Result IoError StatVfs
  pub now : World → Bytes
  pub trash_root : FilePath

abbrev pub and_world : {E A : Type 0} → Session → Result E A × World → Result E A × Session
and_world s (r, w) = (r, record s { world = w })

-- A step that changes files only.
unfoldable pub on_world : {E A : Type 0} → Exec World E A → Exec Session E A
on_world m s = and_world s (m s.world)

unfoldable pub sequence_number : {E : Type 0} → Exec Session E ℕ
sequence_number s =
    (ok (Registry.next_seq s.shared).0, record s { shared = (Registry.next_seq s.shared).1 })

unfoldable pub registered : {E : Type 0} → JobView → Exec Session E (Unit {0})
registered v s = (ok tt, record s { shared = Registry.put v s.shared })

unfoldable pub forgotten : {E : Type 0} → Bytes → Exec Session E (Unit {0})
forgotten job s = (ok tt, record s { shared = Registry.remove job s.shared })

unfoldable pub known_jobs : {E : Type 0} → Exec Session E (List JobView)
known_jobs s = (ok s.shared.jobs, s)

pub on_world-Post :
    {E A : Type 0} (Q : Result E A → World → Type 0) (m : Exec World E A) (s : Session)
    → Post Q m s.world
    → Post (λ r t. Q r t.world) (on_world m) s
unfolding on_world
on_world-Post Q m s h = h

pub on_world-sent :
    {E A : Type 0} (m : Exec World E A) (s : Session) → (on_world m s).1.sent ≡ s.sent
unfolding on_world
on_world-sent m s = refl

module _ (env : Env) where
  -- `send`
  unfoldable pub send : Event → Exec Session IoError (Unit {0})
  send ev s = elim (env.accepts (length s.sent)) [
    | some e ↦ (err e, s)
    | none ↦ (ok tt, record s { sent = s.sent ++ (ev ∷ []) })
  ]

  -- An event with the next sequence number.
  unfoldable pub tell : (ℕ → Event) → Exec Session IoError (Unit {0})
  tell ev = do seq ← sequence_number; send (ev seq)
