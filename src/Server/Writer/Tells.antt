-- ===== src/Server/Writer/Tells.antt =====
-- daemon/src/server.rs: the views that a connection's writer is to tell of, and its heartbeats while
-- nothing changes.
use omafile.Prelude.{
  ℕ, suc, ◌+◌, ◌/◌, ◌<◌, Bytes, List, [], ◌∷◌, ◌++◌, Bool, true, not, ◌||◌, leb, length, ◌==◌,
  list_eq, nat_eq, ==_refl, ◌%◌, ◌^◌, Bool-cases, ◌≡◌, ◌⊎◌, inl, inr, refl, sym, arith,
}
use omafile.Engine.Stream.{add64}
use omafile.Server.Protocol.{JobView, Event, tick}
use omafile.Server.Registry.{Shared, is_terminal, contains_job, untold}
use omafile.Server.Writer.{Connection, write_pass}
use omafile.Server.Writer.Once.{write_passes}

-- A view is in a list.
abbrev pub IsIn : JobView → List JobView → Type 0
IsIn v [] = ⊥
IsIn v (j ∷ js) = (v ≡ j) ⊎ IsIn v js

abbrev pub is_due : JobView → List Bytes → Bool
is_due j marked = not (is_terminal j) || not (contains_job j.job marked)

pub untold-IsIn :
    (v : JobView) (marked : List Bytes) (js : List JobView)
    → is_due v marked ≡ true
    → IsIn v js
    → IsIn v (untold marked js)
unfolding untold
untold-IsIn v marked [] due bad = bad
untold-IsIn v marked (j ∷ js) due (inl e) = rw (sym e, due) (inl refl)
untold-IsIn v marked (j ∷ js) due (inr h) = elim (Bool-cases (is_due j marked)) [
  | inl kept ↦ rw kept (inr (untold-IsIn v marked js due h))
  | inr dropped ↦ rw dropped (untold-IsIn v marked js due h)
]

-- How many of the events are heartbeats.
abbrev pub beats : List Event → ℕ
beats [] = 0
beats (tick seq ∷ es) = suc (beats es)
beats (e ∷ es) = beats es

beats-append : (es fs : List Event) → beats (es ++ fs) ≡ beats es + beats fs
beats-append [] fs = omega arith
beats-append (tick seq ∷ es) fs = omega (arith, beats-append es fs)
beats-append (e ∷ es) fs = beats-append es fs

abbrev pub AllAt : ℕ → List Shared → Type 0
AllAt revision [] = Unit {0}
AllAt revision (s ∷ ss) = (s.revision ≡ revision) × AllAt revision ss

abbrev IsIdle : Connection → Shared → ℕ → ℕ → Type 0
IsIdle c s idle told =
    (beats (write_pass c s).0 ≡ told)
    × (((write_pass c s).1.0.idle ≡ idle) × ((write_pass c s).1.0.last_revision ≡ c.last_revision))

idle_pass :
    (c : Connection) (s : Shared)
    → s.revision ≡ c.last_revision
    → c.idle < 20
    → (c.idle ≡ 19 × IsIdle c s 0 1) ⊎ (c.idle < 19 × IsIdle c s (suc c.idle) 0)
unfolding write_pass add64
idle_pass c s same h =
    let here : (s.revision == c.last_revision) ≡ true = rw same (==_refl c.last_revision) in
    let step : (c.idle + 1) % 2 ^ 64 ≡ suc c.idle = omega (arith, h) in
    elim (Bool-cases (leb 20 (suc c.idle))) [
      | inl e ↦ inl (ground (arith, h), rw (here, step, e) (refl, (refl, refl)))
      | inr e ↦ inr (ground (arith, h), rw (here, step, e) (refl, (refl, refl)))
    ]

-- While nothing changes, the heartbeats that a connection gets are one for every 20 passes, those
-- included that its writer had been idle for before, which are fewer than 20.
pub write_passes-beats :
    (c : Connection) (ss : List Shared)
    → AllAt c.last_revision ss
    → c.idle < 20
    → beats (write_passes c ss) ≡ (c.idle + length ss) / 20
unfolding write_passes
write_passes-beats c [] same h = omega (arith, h)
write_passes-beats c (s ∷ ss) (here, same) h = elim (idle_pass c s here h) [
  | inl (full, (told, (idle, rev))) ↦
      let later =
        write_passes-beats (write_pass c s).1.0 ss (rw rev same) (rw idle (omega arith)) in
      omega (
        arith,
        beats-append (write_pass c s).0 (write_passes (write_pass c s).1.0 ss),
        full,
        told,
        idle,
        later,
      )
  | inr (less, (told, (idle, rev))) ↦
      let later =
        write_passes-beats (write_pass c s).1.0 ss (rw rev same) (rw idle (omega (arith, less))) in
      omega (
        arith,
        beats-append (write_pass c s).0 (write_passes (write_pass c s).1.0 ss),
        less,
        told,
        idle,
        later,
      )
]
