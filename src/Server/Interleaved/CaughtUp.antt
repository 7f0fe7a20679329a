-- ===== src/Server/Interleaved/CaughtUp.antt =====
-- daemon/src/server.rs: a connection at rest has told of every job that has ended.
use omafile.Prelude.{
  ℕ, ◌≤◌, Bytes, true, false, list_eq, nat_eq, Bool-cases, ◌≡◌, inl, inr, refl, arith,
}
use omafile.Server.Protocol.{JobView}
use omafile.Server.Registry.{Shared, is_terminal, contains_job}
use omafile.Server.Writer.Tells.{IsIn}
use omafile.Server.Interleaved.{
  Memory, Place, asleep, Step, moves, others, replies, answers, Reach, start, later,
}
use omafile.Server.Interleaved.Told.{IsToldOf, Move-marked, Outside-marked, Answer-marked}
use omafile.Server.Interleaved.Due.{
  contradictory, AllDue, Move-behind, Outside-behind, Move-due, Outside-due,
}

record Inv (m : Memory) (p : Place) : Type 0 where
  behind : m.last_revision ≤ m.shared.revision
  marked : (job : Bytes) → contains_job job m.terminal_sent ≡ true → IsToldOf job m
  due : AllDue m p

Step-Inv : {m n : Memory} {p q : Place} → Step m p n q → Inv m p → Inv n q
Step-Inv (moves mv) inv = record {
  behind = Move-behind mv inv.behind;
  marked = Move-marked mv inv.marked;
  due = Move-due mv inv.behind inv.due;
}
Step-Inv {p = p} (others mv) inv = record {
  behind = Outside-behind mv inv.behind;
  marked = Outside-marked mv inv.marked;
  due = Outside-due p mv inv.behind inv.due;
}
Step-Inv {m} (replies live (answers ev kind)) inv = record {
  behind = inv.behind;
  marked = Answer-marked {m = m} (answers ev kind) inv.marked;
  due = inv.due;
}

Reach-Inv : {s : Shared} {unbumped : ℕ} {m : Memory} {p : Place} → Reach s unbumped m p → Inv m p
unfolding contains_job
Reach-Inv start = record {
  behind = omega arith;
  marked = λ job c. absurd (contradictory c refl);
  due = λ r v i t c. tt;
}
Reach-Inv (later r step) = Step-Inv step (Reach-Inv r)

-- However the threads interleave, a connection whose writer sleeps has told its client, in the
-- snapshot or in an event, of every job in the registry that has ended, if it has seen the last
-- revision, no `put` is halfway, and the revision did not rise between the snapshot and the writer's
-- first look. It holds while there are fewer than 2^64 puts.
pub asleep-IsToldOf :
    {s : Shared} {unbumped : ℕ} {m : Memory}
    → Reach s unbumped m asleep
    → m.raced ≡ false
    → m.unbumped ≡ 0
    → m.last_revision ≡ m.shared.revision
    → (v : JobView) → IsIn v m.shared.jobs
    → is_terminal v ≡ true
    → IsToldOf v.job m
asleep-IsToldOf {m = m} r raced none_left seen v i t =
    let inv = Reach-Inv r in
    elim (Bool-cases (contains_job v.job m.terminal_sent)) [
      | inl c ↦ inv.marked v.job c
      | inr c ↦ elim (inv.due raced v i t c) [
        | inl more ↦ absurd (omega (arith, more, none_left))
        | inr new ↦ absurd (omega (arith, new, seen))
      ]
    ]
