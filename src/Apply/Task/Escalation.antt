-- ===== src/Apply/Task/Escalation.antt =====
-- Iron Law 5 on a task over any sequence of calls.
use sophia_orchestrator.Prelude.{
  ℕ, suc, ◌+◌, ◌≤◌, ◌<◌, Bool, List, [], ◌∷◌, Option, none, some, ◌≡◌, arith,
}
use sophia_orchestrator.Envelope.{Envelope}
use sophia_orchestrator.Apply.Task.{
  Task, TaskStatus, Error, max_attempts, claim, release, mark_running, complete, record_attempt,
}

pub data Call : Type 0 where
  claims : ℕ → Call
  releases starts : Call
  completes : Option Envelope → Call
  records : Bool → Call

unfoldable pub step : Call → Task → Task × Option Error
unfolding claim release mark_running complete record_attempt
step (claims sid) t = claim sid t
step releases t = release t
step starts t = mark_running t
step (completes e) t = complete e t
step (records success) t = record_attempt success t

unfoldable pub run : List Call → Task → Task
run [] t = t
run (c ∷ cs) t = run cs (step c t).0

-- How many attempts a sequence of calls records.
abbrev pub recorded : List Call → ℕ
recorded [] = 0
recorded (records _ ∷ cs) = suc (recorded cs)
recorded (_ ∷ cs) = recorded cs

-- The status is as old as the task's attempts allow: `failed` needs one and fewer than three,
-- `blocked` needs three; a pending task has no claimer.
pub record Inv (t : Task) : Type 0 where
  pub failed_early : t.status ≡ TaskStatus.failed → (0 < t.attempts) × (t.attempts < max_attempts)
  pub blocked_late : t.status ≡ TaskStatus.blocked → max_attempts ≤ t.attempts
  pub pending_free : t.status ≡ TaskStatus.pending → t.claimed_by ≡ none

step-Inv : (c : Call) (t : Task) → Inv t → Inv (step c t).0
unfolding step
step-Inv (claims sid) t v = ground arith
step-Inv releases t v = ground arith
step-Inv starts t v = ground arith
step-Inv (completes none) t v = ground arith
step-Inv (completes (some e)) t v = ground arith
step-Inv (records success) t v = ground arith

pub run-Inv : (cs : List Call) (t : Task) → Inv t → Inv (run cs t)
unfolding run
run-Inv [] t v = v
run-Inv (c ∷ cs) t v = run-Inv cs (step c t).0 (step-Inv c t v)

-- Every call but `record_attempt` leaves the counter alone.
attempts-run : (cs : List Call) (t : Task) → (run cs t).attempts ≡ t.attempts + recorded cs
unfolding run step
attempts-run [] t = omega arith
attempts-run (claims sid ∷ cs) t = ground (arith, attempts-run cs (step (claims sid) t).0)
attempts-run (releases ∷ cs) t = ground (arith, attempts-run cs (step releases t).0)
attempts-run (starts ∷ cs) t = ground (arith, attempts-run cs (step starts t).0)
attempts-run (completes none ∷ cs) t = ground (arith, attempts-run cs (step (completes none) t).0)
attempts-run (completes (some e) ∷ cs) t =
    ground (arith, attempts-run cs (step (completes (some e)) t).0)
attempts-run (records b ∷ cs) t = ground (arith, attempts-run cs (step (records b) t).0)

-- From a task that meets the invariant, as a new one does, after any sequence of calls the task is
-- blocked only if three attempts at least were recorded in all.
pub blocked_needs_attempts :
    (cs : List Call) (t : Task)
    → Inv t
    → (run cs t).status ≡ TaskStatus.blocked
    → max_attempts ≤ t.attempts + recorded cs
blocked_needs_attempts cs t v b = omega (arith, (run-Inv cs t v).blocked_late b, attempts-run cs t)

-- From a task that meets the invariant, after any sequence of calls the task is `failed`, which
-- leaves it to be retried, only if one or two attempts were recorded in all.
pub failed_needs_attempts :
    (cs : List Call) (t : Task)
    → Inv t
    → (run cs t).status ≡ TaskStatus.failed
    → (0 < t.attempts + recorded cs) × (t.attempts + recorded cs < max_attempts)
failed_needs_attempts cs t v f = omega (arith, (run-Inv cs t v).failed_early f, attempts-run cs t)
