-- ===== src/Apply/Implement.antt =====
-- internal/application/apply/teamlead.go, runImplementWithRetry: one task through its attempts. What
-- the context, the governor and the agents answer is given for each attempt; sessions, saves and
-- audit entries, whose errors are only logged, are left out. `Complete` and `Release` on the task are
-- called as the code does, with their errors dropped.
pub mod Attempts
pub mod Outcome
use sophia_orchestrator.Prelude.{
  ℕ, zero, suc, ◌+◌, Bool, true, false, not, List, [], ◌∷◌, Option, none, some, ◌++◌, if◌then◌else◌,
}
use sophia_orchestrator.Envelope
use sophia_orchestrator.Envelope.{Envelope}
use sophia_orchestrator.Apply.Task
use sophia_orchestrator.Apply.Task.{Task, TaskStatus, max_attempts, release, record_attempt}
use sophia_orchestrator.Apply.QuotaBreaker.{Breaker, record_quota_outcome, record_success}

-- What one dispatch comes to: a validated envelope, a quota error by its id, or any other failure.
pub data Dispatch : Type 0 where
  answered : Envelope → Dispatch
  quota : ℕ → Dispatch
  failed : Dispatch

pub record Turn : Type 0 where
  -- `ctx.Err() != nil`
  pub cancelled : Bool
  -- `acquireWithSaturationRetries` returns nil.
  pub acquired : Bool
  pub primary : Dispatch
  pub fallback : Dispatch

pub data Event : Type 0 where
  implement_spawn_failed task_claim_skipped task_claimed governor_error fallback_used task_retry :
      Event
  quota_exceeded : ℕ → Event
  -- With the attempts and the envelope of the task.
  task_escalated : ℕ → Option Envelope → Event

pub record Run : Type 0 where
  pub task : Task
  pub breaker : Breaker
  pub ok : Bool
  pub events : List Event

abbrev pub prepend : Event → Run → Run
prepend e r = record r { events = e ∷ r.events }

abbrev pub is_success : Envelope.Status → Bool
is_success Envelope.Status.done = true
is_success Envelope.Status.done_with_concerns = true
is_success _ = false

-- The task after a dispatch, whose error of `task.Complete` is dropped.
unfoldable pub after_dispatch : Dispatch → Task → Task
unfolding Task.complete
after_dispatch (answered e) t = (Task.complete (some e) t).0
after_dispatch _ t = t

-- The first result of `dispatchImplement`.
abbrev pub succeeded : Dispatch → Bool
succeeded (answered e) = is_success e.status
succeeded _ = false

-- A success, of the primary or of the fallback model, is recorded.
unfoldable pub record_done : List Event → Task → Breaker → Run
unfolding record_attempt record_success
record_done es t b = elim (record_attempt true t).1 [
  | some _ ↦ record { task = (record_attempt true t).0; breaker = b; ok = false; events = es }
  | none ↦ record {
    task = (record_attempt true t).0;
    breaker = record_success b;
    ok = true;
    events = es;
  }
]

-- The quota path: the task is released, and the breaker is told.
unfoldable pub fail_fast : ℕ → Task → Breaker → Run
unfolding release record_quota_outcome
fail_fast q t b = record {
  task = (release t).0;
  breaker = (record_quota_outcome q b).0;
  ok = false;
  events = quota_exceeded q ∷ [];
}

unfoldable pub quota_path : Bool → ℕ → Dispatch → Task → Breaker → Run
unfolding fail_fast record_done after_dispatch
quota_path has_fallback q fallback t b =
    if not has_fallback
    then fail_fast q t b
    else if succeeded fallback
    then record_done (fallback_used ∷ []) (after_dispatch fallback t) b
    else fail_fast q (after_dispatch fallback t) b

-- An answer that is no success: another attempt follows, `rest`, unless the task escalates.
unfoldable pub retry_or_escalate : Task → Breaker → Run → Run
unfolding record_attempt
retry_or_escalate t b rest =
    let missed = record_attempt false t in
    elim missed.1 [
      | some _ ↦ record {
        task = missed.0;
        breaker = b;
        ok = false;
        events = task_escalated missed.0.attempts missed.0.envelope ∷ [];
      }
      | none ↦ prepend task_retry rest
    ]

-- What follows the dispatch of an attempt: `t` is the task after it.
unfoldable pub conclude : Bool → Turn → Task → Breaker → Run → Run
unfolding record_attempt record_success quota_path retry_or_escalate
conclude has_fallback turn t b rest = elim turn.primary [
  | quota q ↦ quota_path has_fallback q turn.fallback t b
  | failed ↦ retry_or_escalate t b rest
  | answered e ↦
      if is_success e.status
      then record {
        task = (record_attempt true t).0;
        breaker = record_success b;
        ok = true;
        events = [];
      }
      else retry_or_escalate t b rest
]

-- The loop from attempt `n` on, with `left` attempts to go.
unfoldable pub attempt_loop : ℕ → Bool → (ℕ → Turn) → ℕ → Task → Breaker → Run
unfolding record_attempt conclude after_dispatch
attempt_loop zero has_fallback turns n t b = record {
  task = t;
  breaker = b;
  ok = false;
  events = [];
}
attempt_loop (suc left) has_fallback turns n t b =
    let turn = turns n in
    let seen = after_dispatch turn.primary t in
    let rest = attempt_loop left has_fallback turns (n + 1) (record_attempt false seen).0 b in
    if turn.cancelled
    then record { task = t; breaker = b; ok = false; events = [] }
    else if not turn.acquired
    then record { task = t; breaker = b; ok = false; events = governor_error ∷ [] }
    else conclude has_fallback turn seen b rest

-- What `ClaimTask` and the creation of the session before it come to.
pub data Claim : Type 0 where
  session_failed not_claimed claimed : Claim

abbrev pub is_done : TaskStatus → Bool
is_done TaskStatus.done = true
is_done _ = false

unfoldable pub run_implement_with_retry : Bool → Claim → (ℕ → Turn) → Task → Breaker → Run
unfolding attempt_loop
run_implement_with_retry has_fallback claim turns t b =
    if is_done t.status
    then record { task = t; breaker = b; ok = true; events = [] }
    else elim claim [
      | session_failed ↦ record {
        task = t;
        breaker = b;
        ok = false;
        events = implement_spawn_failed ∷ [];
      }
      | not_claimed ↦ record { task = t; breaker = b; ok = false; events = task_claim_skipped ∷ [] }
      | claimed ↦ prepend task_claimed (attempt_loop max_attempts has_fallback turns 0 t b)
    ]
