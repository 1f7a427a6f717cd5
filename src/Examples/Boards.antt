-- ===== src/Examples/Boards.antt =====
-- internal/domain/apply and internal/application/apply at concrete boards, groups and tasks.
use sophia_orchestrator.Prelude.{
  pos, ℕ, ◌==◌, Bool, true, false, List, [], ◌∷◌, none, some, ◌≡◌, ◌↔◌, ◌⊎◌, refl, arith, Memᴰ,
  if◌then◌else◌,
}
use sophia_orchestrator.Envelope
use sophia_orchestrator.Envelope.{Envelope}
use sophia_orchestrator.Apply.Implement.{Dispatch, Turn, claimed, run_implement_with_retry}
use sophia_orchestrator.Apply.Implement.Attempts.{Consistent}
use sophia_orchestrator.Apply.Implement.Outcome.{implement-Consistent, quota_after_failure_strands}
use sophia_orchestrator.Apply.Task
use sophia_orchestrator.Apply.Task.{Task, TaskStatus}
use sophia_orchestrator.Apply.Group.{Group, GroupStatus, GroupBuildStatus}
use sophia_orchestrator.Apply.Dag.{valid, err_cycle, validate_dag}
use sophia_orchestrator.Apply.Dag.Graph.{Acyclic}
use sophia_orchestrator.Apply.Dag.Total.{validate_dag_decides}
use sophia_orchestrator.Apply.Coordinator
use sophia_orchestrator.Apply.Coordinator.{
  Coordinator, Event, signals, receives, Waited, full, missing, signal, wait,
}
use sophia_orchestrator.Apply.Coordinator.Signals.{wait-Truthful, Truthful}
use sophia_orchestrator.Apply.BuildFeedback.{found, run_group_build_feedback_loop}
use sophia_orchestrator.Apply.BuildFeedback.Outcome.{Passed, Exhausted, feedback_loop_ends}
use sophia_orchestrator.Apply.QuotaBreaker
use sophia_orchestrator.Apply.QuotaBreaker.Trips
use sophia_orchestrator.Apply.QuotaBreaker.Trips.{
  Outcome, quota, success, has_streak, breaker_trips,
}

abbrev group_with : ℕ → List ℕ → Group
group_with id deps = record {
  id = id;
  board_id = 1;
  name = "group";
  depends_on = deps;
  tasks = [];
  status = GroupStatus.pending;
  worktree_path = "";
  branch_name = "";
  build_status = GroupBuildStatus.pending;
  build_attempts = 0;
}

-- Two groups that wait for each other, and a third.
abbrev looped : List Group
looped = group_with 1 (2 ∷ []) ∷ group_with 2 (1 ∷ []) ∷ group_with 3 (2 ∷ []) ∷ []

validate_dag_decides_example :
    ((validate_dag looped ≡ valid) ↔ Acyclic looped)
    × ((validate_dag looped ≡ err_cycle) ↔ (¬ Acyclic looped))
validate_dag_decides_example =
    validate_dag_decides looped ((refl, (refl, tt)), ((refl, tt), (tt, tt)))

-- Group 1 was signalled as completed, group 2 as failed with error 9.
abbrev calls : List Coordinator.Call
calls = (1, false, none) ∷ (2, true, some 9) ∷ []

abbrev no_value : Coordinator
no_value x = if x == 1 then Coordinator.empty else if x == 2 then Coordinator.empty else missing

abbrev turns : List Event
turns = signals (1, false, none) ∷ receives [] ∷ signals (2, true, some 9) ∷ receives [] ∷ []

wait-Truthful_example : Truthful calls (1 ∷ 2 ∷ []) (wait turns (1 ∷ 2 ∷ []) no_value).0
wait-Truthful_example =
    wait-Truthful calls turns (1 ∷ 2 ∷ []) no_value
      (Memᴰ.head refl, (Memᴰ.tail (Memᴰ.head refl), tt)) (λ k r h. ground arith)

abbrev completed : Coordinator
completed x = full (record { failed = false; reason = none })

-- The second build passes.
abbrev second_passes : ℕ → Bool
second_passes n = n == 2

feedback_loop_ends_example :
    Passed second_passes
      (group_with 1 [])
      (run_group_build_feedback_loop 3 found second_passes (group_with 1 []))
    ⊎ Exhausted second_passes
        (group_with 1 [])
        (run_group_build_feedback_loop 3 found second_passes (group_with 1 []))
feedback_loop_ends_example =
    feedback_loop_ends 3 second_passes (group_with 1 []) (omega arith) (omega arith)

abbrev outcomes : List Outcome
outcomes = quota 1 ∷ success ∷ quota 2 ∷ quota 3 ∷ success ∷ quota 4 ∷ []

breaker_trips_example :
    let r = Trips.run outcomes (QuotaBreaker.new 2) in
    (r.0.tripped ≡ true) × (r.1 ≡ 1) × (r.0.cancels ≡ 1)
unfolding has_streak Trips.starts
breaker_trips_example = breaker_trips 2 outcomes (omega arith)

abbrev task : Task
task = record {
  id = 1;
  group_id = 1;
  description = "task";
  files_pattern = "*.go" ∷ [];
  status = TaskStatus.pending;
  claimed_by = none;
  attempts = 0;
  envelope = none;
}

abbrev agent_envelope : Envelope.Status → Envelope
agent_envelope status = record {
  schema_version = "v1";
  phase = "apply";
  change_name = "add-login";
  project = "shop";
  status = status;
  confidence = pos 900_000;
  executive_summary = "";
  artifacts_saved = [];
  next_recommended = [];
  risks = [];
  payload = "";
}

-- The first attempt is blocked, and the second hits the quota.
abbrev blocked_then_quota : ℕ → Turn
blocked_then_quota n = record {
  cancelled = false;
  acquired = true;
  primary = if n == 0 then Dispatch.failed else Dispatch.quota 4;
  fallback = Dispatch.answered (agent_envelope Envelope.Status.done);
}

implement-Consistent_example :
    Consistent 3 task
      (run_implement_with_retry true claimed blocked_then_quota task (QuotaBreaker.new 2))
implement-Consistent_example =
    implement-Consistent true claimed blocked_then_quota task (QuotaBreaker.new 2) refl

quota_after_failure_strands_example :
    let r = run_implement_with_retry false claimed blocked_then_quota task (QuotaBreaker.new 2) in
    (r.task.status ≡ TaskStatus.failed) × ((Task.claim 7 r.task).1 ≡ some Task.already_claimed)
quota_after_failure_strands_example =
    quota_after_failure_strands blocked_then_quota task (QuotaBreaker.new 2) 4 7 refl refl refl refl
      refl refl refl refl
