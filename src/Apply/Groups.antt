-- ===== src/Apply/Groups.antt =====
-- internal/application/apply/run.go, runAllGroups: the goroutines of the groups. What `Wait` and the
-- governor answer each of them is given; they stand in the order of the board, and share the breaker
-- and the map of results.
pub mod Results
use sophia_orchestrator.Prelude.{
  ℕ, Bool, true, false, not, List, [], ◌∷◌, ◌++◌, map, Option, none, some, length, if◌then◌else◌,
}
use sophia_orchestrator.Change.{Change}
use sophia_orchestrator.Apply.Group.{Group, GroupStatus}
use sophia_orchestrator.Apply.QuotaBreaker.{Breaker}
use sophia_orchestrator.Apply.Coordinator.{Waited, ready}
use sophia_orchestrator.Apply.Saturation.{Acquire, Acquired, acquire_with_saturation_retries}
use sophia_orchestrator.Apply.Tasks.{put_key}
use sophia_orchestrator.Apply.TeamLead
use sophia_orchestrator.Apply.TeamLead.{
  Answers, Error, context_done, saturated, spawn_refused, not_ready, GroupOutcome, Lead,
  run_team_lead,
}

-- What the goroutine of one group meets.
pub record GroupTurn : Type 0 where
  -- What `Wait` returns: with its timeout it returns, so this is never `blocked`.
  pub waited : Waited
  -- The semaphore admits it before the context is done.
  pub admitted : Bool
  pub governor : ℕ → Acquire
  -- Whether the context is done during a wait for the governor.
  pub cancelled : ℕ → Bool
  pub lead : Answers

pub data Event : Type 0 where
  group_degraded : ℕ → Option ℕ → Event
  group_failed : ℕ → Option Error → Event
  group_completed : ℕ → ℕ → Event
  lead_event : TeamLead.Event → Event

pub record GroupRun : Type 0 where
  pub group : Group
  pub breaker : Breaker
  -- The entry in the map of results, if one is made.
  pub result : Option GroupOutcome
  -- The call of `Signal`: `failed` and the error.
  pub signal : Bool × Option Error
  pub events : List Event

abbrev pub is_completed : GroupStatus → Bool
is_completed GroupStatus.completed = true
is_completed _ = false

-- An error that is not `ErrGroupFailed`.
abbrev pub is_hard : Waited → Bool
is_hard ready = false
is_hard (Waited.group_failed _ _) = false
is_hard _ = true

abbrev pub degraded : Waited → List Event
degraded (Waited.group_failed dep reason) = group_degraded dep reason ∷ []
degraded _ = []

abbrev pub failure : Error → GroupOutcome
failure e = record { failed = true; reason = some e; tasks_done = 0 }

-- The error of an `Acquire` that gave no slot.
abbrev pub acquire_error : Acquired → Option Error
acquire_error Acquired.ok = none
acquire_error Acquired.err_saturated = some saturated
acquire_error Acquired.err_refused = some spawn_refused
acquire_error Acquired.context_done = some context_done

abbrev pub outcome_event : ℕ → GroupOutcome → Event
outcome_event g o =
    if o.failed then Event.group_failed g o.reason else group_completed g o.tasks_done

-- The team lead has run.
abbrev pub after_lead : ℕ → List Event → Lead → GroupRun
after_lead gid es l = record {
  group = l.group;
  breaker = l.breaker;
  result = some l.outcome;
  signal = (l.outcome.failed, l.outcome.reason);
  events = es ++ map lead_event l.events ++ outcome_event gid l.outcome ∷ [];
}

-- What follows the wait.
unfoldable pub enter_group : GroupTurn → Change → ℕ → Group → Breaker → GroupRun
unfolding acquire_with_saturation_retries run_team_lead
enter_group turn c phase_id g b =
    let acquired = acquire_with_saturation_retries turn.governor turn.cancelled in
    let lead = run_team_lead turn.lead c phase_id g b in
    if not turn.admitted
    then record {
      group = g;
      breaker = b;
      result = none;
      signal = (true, some context_done);
      events = degraded turn.waited;
    }
    else elim (acquire_error acquired.result) [
      | some e ↦ record {
        group = g;
        breaker = b;
        result = some (failure e);
        signal = (true, some e);
        events = degraded turn.waited;
      }
      | none ↦ after_lead g.id (degraded turn.waited) lead
    ]

unfoldable pub run_group : GroupTurn → Change → ℕ → Group → Breaker → GroupRun
unfolding enter_group
run_group turn c phase_id g b =
    if is_completed g.status
    then record {
      group = g;
      breaker = b;
      result = some (record { failed = false; reason = none; tasks_done = length g.tasks });
      signal = (false, none);
      events = [];
    }
    else if is_hard turn.waited
    then record {
      group = g;
      breaker = b;
      result = some (failure (not_ready turn.waited));
      signal = (true, some (not_ready turn.waited));
      events = Event.group_failed g.id (some (not_ready turn.waited)) ∷ [];
    }
    else enter_group turn c phase_id g b

-- The map `results`.
abbrev pub Results : Type 0
Results = List (ℕ × GroupOutcome)

abbrev pub put_result : ℕ → Option GroupOutcome → Results → Results
put_result g none rs = rs
put_result g (some o) rs = put_key g o rs

pub record GroupsRun : Type 0 where
  pub groups : List Group
  pub breaker : Breaker
  pub results : Results
  pub events : List Event

-- The goroutines, with the turn of each group by its id.
unfoldable pub run_groups :
    (ℕ → GroupTurn) → Change → ℕ → List Group → Breaker → Results → GroupsRun
unfolding run_group put_key
run_groups turn c phase_id [] b rs = record { groups = []; breaker = b; results = rs; events = [] }
run_groups turn c phase_id (g ∷ gs) b rs =
    let run = run_group (turn g.id) c phase_id g b in
    let rest = run_groups turn c phase_id gs run.breaker (put_result g.id run.result rs) in
    record {
      groups = run.group ∷ rest.groups;
      breaker = rest.breaker;
      results = rest.results;
      events = run.events ++ rest.events;
    }
