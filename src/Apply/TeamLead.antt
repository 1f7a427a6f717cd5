-- ===== src/Apply/TeamLead.antt =====
-- internal/application/apply/teamlead.go, runTeamLead: one group through its tasks and its build gate.
-- A save error after the start is audited, and dropped.
pub mod Gate
pub mod Sound
pub mod Cancelled
pub mod Named
use sophia_orchestrator.Prelude.{
  ℕ, String, ℤ, pos, Bool, true, false, not, List, [], ◌∷◌, ◌++◌, map, Option, none, some, length,
  if◌then◌else◌,
}
use sophia_orchestrator.Envelope
use sophia_orchestrator.Envelope.{Envelope, schema_version_v1}
use sophia_orchestrator.Change.{Change}
use sophia_orchestrator.Session
use sophia_orchestrator.Session.{Session, AgentRole, Provider, record_outcome}
use sophia_orchestrator.Apply.Group.{Group, start, complete, fail}
use sophia_orchestrator.Apply.QuotaBreaker.{Breaker}
use sophia_orchestrator.Apply.Coordinator.{Waited}
use sophia_orchestrator.Apply.Tasks.{TaskTurn, TasksRun, run_tasks, count_done, had_failure}
use sophia_orchestrator.Apply.BuildFeedback
use sophia_orchestrator.Apply.BuildFeedback.{Detection, run_group_build_feedback_loop}
use sophia_orchestrator.PhaseService.{text_append}

-- What the creation of a session meets: `none` for an id that does not parse.
pub record Spawn : Type 0 where
  pub session_id : Option ℕ
  pub provider : Provider
  pub hash_prompt : String → String
  pub now : ℕ
  pub saved : Bool

unfoldable pub make_session : Spawn → ℕ → ℕ → AgentRole → String → Option Session
unfolding Session.new
make_session s change_id phase_id role command = elim s.session_id [
  | none ↦ none
  | some sid ↦
      elim (Session.new sid change_id phase_id role s.provider (s.hash_prompt command) command
        s.now) [ Session.err _ ↦ none | Session.ok sess ↦ if s.saved then some sess else none ]
]

pub record Answers : Type 0 where
  pub saves_start : Bool
  pub spawn : Spawn
  pub task_turn : ℕ → TaskTurn
  pub fuel : ℕ
  pub detection : Detection
  pub builds : ℕ → Bool
  pub saves_end : Bool
  pub saves_session : Bool
  pub now : ℕ
  -- A number, as `%d` prints it.
  pub count_text : ℕ → String

pub data Error : Type 0 where
  group_start save_group no_session group_failed context_done saturated spawn_refused : Error
  not_ready : Waited → Error

pub record GroupOutcome : Type 0 where
  pub failed : Bool
  pub reason : Option Error
  pub tasks_done : ℕ

-- The call whose error is dropped.
pub data Operation : Type 0 where
  group_fail group_complete save_group session_outcome save_session : Operation

pub data Event : Type 0 where
  team_lead_spawned : Event
  gate : BuildFeedback.Event → Event
  error_discarded : Operation → Event

pub record Lead : Type 0 where
  pub group : Group
  pub breaker : Breaker
  pub outcome : GroupOutcome
  pub session : Option Session
  pub events : List Event

abbrev pub is_some {ℓ} : {A : Type ℓ} → Option A → Bool
is_some none = false
is_some (some _) = true

abbrev pub discarded : Operation → Bool → List Event
discarded op refused = if refused then error_discarded op ∷ [] else []

pub record Settled : Type 0 where
  pub group : Group
  pub build_failed : Bool
  pub events : List Event

abbrev pub is_built : BuildFeedback.Result → Bool
is_built BuildFeedback.Result.ok = true
is_built _ = false

-- `group.Fail`, or the build gate and then `group.Complete` or `group.Fail`.
unfoldable pub settle_group : Answers → Bool → Group → Settled
unfolding fail complete run_group_build_feedback_loop
settle_group a true g = record {
  group = (fail g).0;
  build_failed = false;
  events = discarded group_fail (is_some (fail g).1);
}
settle_group a false g =
    let run = run_group_build_feedback_loop a.fuel a.detection a.builds g in
    if is_built run.result
    then record {
      group = (complete run.group).0;
      build_failed = false;
      events = map gate run.events ++ discarded group_complete (is_some (complete run.group).1);
    }
    else record {
      group = (fail run.group).0;
      build_failed = true;
      events = map gate run.events ++ discarded group_fail (is_some (fail run.group).1);
    }

-- "group %s: %d/%d tasks done"
unfoldable pub lead_summary : (ℕ → String) → Group → ℕ → String
lead_summary count_text g done = text_append "group " (
    text_append g.name (
      text_append ": " (
        text_append (count_text done)
          (text_append "/" (text_append (count_text (length g.tasks)) " tasks done")))))

unfoldable pub lead_envelope : Change → String → Bool → Envelope
lead_envelope c summary failed = record {
  schema_version = schema_version_v1;
  phase = "apply";
  change_name = c.name;
  project = c.project;
  status = if failed then Envelope.Status.blocked else Envelope.Status.done;
  confidence = if failed then pos 0 else pos 850000;
  executive_summary = summary;
  artifacts_saved = [];
  next_recommended = [];
  risks = [];
  payload = "";
}

abbrev pub exit_code : Bool → ℤ
exit_code failed = if failed then pos 1 else pos 0

abbrev pub lead_error : Bool → Option Error
lead_error failed = if failed then some group_failed else none

-- What follows the goroutines of the tasks.
unfoldable pub close_group : Answers → Change → Session → Group → TasksRun → Lead
unfolding count_done had_failure settle_group lead_summary lead_envelope record_outcome
close_group a c sess g run =
    let failed = had_failure run.outcomes in
    let done = count_done run.outcomes in
    let settled = settle_group a failed (record g { tasks = run.tasks }) in
    let summary = lead_summary a.count_text settled.group done in
    let closed =
      record_outcome (some (lead_envelope c summary failed)) (exit_code failed) a.now sess in
    let saved = settled.events ++ discarded Operation.save_group (not a.saves_end) in
    if settled.build_failed
    then record {
      group = settled.group;
      breaker = run.breaker;
      outcome = record { failed = true; reason = some group_failed; tasks_done = done };
      session = some sess;
      events = team_lead_spawned ∷ saved;
    }
    else record {
      group = settled.group;
      breaker = run.breaker;
      outcome = record { failed = failed; reason = lead_error failed; tasks_done = done };
      session = some closed.0;
      events =
          team_lead_spawned ∷ saved
          ++ discarded session_outcome (is_some closed.1)
          ++ discarded save_session (not a.saves_session);
    }

-- A return before the tasks.
abbrev pub give_up : Error → Group → Breaker → Lead
give_up e g b = record {
  group = g;
  breaker = b;
  outcome = record { failed = true; reason = some e; tasks_done = 0 };
  session = none;
  events = [];
}

abbrev pub lead_session : Answers → Change → ℕ → Group → Option Session
lead_session a c phase_id g =
    make_session a.spawn c.id phase_id AgentRole.team_lead
      (text_append "team-lead orchestrating " g.name)

unfoldable pub run_team_lead : Answers → Change → ℕ → Group → Breaker → Lead
unfolding start make_session run_tasks close_group
run_team_lead a c phase_id g b =
    let (g', refused) = start g in
    if is_some refused
    then give_up group_start g' b
    else if not a.saves_start
    then give_up Error.save_group g' b
    else elim (lead_session a c phase_id g') [
      | none ↦ give_up no_session g' b
      | some sess ↦ close_group a c sess g' (run_tasks a.task_turn g'.tasks b [])
    ]
