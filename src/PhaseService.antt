-- ===== src/PhaseService.antt =====
-- internal/application/phase/service.go: the service that runs a phase: its requests, the work that
-- is scheduled, and how a phase ends. Here: what the service meets outside, and its small helpers.
pub mod Frames
pub mod Failing
pub mod Advance
pub mod Finish
pub mod Agent
pub mod Work
pub mod Requests
pub mod Gate
use Prim.Native.String.{◌++◌}
use sophia_orchestrator.Prelude.{
  ℕ, String, ℤ, Bool, true, false, List, [], ◌∷◌, Option, none, some, if◌then◌else◌,
}
use sophia_orchestrator.Envelope.{Envelope}
use sophia_orchestrator.Phase
use sophia_orchestrator.Phase.{Phase, Concern}
use sophia_orchestrator.Phase.Types.{PhaseType}
use sophia_orchestrator.Phase.Statuses.{PhaseStatus}
use sophia_orchestrator.Discipline.Validator
use sophia_orchestrator.Discipline.IronLaw.{Action}
use sophia_orchestrator.Change.{Change}
use sophia_orchestrator.Session
use sophia_orchestrator.Session.{Provider}
use sophia_orchestrator.Store.{Store, AuditEvent, Published, Payload}
use sophia_orchestrator.Store.Phases
use sophia_orchestrator.Store.Changes

abbrev pub text_append : String → String → String
text_append s t = s ++ t

-- The statements and calls of the service that may fail, each place on its own.
pub data Site : Type 0 where
  find_change find_phase lock_change find_running find_prior save_started save_restarted : Site
  load_prior : PhaseType → Site
  save_session save_outcome save_completed save_failed save_rejected find_failing find_sessions :
      Site
  save_change enqueue find_archive gate_required gate_resolved : Site
  append : String → Site
  publish : String → Site
  ingest : String → Site
  update_usage : ℕ → Site

-- outbound.GovernanceDecision
pub data Decision : Type 0 where
  allow allow_with_constraints require_approval deny : Decision
  unknown : String → Decision

pub record GovernanceDecision : Type 0 where
  pub decision : Decision
  pub agent_role : String
  pub reason : String
  pub approval : Option String

pub data Governed : Type 0 where
  decided : GovernanceDecision → Governed
  failed : String → Governed

-- What a call answers: a value or the text of its error.
pub data Answer (A : Type 0) : Type 0 where
  ok : A → Answer A
  err : String → Answer A

-- outbound.DispatchResult
pub record DispatchResult : Type 0 where
  pub envelope_raw : String
  pub exit_code : ℤ

-- A skill that matches, and the id that is minted for its usage.
pub record SkillMatch : Type 0 where
  pub skill_id : ℕ
  pub version : String
  pub usage_id : Option ℕ
  pub insert_works : Bool

-- The values of `ContextOverrides`; `other` is neither a Boolean nor a map.
mutual
  pub data Any : Type 0 where
    boolean : Bool → Any
    mapping : Entries → Any
    other : Any

  pub data Entries : Type 0 where
    empty : Entries
    entry : String → Any → Entries → Entries

-- Everything outside the service that one of its calls meets; the clock is read as `now`, and
-- `none` stands for a dependency that is not wired, or an id that does not parse.
pub record Answers : Type 0 where
  pub works : Site → Bool
  pub error_text : Site → String
  pub now : ℕ
  pub phase_id : Option ℕ
  pub session_id : Option ℕ
  pub outbox_id : Option ℕ
  pub id_error_text : String
  pub governance : Governed
  pub apply_executor : Option (Option Envelope × Option String)
  pub init_service : Option (Answer (Option Envelope))
  pub skills : List SkillMatch
  pub prompt : Answer String
  pub provider : Provider
  pub hash_prompt : String → String
  pub acquire : Option String
  pub dispatch : Answer DispatchResult
  pub release : Option String
  pub memory_record : Option String
  pub unmarshal : String → Option Envelope
  pub marshal : Envelope → Answer String
  pub top_level_keys : String → Option (List String)
  pub rule_of : String → Option (String × String)
  pub blockers_of : String → List String
  pub critic : Option (Answer (List Concern))
  pub outbox_wired : Bool
  -- The payload of `phase.archived`, marshalled from the id and the name of the change and the time.
  pub archived_body : ℕ → String → ℕ → Option (List ℕ)
  pub phase_error_text : Phase.Error → String
  pub session_error_text : Session.Error → String
  pub validation_error_text : Validator.Error → String
  pub count_text : ℕ → String

-- inbound.RunPhaseInput
pub record RunPhaseInput : Type 0 where
  pub change_id : ℕ
  pub phase_type : PhaseType
  pub task_description : String
  pub context_overrides : Entries
  pub retry_budget : ℤ

-- `appendAudit`: a failed append is dropped.
unfoldable pub append_audit : Answers → Option ℕ → Option ℕ → String → Store → Store
append_audit a cid pid event_type w =
    if a.works (append event_type)
    then record w {
      audit =
          record { change_id = cid; phase_id = pid; event_type = event_type; occurred_at = a.now }
          ∷ w.audit;
    }
    else w

-- `publishEvent`: a failed publication is dropped.
unfoldable pub publish_event : Answers → ℕ → String → Payload → Store → Store
publish_event a pid event_type payload w =
    if a.works (publish event_type)
    then record w {
      events = record { phase_id = pid; event_type = event_type; payload = payload } ∷ w.events;
    }
    else w

-- `PhaseRepo.Save` at a place: `none` if it fails.
unfoldable pub save_phase : Answers → Site → Phase → Store → Option Store
unfolding Phases.save
save_phase a site p w =
    if a.works site
    then elim (Phases.save p w.phases) [
      | none ↦ none
      | some rows ↦ some (record w { phases = rows })
    ]
    else none

-- `ChangeRepo.Save`
unfoldable pub save_change_row : Answers → Change → Store → Option Store
unfolding Changes.save
save_change_row a c w =
    if a.works save_change
    then elim (Changes.save c w.changes) [
      | none ↦ none
      | some rows ↦ some (record w { changes = rows })
    ]
    else none

abbrev pub or_same : Store → Option Store → Store
or_same w none = w
or_same w (some w') = w'

unfoldable pub event_type_for_status : PhaseStatus → String
event_type_for_status PhaseStatus.done = "phase.completed"
event_type_for_status PhaseStatus.done_with_concerns = "phase.completed_with_concerns"
event_type_for_status PhaseStatus.blocked = "phase.failed"
event_type_for_status PhaseStatus.needs_context = "phase.needs_context"
event_type_for_status _ = "phase.completed"

unfoldable pub action_for_phase : PhaseType → Action
action_for_phase PhaseType.apply = Action.run_apply
action_for_phase PhaseType.archive = Action.run_archive
action_for_phase _ = Action.start_phase
