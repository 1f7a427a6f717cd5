-- ===== src/Store.antt =====
-- The tables that the services write, and the statements of internal/adapters/outbound/pg on them.
-- A table is the list of its rows. A statement that breaks a unique constraint gives `none`.
pub mod Phases
pub mod Changes
pub mod Unique
pub mod Read
pub mod Latest
use sophia_orchestrator.Prelude.{
  ℕ, String, Bool, true, false, ◌&&◌, ◌==◌, List, [], ◌∷◌, Option, none, some, str_eq,
  if◌then◌else◌,
}
use sophia_orchestrator.Phase.{Phase, Concern}
use sophia_orchestrator.Phase.Types.{PhaseType}
use sophia_orchestrator.Change.{Change}
use sophia_orchestrator.Envelope
use sophia_orchestrator.Session.{Session}
use sophia_orchestrator.SkillUsage.{SkillUsage}
use sophia_orchestrator.Outbox

-- outbound.AuditEvent without its payload.
pub record AuditEvent : Type 0 where
  pub change_id : Option ℕ
  pub phase_id : Option ℕ
  pub event_type : String
  pub occurred_at : ℕ

-- outbound.IngestMemoryInput, as far as it varies.
pub record Ingested : Type 0 where
  pub topic_key : String
  pub tags : List String
  pub content : String
  pub summary : String
  pub project_id : String
  pub session_id : ℕ

-- What is published on the stream of a phase.
pub data Payload : Type 0 where
  started : PhaseType → ℕ → ℕ → Payload
  governance : String → String → String → Payload
  approval_required : String → String → Payload
  approval_resolved : String → String → String → ℕ → Payload
  dispatched : ℕ → Payload
  received : Envelope.Envelope → Payload
  persist_failed : Envelope.ArtifactRef → String → Payload
  completed : PhaseType → ℕ → Envelope.Envelope → List Concern → Payload
  completed_from_apply : Envelope.Envelope → List Concern → Payload
  failed : PhaseType → ℕ → String → String → String → Payload
  archived : ℕ → String → ℕ → Payload

pub record Published : Type 0 where
  pub phase_id : ℕ
  pub event_type : String
  pub payload : Payload

pub record Store : Type 0 where
  pub changes : List Change
  pub phases : List Phase
  pub sessions : List Session
  pub usage : List SkillUsage
  pub outbox : List Outbox.Event
  pub audit : List AuditEvent
  pub events : List Published
  pub memory : List Ingested

abbrev names_phase : ℕ → String → AuditEvent → Bool
names_phase id t e = elim e.phase_id [ none ↦ false | some i ↦ i == id && str_eq e.event_type t ]

-- `HasEventForPhase`: EXISTS of an audit row with the phase and the type.
unfoldable pub has_event_for_phase : ℕ → String → List AuditEvent → Bool
has_event_for_phase id t [] = false
has_event_for_phase id t (e ∷ es) =
    let rest = has_event_for_phase id t es in if names_phase id t e then true else rest
