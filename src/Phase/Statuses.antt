-- ===== src/Phase/Statuses.antt =====
-- internal/domain/phase/status.go: the lifecycle states of a phase.
use sophia_orchestrator.Prelude.{String, Bool, true, false}

-- `unknown s` is a text `s` that is none of the constants.
pub data PhaseStatus : Type 0 where
  pending running done done_with_concerns blocked needs_context interrupted : PhaseStatus
  unknown : String → PhaseStatus

unfoldable pub is_valid : PhaseStatus → Bool
is_valid (PhaseStatus.unknown _) = false
is_valid _ = true

unfoldable pub is_terminal : PhaseStatus → Bool
is_terminal PhaseStatus.done = true
is_terminal PhaseStatus.done_with_concerns = true
is_terminal PhaseStatus.blocked = true
is_terminal _ = false

unfoldable pub advance_allowed : PhaseStatus → Bool
advance_allowed PhaseStatus.done = true
advance_allowed PhaseStatus.done_with_concerns = true
advance_allowed _ = false
