-- ===== src/Phase.antt =====
-- internal/domain/phase/phase.go: one execution of a phase, its states and its retry budget.
-- A method on `*Phase` returns the new record with the error, `none` for nil. Identifiers are
-- numbers, times are ticks.
pub mod Types
pub mod Statuses
pub mod Lifecycle
pub mod Completion
use sophia_orchestrator.Prelude.{
  ℕ, zero, suc, ◌+◌, String, ℤ, pos, negsuc, ltb_ℤ, leb, Bool, true, false, ◌&&◌, not, List, [],
  Option, none, some, str_eq, if◌then◌else◌,
}
use sophia_orchestrator.Envelope
use sophia_orchestrator.Envelope.{Envelope}
use Types
use Types.{PhaseType, to_string, confidence_threshold}
use Statuses.{PhaseStatus, is_terminal}

pub data Error : Type 0 where
  invalid_type terminal not_running budget_exhausted below_threshold envelope_nil envelope_mismatch
        not_blocked :
      Error

-- internal/domain/phase/concern.go
pub record Concern : Type 0 where
  pub severity : String
  pub category : String
  pub message : String
  pub evidence : String

pub record Phase : Type 0 where
  pub id : ℕ
  pub change_id : ℕ
  pub p_type : PhaseType
  pub status : PhaseStatus
  pub envelope : Option Envelope
  pub confidence : ℤ
  pub retry_budget : ℕ
  pub attempts : ℕ
  pub started_at : Option ℕ
  pub completed_at : Option ℕ
  pub concerns : List Concern

pub data Created : Type 0 where
  ok : Phase → Created
  err : Error → Created

-- `if retryBudget <= 0 { retryBudget = 1 }`
abbrev pub positive_budget : ℤ → ℕ
positive_budget (pos zero) = 1
positive_budget (pos (suc n)) = suc n
positive_budget (negsuc _) = 1

unfoldable pub new : ℕ → ℕ → PhaseType → ℤ → Created
unfolding Types.is_valid
new id change_id pt retry_budget =
    if not (Types.is_valid pt)
    then err invalid_type
    else ok (record {
      id = id;
      change_id = change_id;
      p_type = pt;
      status = PhaseStatus.pending;
      envelope = none;
      confidence = pos 0;
      retry_budget = positive_budget retry_budget;
      attempts = 0;
      started_at = none;
      completed_at = none;
      concerns = [];
    })

unfoldable pub set_concerns : List Concern → Phase → Phase
set_concerns concerns p = record p { concerns = concerns }

unfoldable pub start : ℕ → Phase → Phase × Option Error
unfolding is_terminal
start now p =
    if is_terminal p.status
    then (p, some terminal)
    else if leb p.retry_budget p.attempts
    then (p, some budget_exhausted)
    else (
      record p { status = PhaseStatus.running; attempts = p.attempts + 1; started_at = some now },
      none,
    )

abbrev pub is_running : PhaseStatus → Bool
is_running PhaseStatus.running = true
is_running _ = false

abbrev pub is_blocked : PhaseStatus → Bool
is_blocked PhaseStatus.blocked = true
is_blocked _ = false

abbrev pub claims_done : Envelope.Status → Bool
claims_done Envelope.Status.done = true
claims_done _ = false

-- The last switch of `Complete`: a status that is none of the four leaves the phase's as it was.
abbrev pub outcome : Envelope.Status → PhaseStatus → PhaseStatus
outcome Envelope.Status.done s = PhaseStatus.done
outcome Envelope.Status.done_with_concerns s = PhaseStatus.done_with_concerns
outcome Envelope.Status.blocked s = PhaseStatus.blocked
outcome Envelope.Status.needs_context s = PhaseStatus.needs_context
outcome (Envelope.Status.unknown _) s = s

abbrev complete_with : Envelope → ℕ → Phase → Phase × Option Error
unfolding confidence_threshold
complete_with e now p =
    if not (str_eq e.phase (to_string p.p_type))
    then (p, some envelope_mismatch)
    else if claims_done e.status && ltb_ℤ e.confidence (confidence_threshold p.p_type)
    then (p, some below_threshold)
    else (
      record p {
        envelope = some e;
        confidence = e.confidence;
        completed_at = some now;
        status = outcome e.status p.status;
      },
      none,
    )

abbrev complete_running : Option Envelope → ℕ → Phase → Phase × Option Error
unfolding confidence_threshold
complete_running none now p = (p, some envelope_nil)
complete_running (some e) now p = complete_with e now p

unfoldable pub complete : Option Envelope → ℕ → Phase → Phase × Option Error
unfolding confidence_threshold
complete e now p =
    if not (is_running p.status) then (p, some not_running) else complete_running e now p

unfoldable pub mark_interrupted : Phase → Phase × Option Error
unfolding is_terminal
mark_interrupted p =
    if is_terminal p.status
    then (p, some terminal)
    else (record p { status = PhaseStatus.interrupted }, none)

unfoldable pub restart : ℕ → Phase → Phase × Option Error
unfolding is_terminal
restart now p =
    if not (is_blocked p.status)
    then (if is_terminal p.status then (p, some terminal) else (p, some not_blocked))
    else if leb p.retry_budget p.attempts
    then (p, some budget_exhausted)
    else (
      record p {
        status = PhaseStatus.running;
        attempts = p.attempts + 1;
        started_at = some now;
        completed_at = none;
        envelope = none;
        confidence = pos 0;
      },
      none,
    )
