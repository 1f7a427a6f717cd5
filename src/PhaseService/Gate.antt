-- ===== src/PhaseService/Gate.antt =====
-- internal/application/phase/service.go: Approve and Reject, which decide the gate of a phase that
-- governance paused. The audit log is what the gate is read from.
pub mod Once
use sophia_orchestrator.Prelude.{
  ℕ, String, Bool, true, false, not, List, [], ◌∷◌, Option, none, some, str_eq, if◌then◌else◌,
}
use sophia_orchestrator.Phase
use sophia_orchestrator.Phase.{Phase, is_running, start, complete}
use sophia_orchestrator.Phase.Statuses.{PhaseStatus, is_terminal}
use sophia_orchestrator.Change.{Change}
use sophia_orchestrator.Store
use sophia_orchestrator.Store.{Store, approval_resolved, has_event_for_phase}
use sophia_orchestrator.Store.Phases
use sophia_orchestrator.Store.Changes
use sophia_orchestrator.PhaseService.{
  Answers, Site, find_change, find_phase, save_rejected, gate_required, gate_resolved, append_audit,
  publish_event, save_phase, text_append,
}
use sophia_orchestrator.PhaseService.Failing.{blocked_envelope}

pub data Error : Type 0 where
  approver_required phase_not_found change_not_found phase_not_gated gate_already_decided
        save_failed :
      Error
  statement_failed : Site → Error
  already_terminal : PhaseStatus → Error
  refused : Phase.Error → Error

unfoldable pub check_gate_state : Answers → ℕ → Store → Option Error
unfolding has_event_for_phase
check_gate_state a id w =
    if not (a.works gate_required)
    then some (statement_failed gate_required)
    else if not (has_event_for_phase id "approval.required" w.audit)
    then some phase_not_gated
    else if not (a.works gate_resolved)
    then some (statement_failed gate_resolved)
    else if has_event_for_phase id "approval.resolved" w.audit
    then some gate_already_decided
    else none

-- The common guards of both requests: the phase, or why there is none to decide on.
pub data Gated : Type 0 where
  gated : Phase → Gated
  closed : Error → Gated

unfoldable pub open_gate : Answers → ℕ → String → Store → Gated
unfolding Phases.find_by_id is_terminal check_gate_state
open_gate a id approver w =
    if str_eq approver ""
    then closed approver_required
    else if not (a.works find_phase)
    then closed (statement_failed find_phase)
    else elim (Phases.find_by_id id w.phases) [
      | none ↦ closed phase_not_found
      | some p ↦
          if is_terminal p.status
          then closed (already_terminal p.status)
          else elim (check_gate_state a id w) [ some x ↦ closed x | none ↦ gated p ]
    ]

abbrev pub resolve : Answers → ℕ → String → String → String → Store → Store
resolve a id decision approver reason w =
    publish_event a id "approval.resolved" (approval_resolved decision approver reason a.now)
      (append_audit a none (some id) "approval.resolved" w)

unfoldable pub approve : Answers → ℕ → String → String → Store → Store × Option Error
unfolding open_gate append_audit publish_event
approve a id approver reason w = elim (open_gate a id approver w) [
  | closed x ↦ (w, some x)
  | gated p ↦ (resolve a id "approved" approver reason w, none)
]

abbrev pub rejection_text : String → String → String
rejection_text approver reason =
    text_append "Rejected by " (text_append approver (text_append ": " reason))

-- `Start` if the phase is not running, then `Complete` with the synthetic envelope.
unfoldable pub block_phase : ℕ → Change → String → Phase → Phase × Option Phase.Error
unfolding blocked_envelope start complete
block_phase now c text p =
    let (q, failed) = if is_running p.status then (p, none) else start now p in
    elim failed [
      | some x ↦ (q, some x)
      | none ↦ complete (some (blocked_envelope p.p_type c text)) now q
    ]

unfoldable pub reject_phase :
    Answers → Change → Phase → String → String → Store → Store × Option Error
unfolding block_phase save_phase append_audit publish_event
reject_phase a c p approver reason w =
    let (q, failed) = block_phase a.now c (rejection_text approver reason) p in
    elim failed [
      | some x ↦ (w, some (refused x))
      | none ↦ elim (save_phase a save_rejected q w) [
        | none ↦ (w, some save_failed)
        | some w' ↦ (resolve a p.id "rejected" approver reason w', none)
      ]
    ]

unfoldable pub reject : Answers → ℕ → String → String → Store → Store × Option Error
unfolding open_gate Changes.find_by_id reject_phase
reject a id approver reason w = elim (open_gate a id approver w) [
  | closed x ↦ (w, some x)
  | gated p ↦
      if not (a.works find_change)
      then (w, some (statement_failed find_change))
      else elim (Changes.find_by_id p.change_id w.changes) [
        | none ↦ (w, some change_not_found)
        | some c ↦ reject_phase a c p approver reason w
      ]
]
