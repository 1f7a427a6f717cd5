-- ===== src/PhaseService/Failing.antt =====
-- internal/application/phase/service.go: failPhase and failPhaseWithReason, which end a phase as
-- BLOCKED by an envelope of the orchestrator's own.
pub mod Blocked
use sophia_orchestrator.Prelude.{
  ℕ, String, pos, ltb, ◌==◌, Bool, true, false, ◌&&◌, not, List, [], ◌∷◌, Option, none, some,
  str_eq, if◌then◌else◌,
}
use sophia_orchestrator.Envelope
use sophia_orchestrator.Envelope.{Envelope, schema_version_v1}
use sophia_orchestrator.Phase.{Phase, Error, is_running, start, complete}
use sophia_orchestrator.Phase.Types.{PhaseType, to_string}
use sophia_orchestrator.Change.{Change}
use sophia_orchestrator.Session.{Session}
use sophia_orchestrator.Store.{Store}
use sophia_orchestrator.Store
use sophia_orchestrator.Store.Changes
use sophia_orchestrator.PhaseService.{
  Answers, find_failing, find_sessions, save_failed, append_audit, publish_event, save_phase,
  or_same,
}

-- The envelope that the service writes when it ends a phase itself.
unfoldable pub blocked_envelope : PhaseType → Change → String → Envelope
blocked_envelope pt c reason = record {
  schema_version = schema_version_v1;
  phase = to_string pt;
  change_name = c.name;
  project = c.project;
  status = Envelope.Status.blocked;
  confidence = pos 0;
  executive_summary = reason;
  artifacts_saved = [];
  next_recommended = [];
  risks = [];
  payload = "";
}

abbrev later : Session → Option Session → Session
later s none = s
later s (some t) = if ltb t.started_at s.started_at then s else t

-- The last session of the phase under ORDER BY started_at ASC.
pub latest_session : ℕ → List Session → Option Session
latest_session pid [] = none
latest_session pid (s ∷ ss) =
    let rest = latest_session pid ss in if s.phase_id == pid then some (later s rest) else rest

abbrev or_text : String → String → String
or_text s t = if str_eq s "" then t else s

-- What the envelope of the last session says: its rule with the message, or its summary.
unfoldable pub reason_of_envelope :
    (String → Option (String × String)) → Envelope → String → String × String
reason_of_envelope rule_of e fallback =
    let summary : String × String = ("unknown", or_text e.executive_summary fallback) in
    if str_eq e.payload "" then summary else elim (rule_of e.payload) [
      | none ↦ summary
      | some (rule, message) ↦
          if str_eq rule "" then summary else (rule, or_text message e.executive_summary)
    ]

unfoldable pub extract_failure_reason_from_session : Answers → ℕ → String → Store → String × String
unfolding latest_session reason_of_envelope
extract_failure_reason_from_session a pid fallback w =
    if not (a.works find_sessions)
    then ("unknown", fallback)
    else elim (latest_session pid w.sessions) [
      | none ↦ ("unknown", fallback)
      | some s ↦ elim s.envelope [
        | none ↦ ("unknown", fallback)
        | some e ↦ reason_of_envelope a.rule_of e fallback
      ]
    ]

-- `if p.Status() != Running { _ = p.Start(now) }`
abbrev pub ensure_running : ℕ → Phase → Phase
ensure_running now p = if is_running p.status then p else (start now p).0

-- The phase is saved only if it took the envelope; a failed save is dropped.
unfoldable pub save_blocked : Answers → Store → Phase × Option Error → Store
unfolding save_phase
save_blocked a w (q, some _) = w
save_blocked a w (q, none) = or_same w (save_phase a save_failed q w)

unfoldable pub block_row : Answers → Change → Phase → String → Store → Store
unfolding blocked_envelope save_blocked
block_row a c p reason w =
    save_blocked a w
      (complete (some (blocked_envelope p.p_type c reason)) a.now (ensure_running a.now p))

abbrev pub failure : Answers → ℕ → String → String → Store → String × String
failure a pid rule reason w =
    if str_eq rule "" then extract_failure_reason_from_session a pid reason w else (rule, reason)

abbrev pub report_failure : Answers → Change → Phase → String → String → Store → Store
report_failure a c p rule reason w =
    let audited = append_audit a (some c.id) (some p.id) "phase.failed" w in
    let (why, detail) = failure a p.id rule reason audited in
    publish_event a p.id "phase.failed" (Store.failed p.p_type a.now reason why detail) audited

unfoldable pub fail_phase_with_reason : Answers → Phase → String → String → Store → Store
unfolding Changes.find_by_id block_row append_audit publish_event
    extract_failure_reason_from_session
fail_phase_with_reason a p rule reason w =
    if not (a.works find_failing) then w else elim (Changes.find_by_id p.change_id w.changes) [
      | none ↦ w
      | some c ↦ report_failure a c p rule reason (block_row a c p reason w)
    ]

unfoldable pub fail_phase : Answers → Phase → String → Store → Store
unfolding fail_phase_with_reason
fail_phase a p reason w = fail_phase_with_reason a p "" reason w
