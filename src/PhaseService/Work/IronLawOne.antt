-- ===== src/PhaseService/Work/IronLawOne.antt =====
-- The scheduled work on every branch: persisted before the transition.
use sophia_orchestrator.Prelude.{
  ℕ, String, List, [], Option, none, some, Bool-cases, Option-cases, inl, inr, ◌∙◌,
}
use sophia_orchestrator.Envelope.{Envelope}
use sophia_orchestrator.Phase.{Phase}
use sophia_orchestrator.Change.{Change}
use sophia_orchestrator.Discipline.Validator
use sophia_orchestrator.Store.{Store, completed, governance, approval_required}
use sophia_orchestrator.PhaseService
use sophia_orchestrator.PhaseService.{
  Answers, Entries, RunPhaseInput, GovernanceDecision, Decision, ok, err, append_audit,
  publish_event, text_append,
}
use sophia_orchestrator.PhaseService.Frames.{Kept, Kept-trans, event-Kept, audit-Kept}
use sophia_orchestrator.PhaseService.Finish.{
  settle, after_settled, upgrade, review_concerns, conclude, advance_if_allowed,
}
use sophia_orchestrator.PhaseService.Finish.Rows.{after_settled-Advances, after_apply-Advances}
use sophia_orchestrator.PhaseService.Agent.{run_agent}
use sophia_orchestrator.PhaseService.Agent.Flow.{run_agent_good, Verdict-cases, Answer-cases}
use sophia_orchestrator.PhaseService.Work.{
  apply_payload, conclude_apply, executor_failure, run_apply_phase, announce_init, conclude_init,
  run_init_phase, approval_url, require_gate, is_apply, is_init, run_allowed, decision_text,
  announce_decision, run_governed, run_decided, run_async,
}
use sophia_orchestrator.PhaseService.Work.Settles.{Governed-cases}
use sophia_orchestrator.PhaseService.Work.PersistFirst.{
  PersistedFirst, fail_phase_with_reason-changes, fail_phase-changes, settle-SettledFirst,
  settle_then_first, upgraded_first,
}

after_Kept : (p : Phase) (w v v' : Store) → Kept w v → PersistedFirst p v v' → PersistedFirst p w v'
after_Kept p w v v' k (inl e) = inl (e ∙ k.changes)
after_Kept p w v v' k (inr e) = inr e

conclude-PersistedFirst :
    (a : Answers) (c : Change) (overrides : Entries) (usage : List ℕ) (e : Envelope) (p : Phase)
    (w : Store)
    → PersistedFirst p w (conclude a c overrides usage e p w)
unfolding conclude
conclude-PersistedFirst a c overrides usage e p w =
    let cs = review_concerns a overrides in
    let e' = (upgrade cs e p).0 in
    let p' = (upgrade cs e p).1 in
    upgraded_first cs e p w (conclude a c overrides usage e p w) (
      settle_then_first a p' w (settle a "" e' p' w) (λ q w'. after_settled a c usage e' q w')
        (settle-SettledFirst a "" e' p' w) (λ q w'. after_settled-Advances a c usage e' q w'))

run_agent-PersistedFirst :
    (a : Answers) (c : Change) (input : RunPhaseInput) (p : Phase) (w : Store)
    → PersistedFirst p w (run_agent a c input p w)
run_agent-PersistedFirst a c input p w =
    run_agent_good a c input p w (PersistedFirst p w)
      (λ rule reason v k. inl (fail_phase_with_reason-changes a p rule reason v ∙ k.changes))
      (λ usage e v k accepted.
        after_Kept p w v (conclude a c input.context_overrides usage e p v) k
          (conclude-PersistedFirst a c input.context_overrides usage e p v))

conclude_apply-PersistedFirst :
    (a : Answers) (c : Change) (input : RunPhaseInput) (e : Envelope) (p : Phase) (w : Store)
    → PersistedFirst p w (conclude_apply a c input e p w)
unfolding conclude_apply
conclude_apply-PersistedFirst a c input e p w =
    let cs = review_concerns a input.context_overrides in
    let e' = (upgrade cs e p).0 in
    let p' = (upgrade cs e p).1 in
    upgraded_first cs e p w (conclude_apply a c input e p w) (
      settle_then_first a p' w (settle a "" e' p' w)
        (λ q w'.
          publish_event a q.id (PhaseService.event_type_for_status q.status) (apply_payload a e' q)
            (PhaseService.Finish.audit_end a c q (advance_if_allowed a c q w')))
        (settle-SettledFirst a "" e' p' w)
        (λ q w'. after_apply-Advances a c q (apply_payload a e' q) w'))

run_apply-PersistedFirst :
    (a : Answers) (answer : Option Envelope × Option String) (c : Change) (input : RunPhaseInput)
    (p : Phase) (w : Store)
    → PersistedFirst p w (run_apply_phase a answer c input p w)
unfolding run_apply_phase
run_apply-PersistedFirst a (none, x) c input p w =
    inl (fail_phase-changes a p (executor_failure x) w)
run_apply-PersistedFirst a (some e, x) c input p w = conclude_apply-PersistedFirst a c input e p w

conclude_init-PersistedFirst :
    (a : Answers) (c : Change) (e : Envelope) (p : Phase) (w : Store)
    → PersistedFirst p w (conclude_init a c e p w)
unfolding conclude_init
conclude_init-PersistedFirst a c e p w = elim (Answer-cases (a.marshal e)) [
  | inr (t, f) ↦
      rw (conclude_init, f)
        (inl (fail_phase-changes a p (text_append "init: marshal envelope: " t) w))
  | inl (raw, f) ↦ elim (Verdict-cases (Validator.validate a.unmarshal raw p.p_type)) [
    | inr (x, g) ↦
        rw (conclude_init, f, g)
          (inl (
            fail_phase-changes a p
              (text_append "init: envelope validation: " (a.validation_error_text x)) w))
    | inl (e', g) ↦
        let first =
          settle_then_first a p w (settle a "init: " e' p w)
            (λ q w'. announce_init a c q e' (advance_if_allowed a c q w'))
            (settle-SettledFirst a "init: " e' p w)
            (λ q w'. after_apply-Advances a c q (completed q.p_type a.now e' []) w') in
        rw (conclude_init, f, g) first
  ]
]

run_init-PersistedFirst :
    (a : Answers) (answer : PhaseService.Answer (Option Envelope)) (c : Change) (p : Phase)
    (w : Store)
    → PersistedFirst p w (run_init_phase a answer c p w)
unfolding run_init_phase
run_init-PersistedFirst a (err t) c p w =
    inl (fail_phase-changes a p (text_append "init service: " t) w)
run_init-PersistedFirst a (ok none) c p w =
    inl (fail_phase-changes a p "init service returned nil envelope" w)
run_init-PersistedFirst a (ok (some e)) c p w = conclude_init-PersistedFirst a c e p w

run_allowed-PersistedFirst :
    (a : Answers) (c : Change) (input : RunPhaseInput) (p : Phase) (w : Store)
    → PersistedFirst p w (run_allowed a c input p w)
unfolding run_allowed
run_allowed-PersistedFirst a c input p w = elim (Bool-cases (is_apply p.p_type)) [
  | inr e ↦ rw (run_allowed, e) (run_agent-PersistedFirst a c input p w)
  | inl e ↦ elim (Option-cases a.apply_executor) [
    | inl f ↦ rw (run_allowed, e, f) (run_agent-PersistedFirst a c input p w)
    | inr (answer, f) ↦ rw (run_allowed, e, f) (run_apply-PersistedFirst a answer c input p w)
  ]
]

gate-Kept :
    (a : Answers) (d : GovernanceDecision) (c : Change) (p : Phase) (w : Store)
    → Kept w (require_gate a d c p w)
unfolding require_gate
gate-Kept a d c p w =
    let audited = append_audit a (some c.id) (some p.id) "approval.required" w in
    let event = approval_required (approval_url d) d.reason in
    Kept-trans w audited (publish_event a p.id "approval.required" event audited)
      (audit-Kept a (some c.id) (some p.id) "approval.required" w)
      (event-Kept a p.id "approval.required" event audited)

run_decided-PersistedFirst :
    (a : Answers) (d : GovernanceDecision) (x : Decision) (c : Change) (input : RunPhaseInput)
    (p : Phase) (w : Store)
    → PersistedFirst p w (run_decided a d x c input p w)
unfolding run_decided
run_decided-PersistedFirst a d Decision.deny c input p w =
    inl (fail_phase-changes a p (text_append "governance denied: " d.reason) w)
run_decided-PersistedFirst a d Decision.require_approval c input p w =
    inl (gate-Kept a d c p w).changes
run_decided-PersistedFirst a d Decision.allow c input p w = run_allowed-PersistedFirst a c input p w
run_decided-PersistedFirst a d Decision.allow_with_constraints c input p w =
    run_allowed-PersistedFirst a c input p w
run_decided-PersistedFirst a d (Decision.unknown s) c input p w =
    run_allowed-PersistedFirst a c input p w

run_governed-PersistedFirst :
    (a : Answers) (c : Change) (input : RunPhaseInput) (p : Phase) (w : Store)
    → PersistedFirst p w (run_governed a c input p w)
unfolding run_governed
run_governed-PersistedFirst a c input p w = elim (Governed-cases a.governance) [
  | inr (t, e) ↦
      rw (run_governed, e) (inl (fail_phase-changes a p (text_append "governance error: " t) w))
  | inl (d, e) ↦
      let told = announce_decision a d p w in
      let event = governance (decision_text d.decision) d.reason d.agent_role in
      rw (run_governed, e)
        (after_Kept p w told (run_decided a d d.decision c input p told)
          (event-Kept a p.id "governance.decision" event w)
          (run_decided-PersistedFirst a d d.decision c input p told))
]

-- Iron Law 1, whatever fails on the way: after the scheduled work of a phase, the table of the
-- changes is as before, or the table of the phases has a row with the change, the type and the
-- attempt of the phase whose status is DONE or DONE_WITH_CONCERNS.
pub run_async-PersistedFirst :
    (a : Answers) (c : Change) (input : RunPhaseInput) (p : Phase) (w : Store)
    → PersistedFirst p w (run_async a c input p w)
unfolding run_async
run_async-PersistedFirst a c input p w = elim (Bool-cases (is_init p.p_type)) [
  | inr e ↦ rw (run_async, e) (run_governed-PersistedFirst a c input p w)
  | inl e ↦ elim (Option-cases a.init_service) [
    | inl f ↦ rw (run_async, e, f) (run_governed-PersistedFirst a c input p w)
    | inr (answer, f) ↦ rw (run_async, e, f) (run_init-PersistedFirst a answer c p w)
  ]
]
