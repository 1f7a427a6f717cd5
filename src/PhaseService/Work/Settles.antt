-- ===== src/PhaseService/Work/Settles.antt =====
-- Every run of the scheduled work ends its phase, or leaves it at the approval gate.
use sophia_orchestrator.Prelude.{
  ℕ, String, true, [], Option, none, some, ◌≡◌, refl, Bool-cases, Option-cases, inl, inr, ◌⊎◌,
  subst, ==_refl,
}
use sophia_orchestrator.Envelope
use sophia_orchestrator.Envelope.{Envelope}
use sophia_orchestrator.Envelope.Validation.{Known→valid}
use sophia_orchestrator.Phase.{Phase}
use sophia_orchestrator.Change.{Change}
use sophia_orchestrator.Discipline.Validator
use sophia_orchestrator.Discipline.Validator.Coercion.{validated_completes}
use sophia_orchestrator.Store.{Store, governance, completed, has_event_for_phase}
use sophia_orchestrator.PhaseService
use sophia_orchestrator.PhaseService.{
  Answers, RunPhaseInput, GovernanceDecision, Decision, Governed, decided, ok, err, append, publish,
  append_audit, publish_event, text_append,
}
use sophia_orchestrator.PhaseService.Frames.{event-Kept}
use sophia_orchestrator.PhaseService.Failing.Blocked.{Ready, Ready-Kept, Ended}
use sophia_orchestrator.PhaseService.Finish.{settle, review_concerns, upgrade, advance_if_allowed}
use sophia_orchestrator.PhaseService.Finish.Rows.{after_apply-Advances}
use sophia_orchestrator.PhaseService.Finish.Ends.{
  Works, fail_phase-Ended, upgrade-Ready, settle_then, settle-Settles,
}
use sophia_orchestrator.PhaseService.Agent.Flow.{Verdict-cases, Answer-cases}
use sophia_orchestrator.PhaseService.Agent.Ends.{run_agent-Ended}
use sophia_orchestrator.PhaseService.Work.{
  apply_payload, conclude_apply, executor_failure, run_apply_phase, announce_init, conclude_init,
  run_init_phase, require_gate, is_apply, is_init, run_allowed, decision_text, run_governed,
  run_decided, run_async,
}

conclude_apply-Ended :
    (a : Answers) (c : Change) (input : RunPhaseInput) (e : Envelope) (p : Phase) (w : Store)
    → Works a
    → Ready p w
    → Envelope.is_valid e.status ≡ true
    → Ended p.id (conclude_apply a c input e p w)
unfolding conclude_apply
conclude_apply-Ended a c input e p w h r v =
    let cs = review_concerns a input.context_overrides in
    let e' = (upgrade cs e p).0 in
    let p' = (upgrade cs e p).1 in
    let (i, valid, ready) = upgrade-Ready cs e p w r v in
    let ends : Ended p'.id (conclude_apply a c input e p w) =
      settle_then a p'.id w (settle a "" e' p' w)
        (λ q w'.
          publish_event a q.id (PhaseService.event_type_for_status q.status) (apply_payload a e' q)
            (PhaseService.Finish.audit_end a c q (advance_if_allowed a c q w')))
        h (settle-Settles a "" e' p' w h ready valid)
        (λ q w'. after_apply-Advances a c q (apply_payload a e' q) w') in
    subst (λ x. Ended x (conclude_apply a c input e p w)) i ends

-- An envelope of the apply executor, if there is one, has one of the four statuses.
abbrev pub ExecutorValid : Option (Option Envelope × Option String) → Type 0
ExecutorValid none = Unit
ExecutorValid (some (none, x)) = Unit
ExecutorValid (some (some e, x)) = Envelope.is_valid e.status ≡ true

run_apply-Ended :
    (a : Answers) (answer : Option Envelope × Option String) (c : Change) (input : RunPhaseInput)
    (p : Phase) (w : Store)
    → Works a
    → Ready p w
    → ExecutorValid (some answer)
    → Ended p.id (run_apply_phase a answer c input p w)
unfolding run_apply_phase
run_apply-Ended a (none, x) c input p w h r v = fail_phase-Ended a p (executor_failure x) w h r
run_apply-Ended a (some e, x) c input p w h r v = conclude_apply-Ended a c input e p w h r v

conclude_init-Ended :
    (a : Answers) (c : Change) (e : Envelope) (p : Phase) (w : Store)
    → Works a
    → Ready p w
    → Ended p.id (conclude_init a c e p w)
unfolding conclude_init
conclude_init-Ended a c e p w h r = elim (Answer-cases (a.marshal e)) [
  | inr (t, f) ↦
      rw (conclude_init, f) (fail_phase-Ended a p (text_append "init: marshal envelope: " t) w h r)
  | inl (raw, f) ↦ elim (Verdict-cases (Validator.validate a.unmarshal raw p.p_type)) [
    | inr (x, g) ↦
        rw (conclude_init, f, g)
          (fail_phase-Ended a p
            (text_append "init: envelope validation: " (a.validation_error_text x)) w h r)
    | inl (e', g) ↦
        let (formed, _) = validated_completes a.unmarshal raw a.now p g r.running in
        let ends =
          settle_then a p.id w (settle a "init: " e' p w)
            (λ q w'. announce_init a c q e' (advance_if_allowed a c q w')) h
            (settle-Settles a "init: " e' p w h r (Known→valid e'.status formed.status))
            (λ q w'. after_apply-Advances a c q (completed q.p_type a.now e' []) w') in
        rw (conclude_init, f, g) ends
  ]
]

run_init-Ended :
    (a : Answers) (answer : PhaseService.Answer (Option Envelope)) (c : Change) (p : Phase)
    (w : Store)
    → Works a
    → Ready p w
    → Ended p.id (run_init_phase a answer c p w)
unfolding run_init_phase
run_init-Ended a (err t) c p w h r = fail_phase-Ended a p (text_append "init service: " t) w h r
run_init-Ended a (ok none) c p w h r =
    fail_phase-Ended a p "init service returned nil envelope" w h r
run_init-Ended a (ok (some e)) c p w h r = conclude_init-Ended a c e p w h r

-- The phase waits for a decision.
abbrev pub Paused : ℕ → Store → Type 0
Paused id w = has_event_for_phase id "approval.required" w.audit ≡ true

gate-Paused :
    (a : Answers) (d : GovernanceDecision) (c : Change) (p : Phase) (w : Store)
    → Works a
    → Paused p.id (require_gate a d c p w)
unfolding require_gate append_audit publish_event has_event_for_phase
gate-Paused a d c p w h =
    rw (require_gate, h (append "approval.required"), h (publish "approval.required"), ==_refl p.id)
      refl

run_allowed-Ended :
    (a : Answers) (c : Change) (input : RunPhaseInput) (p : Phase) (w : Store)
    → Works a
    → Ready p w
    → ExecutorValid a.apply_executor
    → Ended p.id (run_allowed a c input p w)
unfolding run_allowed
run_allowed-Ended a c input p w h r v = elim (Bool-cases (is_apply p.p_type)) [
  | inr e ↦ rw (run_allowed, e) (run_agent-Ended a c input p w h r)
  | inl e ↦ elim (Option-cases a.apply_executor) [
    | inl f ↦ rw (run_allowed, e, f) (run_agent-Ended a c input p w h r)
    | inr (answer, f) ↦
        let valid : ExecutorValid (some answer) = rw f at v in
        rw (run_allowed, e, f) (run_apply-Ended a answer c input p w h r valid)
  ]
]

pub Governed-cases :
    (g : Governed)
    → ((d : GovernanceDecision) × (g ≡ decided d)) ⊎ ((t : String) × (g ≡ PhaseService.failed t))
Governed-cases (decided d) = inl (d, refl)
Governed-cases (PhaseService.failed t) = inr (t, refl)

run_decided-Ended :
    (a : Answers) (d : GovernanceDecision) (x : Decision) (c : Change) (input : RunPhaseInput)
    (p : Phase) (w : Store)
    → Works a
    → Ready p w
    → ExecutorValid a.apply_executor
    → Ended p.id (run_decided a d x c input p w) ⊎ Paused p.id (run_decided a d x c input p w)
unfolding run_decided
run_decided-Ended a d Decision.deny c input p w h r v =
    inl (fail_phase-Ended a p (text_append "governance denied: " d.reason) w h r)
run_decided-Ended a d Decision.require_approval c input p w h r v = inr (gate-Paused a d c p w h)
run_decided-Ended a d Decision.allow c input p w h r v = inl (run_allowed-Ended a c input p w h r v)
run_decided-Ended a d Decision.allow_with_constraints c input p w h r v =
    inl (run_allowed-Ended a c input p w h r v)
run_decided-Ended a d (Decision.unknown s) c input p w h r v =
    inl (run_allowed-Ended a c input p w h r v)

run_governed-Ended :
    (a : Answers) (c : Change) (input : RunPhaseInput) (p : Phase) (w : Store)
    → Works a
    → Ready p w
    → ExecutorValid a.apply_executor
    → Ended p.id (run_governed a c input p w) ⊎ Paused p.id (run_governed a c input p w)
unfolding run_governed
run_governed-Ended a c input p w h r v = elim (Governed-cases a.governance) [
  | inr (t, e) ↦
      rw (run_governed, e) (inl (fail_phase-Ended a p (text_append "governance error: " t) w h r))
  | inl (d, e) ↦
      let event = governance (decision_text d.decision) d.reason d.agent_role in
      let w' = publish_event a p.id "governance.decision" event w in
      let ready : Ready p w' =
        Ready-Kept p w w' r (event-Kept a p.id "governance.decision" event w) in
      rw (run_governed, e) (run_decided-Ended a d d.decision c input p w' h ready v)
]

-- Every run of the scheduled work leaves its phase behind: if all statements work and the phase is
-- running, with its row and its change in the tables, and an envelope of the apply executor has a
-- known status, then afterwards the row of the phase is neither running nor interrupted, or an
-- approval was required for it. It holds for every answer of governance, the agent, the validator,
-- the critic, the governor and the services.
pub run_async_settles :
    (a : Answers) (c : Change) (input : RunPhaseInput) (p : Phase) (w : Store)
    → Works a
    → Ready p w
    → ExecutorValid a.apply_executor
    → Ended p.id (run_async a c input p w) ⊎ Paused p.id (run_async a c input p w)
unfolding run_async
run_async_settles a c input p w h r v = elim (Bool-cases (is_init p.p_type)) [
  | inr e ↦ rw (run_async, e) (run_governed-Ended a c input p w h r v)
  | inl e ↦ elim (Option-cases a.init_service) [
    | inl f ↦ rw (run_async, e, f) (run_governed-Ended a c input p w h r v)
    | inr (answer, f) ↦ rw (run_async, e, f) (inl (run_init-Ended a answer c p w h r))
  ]
]
