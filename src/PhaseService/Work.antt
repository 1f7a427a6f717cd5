-- ===== src/PhaseService/Work.antt =====
-- internal/application/phase/service.go: runAsync, the scheduled work of a phase, with the branches
-- of the init phase and of the apply phase.
pub mod Settles
pub mod PersistFirst
pub mod IronLawOne
use sophia_orchestrator.Prelude.{
  ℕ, String, Bool, true, false, List, [], ◌∷◌, Option, none, some, str_eq, is_nil, if◌then◌else◌,
}
use sophia_orchestrator.Envelope
use sophia_orchestrator.Envelope.{Envelope}
use sophia_orchestrator.Phase.{Phase}
use sophia_orchestrator.Phase.Types.{PhaseType}
use sophia_orchestrator.Change.{Change}
use sophia_orchestrator.Discipline.Validator
use sophia_orchestrator.Discipline.Validator.{accept, reject}
use sophia_orchestrator.Store
use sophia_orchestrator.Store.{Store, governance, completed, completed_from_apply, Payload}
use sophia_orchestrator.PhaseService.{
  Answers, RunPhaseInput, GovernanceDecision, Decision, Governed, decided, ok, err, append_audit,
  publish_event, text_append, event_type_for_status,
}
use sophia_orchestrator.PhaseService
use sophia_orchestrator.PhaseService.Failing.{fail_phase}
use sophia_orchestrator.PhaseService.Finish.{
  settle, settled, unsettled, review_concerns, upgrade, advance_if_allowed, audit_end, concerns_of,
}
use sophia_orchestrator.PhaseService.Agent.{run_agent}

abbrev is_blocked : Envelope.Status → Bool
is_blocked Envelope.Status.blocked = true
is_blocked _ = false

abbrev detail_of : List String → String → String
detail_of blockers summary = if is_nil blockers then summary else join blockers
  where
    lines : List String → String
    lines [] = ""
    lines (b ∷ []) = text_append "- " b
    lines (b ∷ bs) = text_append (text_append "- " b) (text_append "\n" (lines bs))

    join : List String → String
    join bs =
        text_append
          (if str_eq summary "" then "Blockers:\n" else text_append summary "\n\nBlockers:\n")
          (lines bs)

-- `buildApplyFailedPayload`, for blockers that do not end with a line break.
unfoldable pub build_apply_failed_payload :
    (String → List String) → PhaseType → ℕ → Envelope → Payload
build_apply_failed_payload blockers_of pt ended_at e =
    let summary = e.executive_summary in
    let blockers = if str_eq e.payload "" then [] else blockers_of e.payload in
    Store.failed pt ended_at summary "apply.blocked" (detail_of blockers summary)

abbrev pub apply_payload : Answers → Envelope → Phase → Payload
apply_payload a e q =
    if is_blocked e.status
    then build_apply_failed_payload a.blockers_of q.p_type a.now e
    else completed_from_apply e (concerns_of q)

-- `runApplyPhase` after the executor's envelope.
unfoldable pub conclude_apply : Answers → Change → RunPhaseInput → Envelope → Phase → Store → Store
unfolding review_concerns upgrade settle fail_phase advance_if_allowed append_audit publish_event
    build_apply_failed_payload event_type_for_status
conclude_apply a c input e p w =
    let (e', p') = upgrade (review_concerns a input.context_overrides) e p in
    elim (settle a "" e' p' w) [
      | unsettled q reason ↦ fail_phase a q reason w
      | settled q w' ↦
          publish_event a q.id (event_type_for_status q.status) (apply_payload a e' q)
            (audit_end a c q (advance_if_allowed a c q w'))
    ]

abbrev pub executor_failure : Option String → String
executor_failure none = "apply executor returned nil envelope"
executor_failure (some text) = text_append "apply executor: " text

-- The executor's envelope counts even if it comes with an error.
unfoldable pub run_apply_phase :
    Answers → Option Envelope × Option String → Change → RunPhaseInput → Phase → Store → Store
unfolding fail_phase conclude_apply
run_apply_phase a answer c input p w = elim answer.0 [
  | none ↦ fail_phase a p (executor_failure answer.1) w
  | some e ↦ conclude_apply a c input e p w
]

abbrev pub announce_init : Answers → Change → Phase → Envelope → Store → Store
announce_init a c q e w =
    publish_event a q.id (event_type_for_status q.status) (completed q.p_type a.now e [])
      (audit_end a c q w)

-- The envelope of the init service is marshalled and validated like any other.
unfoldable pub conclude_init : Answers → Change → Envelope → Phase → Store → Store
unfolding Validator.validate settle fail_phase advance_if_allowed append_audit publish_event
    event_type_for_status
conclude_init a c e p w = elim (a.marshal e) [
  | err text ↦ fail_phase a p (text_append "init: marshal envelope: " text) w
  | ok raw ↦ elim (Validator.validate a.unmarshal raw p.p_type) [
    | reject x ↦
        fail_phase a p (text_append "init: envelope validation: " (a.validation_error_text x)) w
    | accept e' ↦ elim (settle a "init: " e' p w) [
      | unsettled q reason ↦ fail_phase a q reason w
      | settled q w' ↦ announce_init a c q e' (advance_if_allowed a c q w')
    ]
  ]
]

unfoldable pub run_init_phase :
    Answers → PhaseService.Answer (Option Envelope) → Change → Phase → Store → Store
unfolding fail_phase conclude_init
run_init_phase a answer c p w = elim answer [
  | err text ↦ fail_phase a p (text_append "init service: " text) w
  | ok result ↦ elim result [
    | none ↦ fail_phase a p "init service returned nil envelope" w
    | some e ↦ conclude_init a c e p w
  ]
]

abbrev pub approval_url : GovernanceDecision → String
approval_url d = elim d.approval [ none ↦ "" | some url ↦ url ]

-- The gate is audited before it is published.
unfoldable pub require_gate : Answers → GovernanceDecision → Change → Phase → Store → Store
unfolding append_audit publish_event
require_gate a d c p w =
    publish_event a p.id "approval.required" (Store.approval_required (approval_url d) d.reason)
      (append_audit a (some c.id) (some p.id) "approval.required" w)

abbrev pub is_apply : PhaseType → Bool
is_apply PhaseType.apply = true
is_apply _ = false

abbrev pub is_init : PhaseType → Bool
is_init PhaseType.init = true
is_init _ = false

abbrev pub wired {ℓ} : {A : Type ℓ} → Bool → Option A → Option A
wired true o = o
wired false o = none

unfoldable pub run_allowed : Answers → Change → RunPhaseInput → Phase → Store → Store
unfolding run_apply_phase run_agent
run_allowed a c input p w = elim (wired (is_apply p.p_type) a.apply_executor) [
  | some answer ↦ run_apply_phase a answer c input p w
  | none ↦ run_agent a c input p w
]

abbrev pub decision_text : Decision → String
decision_text Decision.allow = "allow"
decision_text Decision.allow_with_constraints = "allow_with_constraints"
decision_text Decision.require_approval = "require_approval"
decision_text Decision.deny = "deny"
decision_text (Decision.unknown s) = s

-- Step 5: the branch on the decision.
unfoldable pub run_decided :
    Answers → GovernanceDecision → Decision → Change → RunPhaseInput → Phase → Store → Store
unfolding fail_phase require_gate run_allowed
run_decided a d Decision.deny c input p w =
    fail_phase a p (text_append "governance denied: " d.reason) w
run_decided a d Decision.require_approval c input p w = require_gate a d c p w
run_decided a d Decision.allow c input p w = run_allowed a c input p w
run_decided a d Decision.allow_with_constraints c input p w = run_allowed a c input p w
run_decided a d (Decision.unknown s) c input p w = run_allowed a c input p w

abbrev pub announce_decision : Answers → GovernanceDecision → Phase → Store → Store
announce_decision a d p w =
    publish_event a p.id "governance.decision"
      (governance (decision_text d.decision) d.reason d.agent_role) w

unfoldable pub run_governed : Answers → Change → RunPhaseInput → Phase → Store → Store
unfolding publish_event fail_phase run_decided
run_governed a c input p w = elim a.governance [
  | PhaseService.failed text ↦ fail_phase a p (text_append "governance error: " text) w
  | decided d ↦ run_decided a d d.decision c input p (announce_decision a d p w)
]

unfoldable pub run_async : Answers → Change → RunPhaseInput → Phase → Store → Store
unfolding run_init_phase run_governed
run_async a c input p w = elim (wired (is_init p.p_type) a.init_service) [
  | some answer ↦ run_init_phase a answer c p w
  | none ↦ run_governed a c input p w
]
