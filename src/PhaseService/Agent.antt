-- ===== src/PhaseService/Agent.antt =====
-- internal/application/phase/service.go: the flow of a single agent in runAsync, from the Iron Law
-- check to the validated envelope.
pub mod Flow
pub mod Ends
use sophia_orchestrator.Prelude.{
  ℕ, ◌-◌, String, ℤ, negsuc, Bool, true, false, ◌&&◌, not, List, [], ◌∷◌, Option, none, some,
  str_eq, is_nil, length, if◌then◌else◌,
}
use sophia_orchestrator.Envelope.{Envelope}
use sophia_orchestrator.Phase.{Phase}
use sophia_orchestrator.Phase.Types.{PhaseType, to_string, all_phase_types, same}
use sophia_orchestrator.Change.{Change}
use sophia_orchestrator.Discipline.Validator
use sophia_orchestrator.Discipline.Validator.{accept, reject}
use sophia_orchestrator.Discipline.IronLaw
use sophia_orchestrator.Discipline.IronLaw.{PhasePredicate}
use sophia_orchestrator.Session
use sophia_orchestrator.Session.{Session, mark_running, record_outcome, role_for}
use sophia_orchestrator.SkillUsage
use sophia_orchestrator.SkillUsage.{insert}
use sophia_orchestrator.Store.{Store, dispatched, received}
use sophia_orchestrator.Store.Phases
use sophia_orchestrator.PhaseService.{
  Answers, Answer, SkillMatch, DispatchResult, RunPhaseInput, ok, err, load_prior, save_session,
  save_outcome, append_audit, publish_event, text_append, action_for_phase,
}
use sophia_orchestrator.PhaseService.Failing.{fail_phase, fail_phase_with_reason}
use sophia_orchestrator.PhaseService.Finish.{conclude}

abbrev pub Priors : Type 0
Priors = PhaseType → Option PhasePredicate

abbrev pub predicate : Phase → PhasePredicate
predicate p = record { status = p.status; confidence = p.confidence }

-- `out[pt] = …`
abbrev pub with_prior : PhaseType → Option Phase → Priors → Priors
with_prior t none m u = m u
with_prior t (some p) m u = if same t u then some (predicate p) else m u

-- The loop of `loadPriorPhases` over the types: a row that is not found is passed over.
unfoldable pub load_prior_phases : Answers → Store → ℕ → List PhaseType → Answer Priors
unfolding Phases.find_by_change_and_type
load_prior_phases a w change_id [] = ok (λ _. none)
load_prior_phases a w change_id (t ∷ ts) =
    let rest = load_prior_phases a w change_id ts in
    if not (a.works (load_prior t)) then err (a.error_text (load_prior t)) else elim rest [
      | err text ↦ err text
      | ok m ↦ ok (with_prior t (Phases.find_by_change_and_type change_id t w.phases) m)
    ]

unfoldable pub preflight : Phase → Priors → IronLaw.Context
unfolding action_for_phase
preflight p prior = record {
  action = action_for_phase p.p_type;
  desired_phase = p.p_type;
  prior_phases = prior;
  has_governance_decision = true;
  task_attempts = p.attempts - 1;
}

-- The usage rows of the injected skills, with the ids of those that were written.
unfoldable pub record_usage : Answers → Change → Phase → List SkillMatch → Store → Store × List ℕ
unfolding SkillUsage.new insert
record_usage a c p [] w = (w, [])
record_usage a c p (k ∷ ks) w = elim k.usage_id [
  | none ↦ record_usage a c p ks w
  | some id ↦
      let row = SkillUsage.new id c.id (to_string p.p_type) k.skill_id k.version a.now in
      elim k.insert_works [
        | false ↦ record_usage a c p ks w
        | true ↦
            let (w', ids) = record_usage a c p ks (record w { usage = insert row w.usage }) in
            (w', id ∷ ids)
      ]
]

-- `SessionRepo.Save` at a place; a discarded error is audited where the source does so.
abbrev pub store_session : Session → Store → Store
store_session s w = record w { sessions = Session.save s w.sessions }

unfoldable pub discarded : Answers → Change → Phase → Store → Store
unfolding append_audit
discarded a c p w = append_audit a (some c.id) (some p.id) "phase.apply.error.discarded" w

-- `if err != nil`, where the error is only noted.
unfoldable pub note_discarded {ℓ} :
    {A : Type ℓ} → Answers → Change → Phase → Option A → Store → Store
unfolding discarded
note_discarded a c p none w = w
note_discarded a c p (some _) w = discarded a c p w

unfoldable pub close_session :
    Answers → Change → Phase → Option Envelope → ℤ → Session → Store → Store
unfolding record_outcome Session.save note_discarded
close_session a c p e exit s w =
    let (s', refused) = record_outcome e exit a.now s in
    let audited = note_discarded a c p refused w in
    if a.works save_outcome then store_session s' audited else discarded a c p audited

-- A flat `tasks` list without `groups` in the data of the tasks phase.
unfoldable pub detect_tasks_schema_mismatch : (String → Option (List String)) → String → Bool
detect_tasks_schema_mismatch keys payload =
    if str_eq payload ""
    then false
    else elim (keys payload) [ none ↦ false | some ks ↦ has "tasks" ks && not (has "groups" ks) ]
  where
    has : String → List String → Bool
    has k [] = false
    has k (x ∷ xs) = let rest = has k xs in if str_eq x k then true else rest

abbrev pub schema_text : String
schema_text = "tasks output must use data.groups[] not a flat tasks array (schema_mismatch)"

abbrev pub is_tasks : PhaseType → Bool
is_tasks PhaseType.tasks = true
is_tasks _ = false

-- From the accepted envelope on.
unfoldable pub after_envelope :
    Answers → Change → RunPhaseInput → List ℕ → Session → ℤ → Envelope → Phase → Store → Store
unfolding close_session detect_tasks_schema_mismatch fail_phase_with_reason publish_event conclude
after_envelope a c input usage s exit e p w =
    let closed = close_session a c p (some e) exit s w in
    if is_tasks p.p_type && detect_tasks_schema_mismatch a.top_level_keys e.payload
    then fail_phase_with_reason a p "schema_mismatch" schema_text closed
    else conclude a c input.context_overrides usage e p
        (publish_event a p.id "agent.envelope.received" (received e) closed)

abbrev pub raw_envelope : Answers → DispatchResult → String
raw_envelope a r =
    if str_eq r.envelope_raw ""
    then elim a.memory_record [ none ↦ "" | some content ↦ content ]
    else r.envelope_raw

-- From the answer of the dispatcher on; the slot of the governor is released first.
unfoldable pub after_dispatch :
    Answers → Change → RunPhaseInput → List ℕ → Session → Phase → Store → Store
unfolding note_discarded close_session fail_phase Validator.validate after_envelope
after_dispatch a c input usage s p w =
    let w' = note_discarded a c p a.release w in
    elim a.dispatch [
      | err text ↦
          fail_phase a p (text_append "dispatch: " text) (close_session a c p none (negsuc 0) s w')
      | ok r ↦ elim (Validator.validate a.unmarshal (raw_envelope a r) p.p_type) [
        | reject x ↦
            fail_phase a p (text_append "envelope validation: " (a.validation_error_text x))
              (close_session a c p none r.exit_code s w')
        | accept e ↦ after_envelope a c input usage s r.exit_code e p w'
      ]
    ]

-- From the running session on: it is saved, announced, and its agent dispatched under the governor.
unfoldable pub dispatch_agent :
    Answers → Change → RunPhaseInput → List ℕ → Session → Phase → Store → Store
unfolding Session.save fail_phase publish_event after_dispatch
dispatch_agent a c input usage s p w =
    if not (a.works save_session)
    then fail_phase a p (text_append "save session: " (a.error_text save_session)) w
    else (let announced =
          publish_event a p.id "agent.dispatched" (dispatched s.id) (store_session s w) in
        elim a.acquire [
          | some text ↦ fail_phase a p (text_append "spawn governor: " text) announced
          | none ↦ after_dispatch a c input usage s p announced
        ])

unfoldable pub open_session :
    Answers → Change → RunPhaseInput → List ℕ → String → Phase → Store → Store
unfolding Session.new mark_running role_for fail_phase dispatch_agent
open_session a c input usage prompt p w = elim a.session_id [
  | none ↦ fail_phase a p (text_append "generate session id: " a.id_error_text) w
  | some sid ↦
      elim (Session.new sid c.id p.id (role_for p.p_type) a.provider (a.hash_prompt prompt)
        "opencode run" a.now) [
          | Session.err x ↦ fail_phase a p (text_append "new session: " (a.session_error_text x)) w
          | Session.ok s ↦
              let (s', refused) = mark_running s in
              elim refused [
                | some x ↦
                    fail_phase a p (text_append "mark session running: " (a.session_error_text x)) w
                | none ↦ dispatch_agent a c input usage s' p w
              ]
        ]
]

unfoldable pub run_agent : Answers → Change → RunPhaseInput → Phase → Store → Store
unfolding load_prior_phases preflight IronLaw.check record_usage open_session fail_phase
run_agent a c input p w = elim (load_prior_phases a w c.id all_phase_types) [
  | err text ↦ fail_phase a p (text_append "load prior phases: " text) w
  | ok prior ↦
      let violations = IronLaw.check (preflight p prior) in
      if not (is_nil violations)
      then fail_phase a p (text_append "iron law violations: " (a.count_text (length violations))) w
      else (let (recorded, usage) = record_usage a c p a.skills w in
          elim a.prompt [
            | err text ↦ fail_phase a p (text_append "prompt build: " text) recorded
            | ok prompt ↦ open_session a c input usage prompt p recorded
          ])
]
