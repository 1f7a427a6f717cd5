-- ===== src/PhaseService/Finish.antt =====
-- internal/application/phase/service.go and persist_artifacts.go: from an accepted envelope to the
-- persisted phase, the advanced change and the terminal event.
pub mod Rows
pub mod Ends
use sophia_orchestrator.Prelude.{
  ℕ, String, Bool, false, ◌&&◌, not, List, [], ◌∷◌, Option, none, some, str_eq, is_nil,
  if◌then◌else◌,
}
use sophia_orchestrator.Envelope
use sophia_orchestrator.Envelope.{Envelope, ArtifactRef}
use sophia_orchestrator.Phase.{Phase, Concern, complete, set_concerns, claims_done}
use sophia_orchestrator.Phase.Types.{to_string}
use sophia_orchestrator.Phase.Statuses.{PhaseStatus, advance_allowed}
use sophia_orchestrator.Change.{Change}
use sophia_orchestrator.SkillUsage.{Outcome, update_outcome}
use sophia_orchestrator.Store.{Store, completed, persist_failed}
use sophia_orchestrator.PhaseService.{
  Answers, ok, err, Any, Entries, boolean, mapping, empty, entry, save_completed, ingest,
  update_usage, append_audit, publish_event, save_phase, text_append, event_type_for_status,
}
use sophia_orchestrator.PhaseService.Failing.{fail_phase}
use sophia_orchestrator.PhaseService.Advance.{advance_change}

-- `overrides[key]`
pub get_key : String → Entries → Option Any
get_key key empty = none
get_key key (entry k v es) = let rest = get_key key es in if str_eq k key then some v else rest

abbrev as_flag : Option Any → Bool
as_flag (some (boolean b)) = b
as_flag _ = false

abbrev flag_of : String → Option Any → Bool
unfolding get_key
flag_of key (some (mapping scope)) = as_flag (get_key key scope)
flag_of key _ = false

unfoldable pub parse_scope_critic_enabled : Entries → Bool
unfolding get_key
parse_scope_critic_enabled overrides = flag_of "critic_enabled" (get_key "scope" overrides)

unfoldable pub parse_scope_tests_required : Entries → Bool
unfolding get_key
parse_scope_tests_required overrides = flag_of "tests_required" (get_key "scope" overrides)

-- No critic, no opt-in and an error of the critic all give no concerns.
unfoldable pub review_concerns : Answers → Entries → List Concern
unfolding parse_scope_critic_enabled
review_concerns a overrides = elim a.critic [
  | none ↦ []
  | some answer ↦
      if not (parse_scope_critic_enabled overrides)
      then []
      else elim answer [ ok concerns ↦ concerns | err _ ↦ [] ]
]

-- `if len(concerns) > 0 && env.Status == Done`
abbrev pub upgrades : List Concern → Envelope → Bool
upgrades concerns e = not (is_nil concerns) && claims_done e.status

unfoldable pub upgrade : List Concern → Envelope → Phase → Envelope × Phase
unfolding set_concerns
upgrade concerns e p =
    if upgrades concerns e
    then (record e { status = Envelope.Status.done_with_concerns }, set_concerns concerns p)
    else (e, p)

unfoldable pub skill_usage_outcome_for : Envelope.Status → Outcome
skill_usage_outcome_for Envelope.Status.done = Outcome.success
skill_usage_outcome_for Envelope.Status.done_with_concerns = Outcome.success
skill_usage_outcome_for Envelope.Status.blocked = Outcome.blocked
skill_usage_outcome_for _ = Outcome.failure

unfoldable pub update_skill_usage_outcomes : Answers → List ℕ → Envelope.Status → Store → Store
unfolding update_outcome skill_usage_outcome_for
update_skill_usage_outcomes a [] s w = w
update_skill_usage_outcomes a (id ∷ ids) s w = update_skill_usage_outcomes a ids s (
    if a.works (update_usage id)
    then record w { usage = update_outcome id (skill_usage_outcome_for s) w.usage }
    else w)

-- One turn of the loop of `persistArtifactsToMemory`.
unfoldable pub ingest_artifact :
    Answers → Change → Phase → Envelope → String → ArtifactRef → Store → Store
unfolding publish_event
ingest_artifact a c p e content ref w =
    if str_eq ref.topic_key ""
    then w
    else if a.works (ingest ref.topic_key)
    then record w {
      memory =
          record {
            topic_key = ref.topic_key;
            tags = "sdd" ∷ to_string p.p_type ∷ ref.artifact_type ∷ [];
            content = content;
            summary = e.executive_summary;
            project_id = c.project;
            session_id = c.id;
          }
          ∷ w.memory;
    }
    else publish_event a p.id "memory.artifact_persist_failed"
        (persist_failed ref (a.error_text (ingest ref.topic_key))) w

unfoldable pub ingest_all :
    Answers → Change → Phase → Envelope → String → List ArtifactRef → Store → Store
unfolding ingest_artifact
ingest_all a c p e content [] w = w
ingest_all a c p e content (r ∷ rs) w =
    ingest_all a c p e content rs (ingest_artifact a c p e content r w)

unfoldable pub report_all : Answers → Phase → String → List ArtifactRef → Store → Store
unfolding publish_event
report_all a p text [] w = w
report_all a p text (r ∷ rs) w =
    report_all a p text rs
      (publish_event a p.id "memory.artifact_persist_failed" (persist_failed r text) w)

unfoldable pub persist_artifacts_to_memory : Answers → Change → Phase → Envelope → Store → Store
unfolding ingest_all report_all
persist_artifacts_to_memory a c p e w = elim (a.marshal e) [
  | err text ↦ report_all a p (text_append "marshal envelope: " text) e.artifacts_saved w
  | ok content ↦ ingest_all a c p e content e.artifacts_saved w
]

-- The phase after `Complete` and `Save`, or why they failed with the phase as it is in memory.
pub data Settled : Type 0 where
  settled : Phase → Store → Settled
  unsettled : Phase → String → Settled

unfoldable pub settle : Answers → String → Envelope → Phase → Store → Settled
unfolding complete save_phase
settle a label e p w =
    let (q, refused) = complete (some e) a.now p in
    elim refused [
      | some x ↦
          unsettled q (text_append (text_append label "phase complete: ") (a.phase_error_text x))
      | none ↦ elim (save_phase a save_completed q w) [
        | none ↦
            unsettled q
              (text_append (text_append label "save phase: ") (a.error_text save_completed))
        | some w' ↦ settled q w'
      ]
    ]

unfoldable pub advance_if_allowed : Answers → Change → Phase → Store → Store
unfolding advance_allowed advance_change
advance_if_allowed a c q w = if advance_allowed q.status then advance_change a c q.p_type w else w

abbrev pub concerns_of : Phase → List Concern
concerns_of q = elim q.status [ PhaseStatus.done_with_concerns ↦ q.concerns | _ ↦ [] ]

abbrev pub audit_end : Answers → Change → Phase → Store → Store
audit_end a c q w = append_audit a (some c.id) (some q.id) (event_type_for_status q.status) w

abbrev announce : Answers → Change → Phase → Envelope → Store → Store
announce a c q e w =
    publish_event a q.id (event_type_for_status q.status)
      (completed q.p_type a.now e (concerns_of q)) (audit_end a c q w)

-- What follows the persisted phase in the flow of a single agent.
unfoldable pub after_settled : Answers → Change → List ℕ → Envelope → Phase → Store → Store
unfolding update_skill_usage_outcomes persist_artifacts_to_memory advance_if_allowed append_audit
    publish_event event_type_for_status
after_settled a c usage e q w =
    let updated = update_skill_usage_outcomes a usage e.status w in
    let kept = persist_artifacts_to_memory a c q e updated in
    announce a c q e (advance_if_allowed a c q kept)

unfoldable pub conclude : Answers → Change → Entries → List ℕ → Envelope → Phase → Store → Store
unfolding review_concerns upgrade settle after_settled fail_phase
conclude a c overrides usage e p w =
    let (e', p') = upgrade (review_concerns a overrides) e p in
    elim (settle a "" e' p' w) [
      | unsettled q reason ↦ fail_phase a q reason w
      | settled q w' ↦ after_settled a c usage e' q w'
    ]
