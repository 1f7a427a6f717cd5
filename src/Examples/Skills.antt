-- ===== src/Examples/Skills.antt =====
-- internal/domain/skill and internal/application/skill at a concrete skill.
use sophia_orchestrator.Prelude.{[], ◌∷◌, none, ◌≡◌, ◌⊎◌, refl, pos}
use sophia_orchestrator.Phase.Types.{PhaseType}
use sophia_orchestrator.Phase.Types
use sophia_orchestrator.Skill.Statuses.{Status}
use sophia_orchestrator.Skill.Lifecycle.{LifecycleInput, RiskLevel, ActivationSource}
use sophia_orchestrator.Skill.Techniques.{Technique}
use sophia_orchestrator.Skill.Techniques
use sophia_orchestrator.Skill.Transition.{transition_path}
use sophia_orchestrator.Skill.Transition.Paths.{Answers, transition_path-Answers}
use sophia_orchestrator.Skill.Aggregate
use sophia_orchestrator.Skill.Aggregate.{Skill, update}
use sophia_orchestrator.Skill.Aggregate.Invariant.{WellFormed, update_skill-WellFormed}

transition_path-Answers_example :
    Answers Status.deprecated Status.active (transition_path Status.deprecated Status.active)
transition_path-Answers_example = transition_path-Answers Status.deprecated Status.active

abbrev active_values : LifecycleInput
active_values = record {
  status = Status.active;
  version = b'v' ∷ b'1' ∷ [];
  scope = record { project_id = "*"; repo_id = "*"; phases = [] };
  applies_when = record {
    feature_type = [];
    touched_paths = [];
    exclude_paths = [];
    framework = [];
    language = [];
    framework_min_version = [];
  };
  risk_level = RiskLevel.medium;
  activation_source = ActivationSource.manual;
  metrics = record {
    usage_count = pos 0;
    success_count = pos 0;
    failure_count = pos 0;
    tests_passed_count = pos 0;
    deprecated_api_hits = pos 0;
    rollback_count = pos 0;
    avg_retry_reduction = pos 0;
    last_stack_version = none;
  };
  last_used_at = none;
  last_validated_at = none;
}

abbrev stored : Skill
stored = record {
  id = 1;
  name = b'n' ∷ [];
  phases = PhaseType.spec ∷ PhaseType.apply ∷ [];
  content = b'c' ∷ [];
  techniques = Technique.react ∷ Technique.step_back ∷ [];
  lifecycle = active_values;
  created_at = 5;
  updated_at = 5;
}

stored-WellFormed : WellFormed stored
unfolding Aggregate.is_blank Techniques.validate_techniques Aggregate.validate_lifecycle
stored-WellFormed = record {
  named = refl;
  filled = refl;
  some_phase = refl;
  ordered = (Types.contains (PhaseType.spec ∷ PhaseType.apply ∷ []), refl);
  some_tag = refl;
  tags_valid = refl;
  tags_distinct = refl;
  lifecycle_valid = refl;
}

-- An update to a blank name.
update_skill-WellFormed_example :
    let r =
      update
        (32 ∷ [])
        (PhaseType.spec ∷ [])
        (b'c' ∷ [])
        (Technique.react ∷ [])
        active_values
        9
        stored in
    WellFormed r.0 × ((r.1 ≡ none) ⊎ (r.0 ≡ stored))
update_skill-WellFormed_example =
    update_skill-WellFormed (32 ∷ []) (PhaseType.spec ∷ []) (b'c' ∷ []) (Technique.react ∷ [])
      active_values 9 stored stored-WellFormed
