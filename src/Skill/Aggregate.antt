-- ===== src/Skill/Aggregate.antt =====
-- internal/domain/skill/skill.go. A method on `*Skill` returns the new record with the error, `none`
-- for nil; a text that the code trims is the list of its runes.
pub mod Invariant
use sophia_orchestrator.Prelude.{
  ℕ, String, ℤ, pos, leb, ◌==◌, Bool, true, false, ◌&&◌, ◌||◌, not, List, [], ◌∷◌, Option, none,
  some, keep, is_nil, map, str_eq, if◌then◌else◌,
}
use sophia_orchestrator.Phase.Types
use sophia_orchestrator.Phase.Types.{PhaseType, to_string, all_phase_types}
use sophia_orchestrator.Skill.Statuses
use sophia_orchestrator.Skill.Statuses.{Status}
use sophia_orchestrator.Skill.Lifecycle.{
  RiskLevel, ActivationSource, is_risk_level, is_source, LifecycleInput,
}
use sophia_orchestrator.Skill.Techniques.{Technique, validate_techniques, dedupe_techniques}

pub record Skill : Type 0 where
  pub id : ℕ
  pub name : List ℕ
  pub phases : List PhaseType
  pub content : List ℕ
  pub techniques : List Technique
  pub lifecycle : LifecycleInput
  pub created_at : ℕ
  pub updated_at : ℕ

pub data Error : Type 0 where
  empty_name empty_content no_valid_phases no_techniques invalid_technique invalid_status
        empty_version invalid_risk_level invalid_activation_source :
      Error

pub data Created : Type 0 where
  ok : Skill → Created
  err : Error → Created

-- `unicode.IsSpace`
abbrev pub is_space : ℕ → Bool
is_space c =
    (leb 9 c && leb c 13)
    || (c == 32)
    || (c == 133)
    || (c == 160)
    || (c == 5760)
    || (leb 8192 c && leb c 8202)
    || (c == 8232)
    || (c == 8233)
    || (c == 8239)
    || (c == 8287)
    || (c == 12288)

-- `strings.TrimSpace(s) == ""`
unfoldable pub is_blank : List ℕ → Bool
is_blank [] = true
is_blank (c ∷ cs) = is_space c && is_blank cs

-- The phases of the map `seen`, in the canonical order; `none` is ErrNoValidPhases.
unfoldable pub canonicalize_phases : List PhaseType → Option (List PhaseType)
unfolding Types.is_valid
canonicalize_phases input =
    let seen = keep Types.is_valid input in
    if is_nil seen then none else some (keep (Types.contains seen) all_phase_types)

unfoldable pub validate_core : List ℕ → List ℕ → List Technique → Option Error
unfolding is_blank validate_techniques
validate_core name content techniques =
    if is_blank name
    then some empty_name
    else if is_blank content
    then some empty_content
    else if is_nil techniques
    then some no_techniques
    else if not (validate_techniques techniques)
    then some invalid_technique
    else none

unfoldable pub validate_lifecycle : LifecycleInput → Option Error
unfolding is_blank Statuses.is_valid
validate_lifecycle lc =
    if not (Statuses.is_valid lc.status)
    then some invalid_status
    else if is_blank lc.version
    then some empty_version
    else if not (is_risk_level lc.risk_level)
    then some invalid_risk_level
    else if not (is_source lc.activation_source)
    then some invalid_activation_source
    else none

-- The four tests `lc.X == ""`, each with the value that stands in.
abbrev pub status_or : Status → Status → Status
status_or (Status.unknown s) d = if str_eq s "" then d else Status.unknown s
status_or s d = s

abbrev pub version_or : List ℕ → List ℕ → List ℕ
version_or [] d = d
version_or (c ∷ cs) d = c ∷ cs

abbrev pub risk_level_or : RiskLevel → RiskLevel → RiskLevel
risk_level_or (RiskLevel.unknown s) d = if str_eq s "" then d else RiskLevel.unknown s
risk_level_or r d = r

abbrev pub source_or : ActivationSource → ActivationSource → ActivationSource
source_or (ActivationSource.unknown s) d = if str_eq s "" then d else ActivationSource.unknown s
source_or a d = a

-- The defaults of `applyLifecycleDefaults`, before it validates.
abbrev pub with_defaults : LifecycleInput → LifecycleInput
with_defaults lc = record lc {
  status = status_or lc.status Status.candidate;
  version = version_or lc.version (b'v' ∷ b'1' ∷ []);
  risk_level = risk_level_or lc.risk_level RiskLevel.medium;
  activation_source = source_or lc.activation_source ActivationSource.manual;
}

unfoldable pub merge_lifecycle : Skill → LifecycleInput → LifecycleInput
merge_lifecycle s lc = record lc {
  status = status_or lc.status s.lifecycle.status;
  version = version_or lc.version s.lifecycle.version;
  risk_level = risk_level_or lc.risk_level s.lifecycle.risk_level;
  activation_source = source_or lc.activation_source s.lifecycle.activation_source;
}

unfoldable pub new :
    ℕ → List ℕ → List PhaseType → List ℕ → List Technique → LifecycleInput → ℕ → Created
unfolding canonicalize_phases validate_core validate_lifecycle dedupe_techniques
new id name phases content techniques lifecycle now = elim (canonicalize_phases phases) [
  | none ↦ err no_valid_phases
  | some canonical ↦ elim (validate_core name content techniques) [
    | some e ↦ err e
    | none ↦ elim (validate_lifecycle (with_defaults lifecycle)) [
      | some e ↦ err e
      | none ↦ ok (record {
        id = id;
        name = name;
        phases = canonical;
        content = content;
        techniques = dedupe_techniques techniques;
        lifecycle = with_defaults lifecycle;
        created_at = now;
        updated_at = now;
      })
    ]
  ]
]

unfoldable pub new_legacy : ℕ → List ℕ → List PhaseType → List ℕ → List Technique → ℕ → Created
unfolding new
new_legacy id name phases content techniques now =
    new id name phases content techniques
      (record {
        status = Status.active;
        version = b'v' ∷ b'1' ∷ [];
        scope = record { project_id = "*"; repo_id = "*"; phases = map to_string phases };
        applies_when = record {
          feature_type = [];
          touched_paths = [];
          exclude_paths = [];
          framework = [];
          language = [];
          framework_min_version = [];
        };
        risk_level = RiskLevel.medium;
        activation_source = ActivationSource.legacy_seed;
        metrics = record {
          usage_count = pos 0;
          success_count = pos 0;
          failure_count = pos 0;
          tests_passed_count = pos 0;
          deprecated_api_hits = pos 0;
          rollback_count = pos 0;
          avg_retry_reduction = pos 0;
          last_stack_version = none;
        };
        last_used_at = none;
        last_validated_at = none;
      })
      now

unfoldable pub update :
    List ℕ
    → List PhaseType
    → List ℕ
    → List Technique
    → LifecycleInput
    → ℕ
    → Skill
    → Skill × Option Error
unfolding canonicalize_phases validate_core validate_lifecycle dedupe_techniques merge_lifecycle
update name phases content techniques lifecycle now s = elim (canonicalize_phases phases) [
  | none ↦ (s, some no_valid_phases)
  | some canonical ↦ elim (validate_core name content techniques) [
    | some e ↦ (s, some e)
    | none ↦ elim (validate_lifecycle (merge_lifecycle s lifecycle)) [
      | some e ↦ (s, some e)
      | none ↦ (
        record s {
          name = name;
          phases = canonical;
          content = content;
          techniques = dedupe_techniques techniques;
          lifecycle = merge_lifecycle s lifecycle;
          updated_at = now;
        },
        none,
      )
    ]
  ]
]
