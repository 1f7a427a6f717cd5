-- ===== src/Skill/Lifecycle.antt =====
-- internal/domain/skill/lifecycle.go: the values of a skill's life cycle but its status. A text
-- that the code trims is the list of its runes.
use sophia_orchestrator.Prelude.{ℕ, String, ℤ, Bool, true, false, List, Option}
use sophia_orchestrator.Skill.Statuses.{Status}

-- Each `unknown s` is a text `s` that is none of the constants.
pub data RiskLevel : Type 0 where
  low medium high critical : RiskLevel
  unknown : String → RiskLevel

pub data ActivationSource : Type 0 where
  manual legacy_seed archive_worker llm_proposal imported : ActivationSource
  unknown : String → ActivationSource

abbrev pub is_risk_level : RiskLevel → Bool
is_risk_level (RiskLevel.unknown _) = false
is_risk_level _ = true

abbrev pub is_source : ActivationSource → Bool
is_source (ActivationSource.unknown _) = false
is_source _ = true

pub record Scope : Type 0 where
  pub project_id : String
  pub repo_id : String
  pub phases : List String

pub record AppliesWhen : Type 0 where
  pub feature_type : List String
  pub touched_paths : List String
  pub exclude_paths : List String
  pub framework : List String
  pub language : List String
  pub framework_min_version : List (String × String)

-- `avg_retry_reduction` in units of 10^-6.
pub record Metrics : Type 0 where
  pub usage_count : ℤ
  pub success_count : ℤ
  pub failure_count : ℤ
  pub tests_passed_count : ℤ
  pub deprecated_api_hits : ℤ
  pub rollback_count : ℤ
  pub avg_retry_reduction : ℤ
  pub last_stack_version : Option String

pub record LifecycleInput : Type 0 where
  pub status : Status
  pub version : List ℕ
  pub scope : Scope
  pub applies_when : AppliesWhen
  pub risk_level : RiskLevel
  pub activation_source : ActivationSource
  pub metrics : Metrics
  pub last_used_at : Option ℕ
  pub last_validated_at : Option ℕ
