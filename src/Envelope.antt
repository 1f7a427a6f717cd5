-- ===== src/Envelope.antt =====
-- internal/domain/envelope: the contract that a phase agent answers with, and its validation.
-- float64 confidences are integers in units of 10^-6. `json.Unmarshal` is a parameter.
pub mod Validation
use sophia_orchestrator.Prelude.{
  ℕ, String, ℤ, pos, negsuc, ltb_ℤ, Bool, true, false, ◌||◌, not, List, Option, none, some, str_eq,
  if◌then◌else◌,
}

-- `unknown s` is a text `s` that is none of the constants.
pub data Status : Type 0 where
  done done_with_concerns blocked needs_context : Status
  unknown : String → Status

unfoldable pub is_valid : Status → Bool
is_valid Status.done = true
is_valid Status.done_with_concerns = true
is_valid Status.blocked = true
is_valid Status.needs_context = true
is_valid (Status.unknown _) = false

abbrev pub schema_version_v1 : String
schema_version_v1 = "v1"

pub record Risk : Type 0 where
  pub description : String
  pub level : String

pub record ArtifactRef : Type 0 where
  pub topic_key : String
  pub artifact_type : String

-- `payload` is the field `Data`, which the orchestrator carries as it is.
pub record Envelope : Type 0 where
  pub schema_version : String
  pub phase : String
  pub change_name : String
  pub project : String
  pub status : Status
  pub confidence : ℤ
  pub executive_summary : String
  pub artifacts_saved : List ArtifactRef
  pub next_recommended : List String
  pub risks : List Risk
  pub payload : String

pub data Error : Type 0 where
  unsupported_schema_version invalid_status confidence_out_of_range empty_phase empty_change_name
        empty_project invalid_json :
      Error

-- 1.0
abbrev pub one : ℤ
one = pos 1_000_000

unfoldable pub validate : Envelope → Option Error
unfolding is_valid
validate e =
    if not (str_eq e.schema_version schema_version_v1)
    then some unsupported_schema_version
    else if str_eq e.phase ""
    then some empty_phase
    else if not (is_valid e.status)
    then some invalid_status
    else if ltb_ℤ e.confidence (pos 0) || ltb_ℤ one e.confidence
    then some confidence_out_of_range
    else if str_eq e.change_name ""
    then some empty_change_name
    else if str_eq e.project ""
    then some empty_project
    else none

pub data Parsed : Type 0 where
  ok : Envelope → Parsed
  err : Error → Parsed

abbrev checked : Envelope → Option Error → Parsed
checked e none = ok e
checked e (some x) = err x

unfoldable pub parse : {Raw : Type 0} → (Raw → Option Envelope) → Raw → Parsed
parse unmarshal raw = elim (unmarshal raw) [
  | none ↦ err invalid_json
  | some e ↦ checked e (validate e)
]
