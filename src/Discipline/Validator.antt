-- ===== src/Discipline/Validator.antt =====
-- internal/application/discipline/validator.go: whether an envelope is acceptable as the result of a
-- phase, with the coercion of DONE below the threshold. `unmarshal` stands for `json.Unmarshal`.
pub mod Coercion
use sophia_orchestrator.Prelude.{
  String, ltb_ℤ, Bool, true, false, ◌&&◌, not, Option, str_eq, if◌then◌else◌,
}
use sophia_orchestrator.Envelope
use sophia_orchestrator.Envelope.{Envelope}
use sophia_orchestrator.Phase.{claims_done}
use sophia_orchestrator.Phase.Types
use sophia_orchestrator.Phase.Types.{PhaseType, to_string, confidence_threshold}

pub data Error : Type 0 where
  invalid_phase phase_mismatch : Error
  bad_envelope : Envelope.Error → Error

pub data Verdict : Type 0 where
  accept : Envelope → Verdict
  reject : Error → Verdict

-- DONE below the threshold of the phase is recorded as DONE_WITH_CONCERNS.
unfoldable pub coerce : PhaseType → Envelope → Envelope
unfolding confidence_threshold
coerce expected e =
    if claims_done e.status && ltb_ℤ e.confidence (confidence_threshold expected)
    then record e { status = Envelope.Status.done_with_concerns }
    else e

abbrev pub check_phase : PhaseType → Envelope.Parsed → Verdict
check_phase expected (Envelope.err x) = reject (bad_envelope x)
check_phase expected (Envelope.ok e) =
    if not (str_eq e.phase (to_string expected))
    then reject phase_mismatch
    else accept (coerce expected e)

unfoldable pub validate : {Raw : Type 0} → (Raw → Option Envelope) → Raw → PhaseType → Verdict
validate unmarshal raw expected =
    if not (Types.is_valid expected)
    then reject invalid_phase
    else check_phase expected (Envelope.parse unmarshal raw)
