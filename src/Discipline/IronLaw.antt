-- ===== src/Discipline/IronLaw.antt =====
-- internal/domain/ironlaw/laws.go and internal/application/discipline/ironlaw_checker.go: the Iron
-- Laws that are checked against an action. The prior phases are a function from the phase type.
pub mod Verdicts
use sophia_orchestrator.Prelude.{
  ℕ, String, ℤ, ltb_ℤ, leb, Bool, true, false, ◌&&◌, ◌||◌, not, List, [], ◌∷◌, ◌++◌, Option, none,
  some, str_eq, if◌then◌else◌,
}
use sophia_orchestrator.Phase.Types.{PhaseType, confidence_threshold}
use sophia_orchestrator.Phase.Statuses.{PhaseStatus}

-- The identifier is a text, as in the source.
pub record Law : Type 0 where
  pub id : String
  pub description : String
  pub rationale : String

abbrev pub iron_law_2 : String
iron_law_2 = "IL2_NO_APPLY_WITHOUT_TASKS_DONE"

abbrev pub iron_law_3 : String
iron_law_3 = "IL3_NO_ARCHIVE_WITHOUT_VERIFY"

abbrev pub iron_law_4 : String
iron_law_4 = "IL4_NO_RUNTIME_WITHOUT_GOVERNANCE"

abbrev pub iron_law_5 : String
iron_law_5 = "IL5_NO_FIX_4_WITHOUT_ESCALATION"

unfoldable pub catalog : List Law
catalog =
    record {
      id = "IL1_PERSIST_BEFORE_TRANSITION";
      description = "No phase transition without persisted envelope.";
      rationale = "Crash before persistence loses the envelope and prevents resume.";
    }
    ∷ record {
      id = iron_law_2;
      description = "No apply without tasks phase DONE.";
      rationale =
          "Tasks phase must reach DONE status with sufficient confidence before code edits begin.";
    }
    ∷ record {
      id = iron_law_3;
      description = "No archive without verify DONE at confidence ≥ 0.9.";
      rationale = "Archive without verify locks in incorrect work.";
    }
    ∷ record {
      id = iron_law_4;
      description = "No runtime call without governance decision.";
      rationale = "Unaudited side effects compound; fail closed when governance is down.";
    }
    ∷ record {
      id = iron_law_5;
      description = "No fix #4 without architectural escalation.";
      rationale = "Three failures with the same approach indicate the wrong approach.";
    }
    ∷ []

-- The loop of `ByID`; the zero `Law` if no entry has the identifier.
unfoldable pub find_law : List Law → String → Law × Bool
find_law [] id = (record { id = ""; description = ""; rationale = "" }, false)
find_law (l ∷ ls) id = if str_eq l.id id then (l, true) else find_law ls id

unfoldable pub by_id : String → Law × Bool
unfolding find_law catalog
by_id id = find_law catalog id

pub data Action : Type 0 where
  start_phase complete_phase run_apply run_archive dispatch : Action
  unknown : String → Action

pub record PhasePredicate : Type 0 where
  pub status : PhaseStatus
  pub confidence : ℤ

pub record Context : Type 0 where
  pub action : Action
  pub desired_phase : PhaseType
  pub prior_phases : PhaseType → Option PhasePredicate
  pub has_governance_decision : Bool
  pub task_attempts : ℕ

pub record Violation : Type 0 where
  pub law : Law
  pub description : String

abbrev pub is_done : PhaseStatus → Bool
is_done PhaseStatus.done = true
is_done _ = false

-- `!ok || p.Status != done || p.Confidence < threshold`, negated.
abbrev pub settled : Option PhasePredicate → ℤ → Bool
settled none threshold = false
settled (some p) threshold = is_done p.status && not (ltb_ℤ p.confidence threshold)

abbrev pub is_run_apply : Action → Bool
is_run_apply Action.run_apply = true
is_run_apply _ = false

abbrev pub is_run_archive : Action → Bool
is_run_archive Action.run_archive = true
is_run_archive _ = false

abbrev pub is_dispatch : Action → Bool
is_dispatch Action.dispatch = true
is_dispatch _ = false

-- One `if` block of `Check`: the violation that it appends, if any.
abbrev pub append_if : Bool → String → String → List Violation
append_if true id text = record { law = (by_id id).0; description = text } ∷ []
append_if false id text = []

unfoldable pub check : Context → List Violation
check ctx =
    append_if
      (is_run_apply ctx.action
        && not (settled (ctx.prior_phases PhaseType.tasks) (confidence_threshold PhaseType.tasks)))
      iron_law_2 "tasks phase not DONE with confidence ≥ threshold"
    ++ (append_if
          (is_run_archive ctx.action
            && not (
                settled (ctx.prior_phases PhaseType.verify)
                  (confidence_threshold PhaseType.verify)))
          iron_law_3 "verify phase not DONE with confidence ≥ threshold"
        ++ (append_if (is_dispatch ctx.action && not ctx.has_governance_decision) iron_law_4
              "no governance decision recorded for dispatch"
            ++ append_if (leb 3 ctx.task_attempts) iron_law_5
                "task attempts already at 3; escalate, do not retry"))
