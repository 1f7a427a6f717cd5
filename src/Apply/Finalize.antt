-- ===== src/Apply/Finalize.antt =====
-- internal/application/apply/run.go, finalize and failEnv: the count of the results, and the envelope
-- of the phase.
use sophia_orchestrator.Prelude.{
  ℕ, zero, suc, ◌+◌, String, pos, Bool, true, false, List, [], ◌∷◌, none, some, length,
  if◌then◌else◌,
}
use sophia_orchestrator.Envelope
use sophia_orchestrator.Envelope.{Envelope, schema_version_v1}
use sophia_orchestrator.Change.{Change}
use sophia_orchestrator.Apply.Group.{Group}
use sophia_orchestrator.Apply.Board
use sophia_orchestrator.Apply.Board.{Board, BoardStatus, is_building}
use sophia_orchestrator.Apply.Tasks.{lookup}
use sophia_orchestrator.Apply.TeamLead.{GroupOutcome}
use sophia_orchestrator.Apply.Groups.{Results}
use sophia_orchestrator.PhaseService.{text_append}

pub record Totals : Type 0 where
  pub tasks : ℕ
  pub done : ℕ
  pub failed_groups : ℕ

-- `results[g.ID()]`: the zero value of a missing key is no failure, with no task done.
abbrev pub result_of : ℕ → Results → GroupOutcome
result_of g rs = elim (lookup g rs) [
  | none ↦ record { failed = false; reason = none; tasks_done = 0 }
  | some o ↦ o
]

-- The loop of `finalize` over the groups.
unfoldable pub tally : Results → List Group → Totals
unfolding lookup
tally rs [] = record { tasks = 0; done = 0; failed_groups = 0 }
tally rs (g ∷ gs) =
    let t = tally rs gs in
    let o = result_of g.id rs in
    if o.failed
    then record t { tasks = length g.tasks + t.tasks; failed_groups = suc t.failed_groups }
    else record t { tasks = length g.tasks + t.tasks; done = o.tasks_done + t.done }

abbrev pub is_positive : ℕ → Bool
is_positive zero = false
is_positive (suc _) = true

abbrev fraction : (ℕ → String) → ℕ → ℕ → String
fraction count_text a b = text_append (count_text a) (text_append "/" (count_text b))

-- The summaries of `finalize`.
unfoldable pub run_summary : (ℕ → String) → Totals → ℕ → String
run_summary count_text t groups =
    if is_positive t.failed_groups
    then text_append "Apply phase: "
        (text_append (fraction count_text t.failed_groups groups) " groups failed")
    else text_append "Apply phase: " (
        text_append (count_text groups) (
          text_append " groups, " (text_append (fraction count_text t.done t.tasks) " tasks done")))

abbrev progress_artifact : Change → Envelope.ArtifactRef
progress_artifact c = record {
  topic_key = text_append "sdd/" (text_append c.name "/apply-progress");
  artifact_type = "sdd_apply_progress";
}

unfoldable pub final_envelope : (ℕ → String) → Change → Totals → ℕ → Envelope
unfolding run_summary
final_envelope count_text c t groups = record {
  schema_version = schema_version_v1;
  phase = "apply";
  change_name = c.name;
  project = c.project;
  status = if is_positive t.failed_groups then Envelope.Status.blocked else Envelope.Status.done;
  confidence = if is_positive t.failed_groups then pos 0 else pos 850000;
  executive_summary = run_summary count_text t groups;
  artifacts_saved = progress_artifact c ∷ [];
  next_recommended = [];
  risks = [];
  payload = "";
}

-- The board and the envelope; the errors of `Fail` and `Complete` are dropped.
unfoldable pub finalize : (ℕ → String) → Change → Board → Results → Board × Envelope
unfolding tally final_envelope Board.fail Board.complete
finalize count_text c b rs =
    let t = tally rs b.groups in
    let closed = if is_positive t.failed_groups then (Board.fail b).0 else (Board.complete b).0 in
    (closed, final_envelope count_text c t (length b.groups))

unfoldable pub fail_env : Change → String → Envelope
fail_env c reason = record {
  schema_version = schema_version_v1;
  phase = "apply";
  change_name = c.name;
  project = c.project;
  status = Envelope.Status.blocked;
  confidence = pos 0;
  executive_summary = reason;
  artifacts_saved = [];
  next_recommended = [];
  risks = [];
  payload = "";
}
