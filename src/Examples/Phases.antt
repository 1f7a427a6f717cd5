-- ===== src/Examples/Phases.antt =====
-- internal/domain/phase, internal/domain/change and internal/application/recovery at a concrete phase
-- and a concrete change.
use sophia_orchestrator.Prelude.{
  ℕ, ◌+◌, ◌≤◌, List, [], ◌∷◌, Option, none, some, ◌≡◌, ◌↔◌, refl, arith, pos, ◌==◌, if◌then◌else◌,
}
use sophia_orchestrator.Envelope
use sophia_orchestrator.Envelope.{Envelope}
use sophia_orchestrator.Envelope.Validation
use sophia_orchestrator.Envelope.Validation.{validate-WellFormed, parse-WellFormed}
use sophia_orchestrator.Phase
use sophia_orchestrator.Phase.{Phase, complete, not_running}
use sophia_orchestrator.Phase.Types.{PhaseType}
use sophia_orchestrator.Phase.Statuses.{PhaseStatus}
use sophia_orchestrator.Phase.Lifecycle
use sophia_orchestrator.Phase.Lifecycle.{
  Inv, entries, entries_bounded, new-run-Inv, step_error_unchanged, final_absorbs,
}
use sophia_orchestrator.Change
use sophia_orchestrator.Change.{Change}
use sophia_orchestrator.Change.Sequence
use sophia_orchestrator.Change.Sequence.{
  canonical, advances_made, new-run-canonical, terminal_absorbs,
}
use sophia_orchestrator.Recovery.{listed, mark_stuck_interrupted}
use sophia_orchestrator.Recovery.Sweep.{Reported, mark_stuck_interrupted-Reported}

abbrev spec_envelope : Envelope
spec_envelope = record {
  schema_version = "v1";
  phase = "spec";
  change_name = "add-login";
  project = "shop";
  status = Envelope.Status.done;
  confidence = pos 850_000;
  executive_summary = "";
  artifacts_saved = [];
  next_recommended = [];
  risks = [];
  payload = "";
}

abbrev pending_phase : Phase
pending_phase = record {
  id = 1;
  change_id = 2;
  p_type = PhaseType.spec;
  status = PhaseStatus.pending;
  envelope = none;
  confidence = pos 0;
  retry_budget = 2;
  attempts = 0;
  started_at = none;
  completed_at = none;
  concerns = [];
}

abbrev running_phase : Phase
running_phase = record pending_phase { status = PhaseStatus.running; attempts = 1 }

abbrev calls : List Lifecycle.Call
calls =
    Lifecycle.starts 10
    ∷ Lifecycle.interrupts
    ∷ Lifecycle.starts 20
    ∷ Lifecycle.completes (some spec_envelope) 30
    ∷ Lifecycle.starts 40
    ∷ []

new-run-Inv_example : Inv (Lifecycle.run calls pending_phase)
unfolding Phase.new
new-run-Inv_example = new-run-Inv 1 2 PhaseType.spec (pos 2) calls refl

pending-Inv : Inv pending_phase
pending-Inv = record {
  budget = omega arith;
  within = omega arith;
  accepted = λ h. ground arith;
  confidence = refl;
}

entries_bounded_example : 0 + entries calls pending_phase ≤ 2
entries_bounded_example = entries_bounded calls pending_phase pending-Inv

validate-WellFormed_example :
    (Envelope.validate spec_envelope ≡ none) ↔ Validation.WellFormed spec_envelope
validate-WellFormed_example = validate-WellFormed spec_envelope

abbrev change : Change
change = record {
  id = 1;
  name = "add-login";
  project = "shop";
  status = Change.Status.active;
  current_phase = PhaseType.init;
  artifact_store = Change.ArtifactStoreMode.hybrid;
  base_ref = "main";
  created_at = 5;
  updated_at = 5;
}

abbrev change_calls : List Sequence.Call
change_calls =
    Sequence.advances PhaseType.explore 6
    ∷ Sequence.advances PhaseType.spec 7
    ∷ Sequence.advances PhaseType.proposal 8
    ∷ []

new-run-canonical_example : canonical 2 ≡ some (Sequence.run change_calls change).current_phase
unfolding Change.new Sequence.run Sequence.step advances_made
new-run-canonical_example =
    new-run-canonical 1 "add-login" "shop" Change.ArtifactStoreMode.hybrid "main" 5 change_calls
      refl

-- The repository refuses to save the phase 7.
abbrev save : Phase → Option ℕ
save p = if p.id == 7 then some 1 else none

abbrev stuck : List Phase
stuck = running_phase ∷ record running_phase { id = 7 } ∷ []

mark_stuck_interrupted-Reported_example :
    Reported save stuck none (mark_stuck_interrupted save (listed stuck))
mark_stuck_interrupted-Reported_example =
    mark_stuck_interrupted-Reported save stuck (refl, (refl, tt))
