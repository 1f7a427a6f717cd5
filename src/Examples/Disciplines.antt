-- ===== src/Examples/Disciplines.antt =====
-- internal/application/discipline and internal/application/bootstrap at concrete envelopes, rounds
-- and calls.
use sophia_orchestrator.Prelude.{
  Memᴰ, String, ℕ, ◌+◌, true, List, [], ◌∷◌, Option, none, some, ◌≡◌, ◌≢◌, ◌↔◌, refl, arith, pos,
  length, keep, ltb,
}
use sophia_orchestrator.Envelope
use sophia_orchestrator.Envelope.{Envelope}
use sophia_orchestrator.Envelope.Validation.{WellFormed}
use sophia_orchestrator.Phase.{Phase, complete}
use sophia_orchestrator.Phase.Types
use sophia_orchestrator.Phase.Types.{PhaseType}
use sophia_orchestrator.Phase.Statuses.{PhaseStatus, advance_allowed}
use sophia_orchestrator.Discipline.Validator
use sophia_orchestrator.Discipline.Validator.{accept, coerce}
use sophia_orchestrator.Discipline.Validator.Coercion.{
  validated_completes, coerced_envelope_advances,
}
use sophia_orchestrator.Discipline.IronLaw
use sophia_orchestrator.Discipline.IronLaw.{Context, check}
use sophia_orchestrator.Discipline.IronLaw.Verdicts.{cited, Broken, check-cites_iff}
use sophia_orchestrator.Discipline.SpawnGovernor
use sophia_orchestrator.Discipline.SpawnGovernor.{Row, Round, acquire, polling, default_config}
use sophia_orchestrator.Discipline.SpawnGovernor.Cap
use sophia_orchestrator.Discipline.SpawnGovernor.Cap.{grants, run_capped, run_exact}
use sophia_orchestrator.Discipline.SpawnGovernor.Loop.{acquire_ends}
use sophia_orchestrator.RateGuard
use sophia_orchestrator.RateGuard.{allow}
use sophia_orchestrator.RateGuard.Window
use sophia_orchestrator.RateGuard.Window.{run_bounded, allow_decides}

-- A claim of DONE with a confidence below the 0.8 of the spec phase.
abbrev unsure : Envelope
unsure = record {
  schema_version = "v1";
  phase = "spec";
  change_name = "add-login";
  project = "shop";
  status = Envelope.Status.done;
  confidence = pos 600_000;
  executive_summary = "";
  artifacts_saved = [];
  next_recommended = [];
  risks = [];
  payload = "";
}

abbrev decode : ℕ → Option Envelope
decode _ = some unsure

abbrev spec_phase : Phase
spec_phase = record {
  id = 1;
  change_id = 2;
  p_type = PhaseType.spec;
  status = PhaseStatus.running;
  envelope = none;
  confidence = pos 0;
  retry_budget = 2;
  attempts = 1;
  started_at = some 5;
  completed_at = none;
  concerns = [];
}

validated_completes_example :
    WellFormed (record unsure { status = Envelope.Status.done_with_concerns })
    × ((complete
          (some (record unsure { status = Envelope.Status.done_with_concerns }))
          9
          spec_phase).1
        ≡ none)
unfolding Validator.validate Envelope.parse Envelope.validate Types.is_valid coerce
validated_completes_example = validated_completes decode 0 9 spec_phase refl refl

coerced_envelope_advances_example :
    (Validator.validate decode 0 PhaseType.spec ≡ accept (coerce PhaseType.spec unsure))
    × ((complete (some (coerce PhaseType.spec unsure)) 9 spec_phase).1 ≡ none)
    × ((complete (some (coerce PhaseType.spec unsure)) 9 spec_phase).0.status
        ≡ PhaseStatus.done_with_concerns)
    × (advance_allowed (complete (some (coerce PhaseType.spec unsure)) 9 spec_phase).0.status
        ≡ true)
unfolding Envelope.parse Envelope.validate Types.is_valid Types.confidence_threshold
coerced_envelope_advances_example =
    coerced_envelope_advances decode 0 9 spec_phase unsure refl refl refl refl refl refl

abbrev third_attempt : Context
third_attempt = record {
  action = IronLaw.Action.run_apply;
  desired_phase = PhaseType.apply;
  prior_phases = λ _. none;
  has_governance_decision = true;
  task_attempts = 3;
}

check-cites_iff_example :
    ((id : String) → Memᴰ id (cited (check third_attempt)) ↔ Broken third_attempt id)
    × ((check third_attempt ≡ []) ↔ ((id : String) → ¬ Broken third_attempt id))
check-cites_iff_example = check-cites_iff third_attempt

abbrev row : Row
row = record { active_count = 1; max_count = 2 }

abbrev slot_calls : List Cap.Call
slot_calls = Cap.acquires ∷ Cap.acquires ∷ Cap.releases ∷ Cap.acquires ∷ []

run_exact_example : (Cap.run 2 slot_calls row).active_count + 1 ≡ 1 + grants 2 slot_calls row
unfolding Cap.step SpawnGovernor.repo_acquire
run_exact_example = run_exact 2 slot_calls row (omega arith, tt)

abbrev refusals : List Round
refusals = Round.refused 0 none ∷ Round.refused 5 none ∷ Round.refused 10 none ∷ []

acquire_ends_example : acquire 10 0 refusals ≢ polling
acquire_ends_example =
    acquire_ends 10 5 0 refusals (omega arith) (omega arith, (omega arith, (omega arith, tt)))
      (omega arith)

-- Five calls with a limit of two in a window of ten ticks.
abbrev call_times : List ℕ
call_times = 1 ∷ 2 ∷ 3 ∷ 12 ∷ 14 ∷ []

allow_decides_example :
    (allow 16 "shop" (Window.run "shop" call_times (RateGuard.new 2 10) []).0).1
    ≡ ltb
        (length
          (keep (RateGuard.fresh 10 16) (Window.run "shop" call_times (RateGuard.new 2 10) []).1))
        2
allow_decides_example = allow_decides "shop" 2 10 0 16 call_times (omega arith) (omega arith)
