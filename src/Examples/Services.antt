-- ===== src/Examples/Services.antt =====
-- internal/application/phase at a concrete change, its phases and the answers around them.
use sophia_orchestrator.Prelude.{◌≤◌, true, false, List, [], ◌∷◌, none, some, ◌≡◌, ◌⊎◌, refl, pos}
use sophia_orchestrator.Envelope
use sophia_orchestrator.Envelope.{Envelope}
use sophia_orchestrator.Phase.{Phase}
use sophia_orchestrator.Phase.Types.{PhaseType}
use sophia_orchestrator.Phase.Statuses
use sophia_orchestrator.Phase.Statuses.{PhaseStatus}
use sophia_orchestrator.Change
use sophia_orchestrator.Change.{Change}
use sophia_orchestrator.ChangeService
use sophia_orchestrator.Session.{Provider}
use sophia_orchestrator.Store.{Store}
use sophia_orchestrator.Store.Phases
use sophia_orchestrator.PhaseService.{Answers, ok, decided, Decision, RunPhaseInput, empty}
use sophia_orchestrator.Store.Changes
use sophia_orchestrator.PhaseService.Failing.Blocked.{Ready, Ended}
use sophia_orchestrator.PhaseService.Work.{run_async}
use sophia_orchestrator.PhaseService.Work.Settles.{Paused, run_async_settles}
use sophia_orchestrator.PhaseService.Work.PersistFirst.{PersistedFirst}
use sophia_orchestrator.PhaseService.Work.IronLawOne.{run_async-PersistedFirst}
use sophia_orchestrator.PhaseService.Advance.{advance_change}
use sophia_orchestrator.PhaseService.Advance.Atomic.{Untouched, Completed, advance_change_atomic}
use sophia_orchestrator.PhaseService.Requests
use sophia_orchestrator.PhaseService.Requests.{run}
use sophia_orchestrator.PhaseService.Requests.Stranded.{Latest}
use sophia_orchestrator.PhaseService.Requests.Deadlock
use sophia_orchestrator.PhaseService.Requests.Deadlock.{Request, serve_all, interrupted_strands}
use sophia_orchestrator.PhaseService.Requests.Race.{commit_seen, racing_runs_lose_phase}
use sophia_orchestrator.PhaseService.Requests.Persisted.{Done, run-Done}
use sophia_orchestrator.PhaseService.Gate.Once
use sophia_orchestrator.PhaseService.Gate.Once.{Verdict, decisions, is_decided, gate_decided_once}

abbrev sure : Envelope
sure = record {
  schema_version = "v1";
  phase = "spec";
  change_name = "add-login";
  project = "shop";
  status = Envelope.Status.done;
  confidence = pos 900_000;
  executive_summary = "";
  artifacts_saved = [];
  next_recommended = [];
  risks = [];
  payload = "";
}

-- Everything works: governance allows, and the agent answers with `sure`.
abbrev fine : Answers
fine = record {
  works = λ _. true;
  error_text = λ _. "";
  now = 50;
  phase_id = some 8;
  session_id = some 30;
  outbox_id = some 40;
  id_error_text = "";
  governance =
      decided (record { decision = Decision.allow; agent_role = ""; reason = ""; approval = none });
  apply_executor = none;
  init_service = none;
  skills = [];
  prompt = ok "do it";
  provider = Provider.opencode;
  hash_prompt = λ _. "hash";
  acquire = none;
  dispatch = ok (record { envelope_raw = "raw"; exit_code = pos 0 });
  release = none;
  memory_record = none;
  unmarshal = λ _. some sure;
  marshal = λ _. ok "raw";
  top_level_keys = λ _. none;
  rule_of = λ _. none;
  blockers_of = λ _. [];
  critic = none;
  outbox_wired = true;
  archived_body = λ id _ now. some (id ∷ now ∷ []);
  phase_error_text = λ _. "";
  session_error_text = λ _. "";
  validation_error_text = λ _. "";
  count_text = λ _. "";
}

abbrev shop_change : PhaseType → Change
shop_change t = record {
  id = 2;
  name = "add-login";
  project = "shop";
  status = Change.Status.active;
  current_phase = t;
  artifact_store = Change.ArtifactStoreMode.inline;
  base_ref = "main";
  created_at = 1;
  updated_at = 1;
}

abbrev spec_row : PhaseStatus → Phase
spec_row s = record {
  id = 7;
  change_id = 2;
  p_type = PhaseType.spec;
  status = s;
  envelope = none;
  confidence = pos 0;
  retry_budget = 3;
  attempts = 1;
  started_at = some 10;
  completed_at = none;
  concerns = [];
}

abbrev shop_store : PhaseType → List Phase → Store
shop_store t rows = record {
  changes = shop_change t ∷ [];
  phases = rows;
  sessions = [];
  usage = [];
  outbox = [];
  audit = [];
  events = [];
  memory = [];
}

abbrev spec_input : RunPhaseInput
spec_input = record {
  change_id = 2;
  phase_type = PhaseType.spec;
  task_description = "write the spec";
  context_overrides = empty;
  retry_budget = pos 3;
}

abbrev crashed : Phase
crashed = spec_row PhaseStatus.interrupted

abbrev crashed_store : Store
crashed_store = shop_store PhaseType.spec (crashed ∷ [])

crashed-Latest : Latest crashed crashed_store
unfolding Phases.find_by_id Phases.find_by_change_and_type
crashed-Latest = record { stored = refl; last = refl }

abbrev resume_then_run : List (Answers × Request)
resume_then_run =
    (fine, Deadlock.resumes)
    ∷ (fine, Deadlock.runs spec_input)
    ∷ (fine, Deadlock.rejects "ana" "stuck")
    ∷ []

interrupted_strands_example :
    (serve_all 2 7 resume_then_run crashed_store).phases ≡ crashed_store.phases
interrupted_strands_example =
    interrupted_strands resume_then_run crashed crashed_store crashed-Latest refl

abbrev free_store : Store
free_store = shop_store PhaseType.spec []

racing_runs_lose_phase_example :
    Phases.find_by_id 9
      (commit_seen fine spec_input
        (shop_change PhaseType.spec)
        9
        free_store
        (commit_seen fine spec_input
          (shop_change PhaseType.spec)
          8
          free_store
          free_store).0).0.phases
    ≡ none
unfolding Phases.find_by_id Requests.prepare_attempt Requests.commit_attempt
racing_runs_lose_phase_example =
    racing_runs_lose_phase fine fine spec_input (shop_change PhaseType.spec) 8 9 free_store refl
      refl refl refl refl refl refl

abbrev blocked_store : Store
blocked_store = shop_store PhaseType.spec (spec_row PhaseStatus.blocked ∷ [])

run-Done_example :
    Done blocked_store (run fine spec_input blocked_store).0 (run fine spec_input blocked_store).1
unfolding Phases.find_by_change_and_type Statuses.is_terminal
run-Done_example = run-Done fine spec_input blocked_store refl refl

abbrev verified_store : Store
verified_store = shop_store PhaseType.verify []

advance_change_atomic_example :
    Untouched verified_store
      (advance_change fine (shop_change PhaseType.verify) PhaseType.archive verified_store)
    ⊎ Completed fine
        (shop_change PhaseType.verify)
        verified_store
        (advance_change fine (shop_change PhaseType.verify) PhaseType.archive verified_store)
advance_change_atomic_example =
    advance_change_atomic fine (shop_change PhaseType.verify) verified_store refl

abbrev paused_store : Store
paused_store = record (shop_store PhaseType.spec (spec_row PhaseStatus.running ∷ [])) {
  audit =
      record {
        change_id = some 2;
        phase_id = some 7;
        event_type = "approval.required";
        occurred_at = 11;
      }
      ∷ [];
}

abbrev two_decisions : List (Answers × Verdict)
two_decisions = (fine, Once.approves "ana" "fine") ∷ (fine, Once.rejects "bob" "late") ∷ []

gate_decided_once_example :
    (decisions 7 two_decisions paused_store ≤ 1)
    × ((is_decided 7 paused_store ≡ false) ⊎ (decisions 7 two_decisions paused_store ≡ 0))
gate_decided_once_example = gate_decided_once 7 two_decisions paused_store (refl, (refl, tt))

abbrev proposal_store : Store
proposal_store = shop_store PhaseType.proposal (spec_row PhaseStatus.running ∷ [])

running-Ready : Ready (spec_row PhaseStatus.running) proposal_store
unfolding Phases.find_by_id Changes.find_by_id
running-Ready = record {
  row = spec_row PhaseStatus.running;
  change = shop_change PhaseType.proposal;
  running = refl;
  stored = refl;
  keyed = refl;
  known = refl;
}

abbrev spec_done : Store
spec_done =
    run_async fine (shop_change PhaseType.proposal) spec_input (spec_row PhaseStatus.running)
      proposal_store

run_async_settles_example : Ended 7 spec_done ⊎ Paused 7 spec_done
run_async_settles_example =
    run_async_settles fine (shop_change PhaseType.proposal) spec_input
      (spec_row PhaseStatus.running) proposal_store (λ _. refl) running-Ready tt

run_async-PersistedFirst_example :
    PersistedFirst (spec_row PhaseStatus.running) proposal_store spec_done
run_async-PersistedFirst_example =
    run_async-PersistedFirst fine (shop_change PhaseType.proposal) spec_input
      (spec_row PhaseStatus.running) proposal_store

-- internal/application/change at a table of one change.
abbrev change_answers : ChangeService.Answers
change_answers = record { works = λ _. true; now = 60; new_id = some 3 }

abbrev again : ChangeService.CreateChangeInput
again = record {
  name = "add-login";
  project = "shop";
  artifact_store_mode = Change.ArtifactStoreMode.inline;
  base_ref = "main";
}
