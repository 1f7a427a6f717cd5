-- ===== src/PhaseService/Requests.antt =====
-- internal/application/phase/service.go: Run and Resume, which start a phase and hand its work to
-- the scheduler. The scheduled work is a `Job`.
pub mod Stranded
pub mod Deadlock
pub mod Race
pub mod Persisted
use sophia_orchestrator.Prelude.{
  ℕ, zero, suc, String, ℤ, pos, negsuc, Bool, true, false, ◌&&◌, ◌||◌, not, List, [], ◌∷◌, Option,
  none, some, if◌then◌else◌,
}
use sophia_orchestrator.Phase
use sophia_orchestrator.Phase.{Phase, start, restart, is_blocked}
use sophia_orchestrator.Phase.Types.{PhaseType, same, contains, next_valid}
use sophia_orchestrator.Phase.Statuses.{PhaseStatus, is_terminal}
use sophia_orchestrator.Change.{Change}
use sophia_orchestrator.Store.{Store, started}
use sophia_orchestrator.Store.Phases
use sophia_orchestrator.Store.Changes
use sophia_orchestrator.PhaseService.{
  Answers, Entries, empty, RunPhaseInput, Site, find_change, find_phase, lock_change, find_running,
  find_prior, save_started, save_restarted, append_audit, publish_event, save_phase,
}
use sophia_orchestrator.PhaseService.Work.{run_async}

pub data Error : Type 0 where
  change_not_found phase_not_found lock_failed bad_id not_running : Error
  statement_failed : Site → Error
  invalid_transition : PhaseType → PhaseType → Error
  phase_running : PhaseType → Error
  save_failed : Error
  already_terminal : PhaseStatus → Error
  refused : Phase.Error → Error

-- What the scheduler runs: `runAsync` with the change and the phase in memory.
pub record Job : Type 0 where
  pub change : Change
  pub phase : Phase
  pub input : RunPhaseInput

pub data Launched : Type 0 where
  launched : Job → Launched
  rejected : Error → Launched

unfoldable pub is_next_valid_transition : PhaseType → PhaseType → Bool
unfolding next_valid
is_next_valid_transition current next = same current next || contains (next_valid current) next

abbrev pub counts : PhaseStatus → Bool
counts PhaseStatus.needs_context = true
counts s = is_terminal s

-- The attempts that a new phase starts from: those of the last one, if it ended or lacks context.
unfoldable pub prior_attempts : Answers → ℕ → PhaseType → Store → ℕ
unfolding Phases.find_by_change_and_type is_terminal
prior_attempts a change_id pt w =
    if a.works find_prior
    then elim (Phases.find_by_change_and_type change_id pt w.phases) [
      | none ↦ 0
      | some r ↦ if counts r.status then r.attempts else 0
    ]
    else 0

-- `if budget <= 0 { budget = 3 }`
abbrev pub budget_of : ℤ → ℕ
budget_of (pos zero) = 3
budget_of (pos (suc n)) = suc n
budget_of (negsuc _) = 3

abbrev pub new_attempt : ℕ → RunPhaseInput → ℕ → Phase
new_attempt pid input attempts = record {
  id = pid;
  change_id = input.change_id;
  p_type = input.phase_type;
  status = PhaseStatus.pending;
  envelope = none;
  confidence = pos 0;
  retry_budget = budget_of input.retry_budget;
  attempts = attempts;
  started_at = none;
  completed_at = none;
  concerns = [];
}

-- Step 3 of `Run`: the new phase, started.
unfoldable pub prepare_attempt : Answers → RunPhaseInput → ℕ → Store → Phase × Option Phase.Error
unfolding prior_attempts start
prepare_attempt a input pid w =
    start a.now (new_attempt pid input (prior_attempts a input.change_id input.phase_type w))

abbrev announce_start : Answers → RunPhaseInput → Phase → Store → Store
announce_start a input p w =
    publish_event a p.id "phase.started" (started input.phase_type input.change_id a.now)
      (append_audit a (some input.change_id) (some p.id) "phase.started" w)

-- From the saved row on.
unfoldable pub commit_attempt : Answers → RunPhaseInput → Change → Phase → Store → Store × Launched
unfolding save_phase append_audit publish_event
commit_attempt a input c p w = elim (save_phase a save_started p w) [
  | none ↦ (w, rejected save_failed)
  | some w' ↦
      (announce_start a input p w', launched (record { change = c; phase = p; input = input }))
]

unfoldable pub create_attempt : Answers → RunPhaseInput → Change → Store → Store × Launched
unfolding prepare_attempt commit_attempt
create_attempt a input c w = elim a.phase_id [
  | none ↦ (w, rejected bad_id)
  | some pid ↦
      let (p, failed) = prepare_attempt a input pid w in
      elim failed [ some x ↦ (w, rejected (refused x)) | none ↦ commit_attempt a input c p w ]
]

-- Step 2 of `Run` after the change was found.
unfoldable pub check_request : Answers → RunPhaseInput → Change → Store → Option Error
unfolding is_next_valid_transition Phases.find_running_by_change
check_request a input c w =
    if not (is_next_valid_transition c.current_phase input.phase_type)
    then some (invalid_transition c.current_phase input.phase_type)
    else if not (a.works lock_change)
    then some lock_failed
    else if not (a.works find_running)
    then some (statement_failed find_running)
    else elim (Phases.find_running_by_change input.change_id w.phases) [
      | none ↦ none
      | some r ↦ some (phase_running r.p_type)
    ]

unfoldable pub run : Answers → RunPhaseInput → Store → Store × Launched
unfolding Changes.find_by_id check_request create_attempt
run a input w =
    if not (a.works find_change)
    then (w, rejected (statement_failed find_change))
    else elim (Changes.find_by_id input.change_id w.changes) [
      | none ↦ (w, rejected change_not_found)
      | some c ↦ elim (check_request a input c w) [
        | some x ↦ (w, rejected x)
        | none ↦ create_attempt a input c w
      ]
    ]

abbrev is_apply : PhaseType → Bool
is_apply PhaseType.apply = true
is_apply _ = false

abbrev is_interrupted : PhaseStatus → Bool
is_interrupted PhaseStatus.interrupted = true
is_interrupted _ = false

-- The phase as `Resume` starts it again, if it does: an interrupted one, or a blocked apply phase.
unfoldable pub revive : ℕ → Phase → Option (Phase × Option Phase.Error)
unfolding start restart
revive now p =
    if is_interrupted p.status
    then some (start now p)
    else if is_blocked p.status && is_apply p.p_type
    then some (restart now p)
    else none

abbrev resume_job : Change → Phase → Job
resume_job c p = record {
  change = c;
  phase = p;
  input = record {
    change_id = c.id;
    phase_type = p.p_type;
    task_description = "";
    context_overrides = empty;
    retry_budget = pos p.retry_budget;
  };
}

-- The started phase is saved before the job is handed on.
unfoldable pub save_revived :
    Answers → Change → Phase × Option Phase.Error → Store → Store × Launched
unfolding save_phase
save_revived a c (q, some x) w = (w, rejected (refused x))
save_revived a c (q, none) w = elim (save_phase a save_restarted q w) [
  | none ↦ (w, rejected save_failed)
  | some w' ↦ (w', launched (resume_job c q))
]

unfoldable pub resume_with : Answers → Change → Phase → Store → Store × Launched
unfolding revive save_revived
resume_with a c p w = elim (revive a.now p) [
  | none ↦ (w, launched (resume_job c p))
  | some attempt ↦ save_revived a c attempt w
]

-- A terminal phase is resumed only if it is a blocked apply phase.
unfoldable pub resume : Answers → ℕ → Store → Store × Launched
unfolding Phases.find_by_id is_terminal Changes.find_by_id resume_with
resume a id w =
    if not (a.works find_phase)
    then (w, rejected (statement_failed find_phase))
    else elim (Phases.find_by_id id w.phases) [
      | none ↦ (w, rejected phase_not_found)
      | some p ↦
          if is_terminal p.status && not (is_blocked p.status && is_apply p.p_type)
          then (w, rejected (already_terminal p.status))
          else if not (a.works find_change)
          then (w, rejected (statement_failed find_change))
          else elim (Changes.find_by_id p.change_id w.changes) [
            | none ↦ (w, rejected change_not_found)
            | some c ↦ resume_with a c p w
          ]
    ]

-- The scheduler runs the job at once, as `SyncScheduler` does.
unfoldable pub finish_job : Answers → Store × Launched → Store
unfolding run_async
finish_job a (w, rejected _) = w
finish_job a (w, launched j) = run_async a j.change j.input j.phase w
