-- ===== src/PhaseService/Requests/Persisted.antt =====
-- What Run leaves in the table of the phases before it answers.
use sophia_orchestrator.Prelude.{
  ℕ, true, false, Option, none, some, ◌≡◌, refl, arith, Bool-cases, Option-cases, inl, inr, sym,
  subst,
}
use sophia_orchestrator.Phase.{Phase, start}
use sophia_orchestrator.Phase.Statuses.{PhaseStatus}
use sophia_orchestrator.Change.{Change}
use sophia_orchestrator.Store.{Store}
use sophia_orchestrator.Store.Changes
use sophia_orchestrator.Store.Phases.{has_key, find_by_id, inserted, find_by_change_and_type}
use sophia_orchestrator.Store.Unique.{save_found_new}
use sophia_orchestrator.Store.Latest.{beyond_latest, no_row_no_key}
use sophia_orchestrator.PhaseService.{
  Answers, RunPhaseInput, find_prior, find_change, save_started, save_phase,
}
use sophia_orchestrator.PhaseService.Requests.{
  Launched, launched, rejected, prior_attempts, prepare_attempt, commit_attempt, create_attempt,
  run, check_request, counts, new_attempt,
}
use sophia_orchestrator.PhaseService.Requests.Race.{prepared, launched-saved}
use sophia_orchestrator.PhaseService.Requests.Stranded.{is_rejected}

-- The last attempt of the type, if any, ended or lacks context.
abbrev pub CanRetry : Option Phase → Type 0
CanRetry none = Unit
CanRetry (some r) = counts r.status ≡ true

fresh_key :
    (a : Answers) (input : RunPhaseInput) (id : ℕ) (w : Store)
    → a.works find_prior ≡ true
    → CanRetry (find_by_change_and_type input.change_id input.phase_type w.phases)
    → (prepare_attempt a input id w).1 ≡ none
    → has_key (prepare_attempt a input id w).0 w.phases ≡ false
unfolding prior_attempts
fresh_key a input id w works retry h =
    let p = (prepare_attempt a input id w).0 in
    let (i, c, t, n) = prepared a input id w h in
    elim (Option-cases (find_by_change_and_type input.change_id input.phase_type w.phases)) [
      | inl e ↦
          let no_row : find_by_change_and_type p.change_id p.p_type w.phases ≡ none = rw (c, t) e in
          no_row_no_key p w.phases no_row
      | inr (r, e) ↦
          let row : find_by_change_and_type p.change_id p.p_type w.phases ≡ some r = rw (c, t) e in
          let counted : counts r.status ≡ true = rw e at retry in
          beyond_latest p w.phases row
            (omega (arith, n, prior_attempts_of a input w r works e counted))
    ]
  where
    prior_attempts_of :
        (a : Answers) (input : RunPhaseInput) (w : Store) (r : Phase)
        → a.works find_prior ≡ true
        → find_by_change_and_type input.change_id input.phase_type w.phases ≡ some r
        → counts r.status ≡ true
        → prior_attempts a input.change_id input.phase_type w ≡ r.attempts
    prior_attempts_of a input w r works e counted = rw (prior_attempts, works, e, counted) refl

-- How Run ends: the phase of the job is running and stands in the table under its id, or the call
-- is rejected and has written nothing.
abbrev pub Done : Store → Store → Launched → Type 0
Done w w' (launched j) =
    (find_by_id j.phase.id w'.phases ≡ some (inserted j.phase))
    × (j.phase.status ≡ PhaseStatus.running)
Done w w' (rejected x) = w' ≡ w

commit-Done :
    (a : Answers) (input : RunPhaseInput) (c : Change) (p : Phase) (w : Store)
    → has_key p w.phases ≡ false
    → p.status ≡ PhaseStatus.running
    → Done w (commit_attempt a input c p w).0 (commit_attempt a input c p w).1
unfolding commit_attempt
commit-Done a input c p w n s = elim (Option-cases (save_phase a save_started p w)) [
  | inl e ↦ rw (commit_attempt, e) refl
  | inr (w', e) ↦
      let not_rejected : is_rejected (commit_attempt a input c p w).1 ≡ false =
        rw (commit_attempt, e) refl in
      let saved = launched-saved a input c p w not_rejected in
      let found : find_by_id p.id (commit_attempt a input c p w).0.phases ≡ some (inserted p) =
        save_found_new p w.phases saved n in
      let outcome : (commit_attempt a input c p w).1
          ≡ launched (record { change = c; phase = p; input = input }) =
        rw (commit_attempt, e) refl in
      subst (Done w (commit_attempt a input c p w).0) (sym outcome) (found, s)
]

start_running :
    (now : ℕ) (p : Phase) → (start now p).1 ≡ none → (start now p).0.status ≡ PhaseStatus.running
unfolding start
start_running now p h = ground arith

create-Done :
    (a : Answers) (input : RunPhaseInput) (c : Change) (w : Store)
    → a.works find_prior ≡ true
    → CanRetry (find_by_change_and_type input.change_id input.phase_type w.phases)
    → Done w (create_attempt a input c w).0 (create_attempt a input c w).1
unfolding create_attempt prepare_attempt
create-Done a input c w works retry = elim (Option-cases a.phase_id) [
  | inl e ↦ rw (create_attempt, e) refl
  | inr (id, e) ↦ elim (Option-cases (prepare_attempt a input id w).1) [
    | inr (x, f) ↦ rw (create_attempt, e, f) refl
    | inl f ↦
        let done =
          commit-Done a input c (prepare_attempt a input id w).0 w
            (fresh_key a input id w works retry f) (started_running a input id w f) in
        rw (create_attempt, e, f) done
  ]
]
  where
    started_running :
        (a : Answers) (input : RunPhaseInput) (id : ℕ) (w : Store)
        → (prepare_attempt a input id w).1 ≡ none
        → (prepare_attempt a input id w).0.status ≡ PhaseStatus.running
    started_running a input id w f =
        start_running a.now
          (new_attempt id input (prior_attempts a input.change_id input.phase_type w)) f

-- Run persists before it answers: if the last attempt of the type is read, and it ended or lacks
-- context, then a launched phase is running and is found under its id with what was started, and a
-- rejected call has written nothing.
pub run-Done :
    (a : Answers) (input : RunPhaseInput) (w : Store)
    → a.works find_prior ≡ true
    → CanRetry (find_by_change_and_type input.change_id input.phase_type w.phases)
    → Done w (run a input w).0 (run a input w).1
unfolding run
run-Done a input w works retry = elim (Bool-cases (a.works find_change)) [
  | inr e ↦ rw (run, e) refl
  | inl e ↦ elim (Option-cases (Changes.find_by_id input.change_id w.changes)) [
    | inl f ↦ rw (run, e, f) refl
    | inr (c, f) ↦ elim (Option-cases (check_request a input c w)) [
      | inr (x, g) ↦ rw (run, e, f, g) refl
      | inl g ↦ rw (run, e, f, g) (create-Done a input c w works retry)
    ]
  ]
]
