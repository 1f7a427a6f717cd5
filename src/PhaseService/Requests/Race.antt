-- ===== src/PhaseService/Requests/Race.antt =====
-- Two calls of Run that both passed the checks before either saved its phase.
use sophia_orchestrator.Prelude.{
  ℕ, ◌+◌, ◌==◌, true, false, none, some, ◌≡◌, refl, arith, Option-cases, inl, inr, ◌∙◌, sym,
  false≢true,
}
use sophia_orchestrator.Phase.{Phase}
use sophia_orchestrator.Phase.Types.{PhaseType}
use sophia_orchestrator.Change.{Change}
use sophia_orchestrator.Store.{Store, started}
use sophia_orchestrator.Store.Phases
use sophia_orchestrator.Store.Phases.{has_key, find_by_id}
use sophia_orchestrator.Store.Unique.{
  save-cases, save-has_key, has_key_eq, save-find_none, find_by_id-update_none,
}
use sophia_orchestrator.PhaseService.{
  Answers, RunPhaseInput, save_started, find_prior, save_phase, publish_event, append_audit,
}
use sophia_orchestrator.PhaseService.Requests.{
  Launched, prior_attempts, prepare_attempt, commit_attempt, new_attempt,
}
use sophia_orchestrator.PhaseService.Requests.Stranded.{is_rejected, start_next}
use sophia_orchestrator.PhaseService.Frames.{Kept, audit-Kept, event-Kept, save_phase-rows}

-- A phase that is launched was saved.
pub launched-saved :
    (a : Answers) (input : RunPhaseInput) (c : Change) (p : Phase) (w : Store)
    → is_rejected (commit_attempt a input c p w).1 ≡ false
    → Phases.save p w.phases ≡ some (commit_attempt a input c p w).0.phases
unfolding commit_attempt
launched-saved a input c p w h = elim (Option-cases (save_phase a save_started p w)) [
  | inl e ↦ let bad : true ≡ false = rw (commit_attempt, e) at h in absurd (false≢true (sym bad))
  | inr (w', e) ↦
      let audited = append_audit a (some input.change_id) (some p.id) "phase.started" w' in
      let event = started input.phase_type input.change_id a.now in
      let first : Kept w' audited =
        audit-Kept a (some input.change_id) (some p.id) "phase.started" w' in
      let second : Kept audited (publish_event a p.id "phase.started" event audited) =
        event-Kept a p.id "phase.started" event audited in
      let rows : (publish_event a p.id "phase.started" event audited).phases ≡ w'.phases =
        second.phases ∙ first.phases in
      rw (commit_attempt, e, rows) (save_phase-rows a save_started p w e)
]

-- The id, the change, the type and the attempts of the phase that `Run` creates.
pub prepared :
    (a : Answers) (input : RunPhaseInput) (id : ℕ) (w : Store)
    → (prepare_attempt a input id w).1 ≡ none
    → ((prepare_attempt a input id w).0.id ≡ id)
      × ((prepare_attempt a input id w).0.change_id ≡ input.change_id)
      × ((prepare_attempt a input id w).0.p_type ≡ input.phase_type)
      × ((prepare_attempt a input id w).0.attempts
          ≡ prior_attempts a input.change_id input.phase_type w + 1)
unfolding prepare_attempt
prepared a input id w h =
    start_next a.now (new_attempt id input (prior_attempts a input.change_id input.phase_type w)) h

prior_attempts_same :
    (a b : Answers) (cid : ℕ) (pt : PhaseType) (w : Store)
    → a.works find_prior ≡ b.works find_prior
    → prior_attempts a cid pt w ≡ prior_attempts b cid pt w
unfolding prior_attempts
prior_attempts_same a b cid pt w h = rw (prior_attempts, h) refl

-- The second half of `Run`, in the store `w`, for a phase prepared from the store `seen`.
abbrev pub commit_seen : Answers → RunPhaseInput → Change → ℕ → Store → Store → Store × Launched
commit_seen a input c id seen w = commit_attempt a input c (prepare_attempt a input id seen).0 w

-- Two calls of Run for the same change and type that both passed the checks in the same store, with
-- ids of their own, and then both save: both are answered with a launched phase, but the id that the
-- second one was answered with stands in no row.
pub racing_runs_lose_phase :
    (a b : Answers) (input : RunPhaseInput) (c : Change) (ida idb : ℕ) (w : Store)
    → a.works find_prior ≡ b.works find_prior
    → (prepare_attempt a input ida w).1 ≡ none
    → (prepare_attempt b input idb w).1 ≡ none
    → is_rejected (commit_seen a input c ida w w).1 ≡ false
    → is_rejected (commit_seen b input c idb w (commit_seen a input c ida w w).0).1 ≡ false
    → (ida == idb) ≡ false
    → find_by_id idb w.phases ≡ none
    → find_by_id idb (commit_seen b input c idb w (commit_seen a input c ida w w).0).0.phases ≡ none
racing_runs_lose_phase a b input c ida idb w works ha hb fa fb n absent =
    let pa = (prepare_attempt a input ida w).0 in
    let pb = (prepare_attempt b input idb w).0 in
    let w1 = (commit_attempt a input c pa w).0 in
    let (ia, ca, ta, na) = prepared a input ida w ha in
    let (ib, cb, tb, nb) = prepared b input idb w hb in
    let saved : Phases.save pa w.phases ≡ some w1.phases = launched-saved a input c pa w fa in
    let again = launched-saved b input c pb w1 fb in
    let absent1 : find_by_id idb w1.phases ≡ none =
      save-find_none idb pa w.phases saved absent (rw ia n) in
    let same_attempts : pb.attempts ≡ pa.attempts =
      omega (arith, na, nb, prior_attempts_same a b input.change_id input.phase_type w works) in
    let keyed : has_key pb w1.phases ≡ true =
      has_key_eq pb pa w1.phases (cb ∙ sym ca) (tb ∙ sym ta) same_attempts
      ∙ save-has_key pa w.phases saved in
    elim (save-cases pb w1.phases again) [
      | inl (_, e) ↦ rw e (find_by_id-update_none idb pb w1.phases absent1)
      | inr (m, _, _) ↦ absurd (false≢true (sym m ∙ keyed))
    ]
