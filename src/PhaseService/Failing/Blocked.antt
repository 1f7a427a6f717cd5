-- ===== src/PhaseService/Failing/Blocked.antt =====
-- A phase that the service ends itself stands BLOCKED in the table.
use sophia_orchestrator.Prelude.{
  ℕ, String, true, false, none, some, ◌≡◌, refl, Option-cases, inl, inr, sym, subst, eq_refl, map,
  pos, ◌≢◌,
}
use sophia_orchestrator.Phase.{Phase, complete, is_running}
use sophia_orchestrator.Phase.Types.{to_string}
use sophia_orchestrator.Phase.Statuses.{PhaseStatus}
use sophia_orchestrator.Change.{Change}
use sophia_orchestrator.Store
use sophia_orchestrator.Store.{Store}
use sophia_orchestrator.Store.Phases.{same_key, update_row, is_live, find_by_id, has_key}
use sophia_orchestrator.Store.Changes
use sophia_orchestrator.Store.Unique.{save_found_own, found-has_key}
use sophia_orchestrator.PhaseService.{
  Answers, Site, save_failed, find_failing, save_phase, append_audit, publish_event,
}
use sophia_orchestrator.PhaseService.Frames.{
  Kept, Kept-trans, audit-Kept, event-Kept, save_phase-rows,
}
use sophia_orchestrator.PhaseService.Failing.{
  blocked_envelope, block_row, save_blocked, report_failure, fail_phase_with_reason, ensure_running,
  failure,
}

-- A running phase in memory, its row in the table, and its change.
pub record Ready (p : Phase) (w : Store) : Type 0 where
  pub row : Phase
  pub change : Change
  pub running : p.status ≡ PhaseStatus.running
  pub stored : find_by_id p.id w.phases ≡ some row
  pub keyed : same_key p row ≡ true
  pub known : Changes.find_by_id p.change_id w.changes ≡ some change

pub Ready-Kept : (p : Phase) (w w' : Store) → Ready p w → Kept w w' → Ready p w'
Ready-Kept p w w' r k = record {
  row = r.row;
  change = r.change;
  running = r.running;
  stored = rw k.phases r.stored;
  keyed = r.keyed;
  known = rw k.changes r.known;
}

-- The row of the phase is neither running nor interrupted.
pub record Ended (id : ℕ) (w : Store) : Type 0 where
  pub row : Phase
  pub found : find_by_id id w.phases ≡ some row
  pub settled : is_live row.status ≡ false

pub Ended-rows : (id : ℕ) (w w' : Store) → Ended id w → w'.phases ≡ w.phases → Ended id w'
Ended-rows id w w' e k = record { row = e.row; found = rw k e.found; settled = e.settled }

blocked_complete :
    (now : ℕ) (c : Change) (reason : String) (p : Phase)
    → p.status ≡ PhaseStatus.running
    → complete (some (blocked_envelope p.p_type c reason)) now p ≡ (
      record p {
        envelope = some (blocked_envelope p.p_type c reason);
        confidence = pos 0;
        completed_at = some now;
        status = PhaseStatus.blocked;
      },
      none,
    )
unfolding complete blocked_envelope
blocked_complete now c reason p r = rw (complete, r, eq_refl (to_string p.p_type)) refl

-- A phase that is saved under its own key is found with its new status.
pub save_ends :
    (a : Answers) (site : Site) (p : Phase) (w w' : Store) {r : Phase}
    → save_phase a site p w ≡ some w'
    → find_by_id p.id w.phases ≡ some r
    → same_key p r ≡ true
    → is_live p.status ≡ false
    → Ended p.id w'
save_ends a site p w w' {r} h f k l = record {
  row = update_row p r;
  found = save_found_own p w.phases (save_phase-rows a site p w h) f k;
  settled = rw k l;
}

pub save_works :
    (a : Answers) (site : Site) (p : Phase) (w : Store) {r : Phase}
    → a.works site ≡ true
    → find_by_id p.id w.phases ≡ some r
    → same_key p r ≡ true
    → save_phase a site p w ≢ none
unfolding save_phase
save_works a site p w works f k h =
    let keyed : has_key p w.phases ≡ true = found-has_key p.id p w.phases f k in
    let saved : some (record w { phases = map (update_row p) w.phases }) ≡ none =
      rw (save_phase, works, keyed) at h in
    absurd (cc)

pub report_failure-Kept :
    (a : Answers) (c : Change) (p : Phase) (rule reason : String) (w : Store)
    → Kept w (report_failure a c p rule reason w)
report_failure-Kept a c p rule reason w =
    let audited = append_audit a (some c.id) (some p.id) "phase.failed" w in
    let said = failure a p.id rule reason audited in
    let event = Store.failed p.p_type a.now reason said.0 said.1 in
    Kept-trans w audited (publish_event a p.id "phase.failed" event audited)
      (audit-Kept a (some c.id) (some p.id) "phase.failed" w)
      (event-Kept a p.id "phase.failed" event audited)

running_stays : (now : ℕ) (p : Phase) → p.status ≡ PhaseStatus.running → ensure_running now p ≡ p
running_stays now p r = let on : is_running p.status ≡ true = rw r refl in rw on refl

block_row_ends :
    (a : Answers) (c : Change) (p : Phase) (reason : String) (w : Store)
    → a.works save_failed ≡ true
    → Ready p w
    → Ended p.id (block_row a c p reason w)
unfolding block_row save_blocked
block_row_ends a c p reason w works r =
    let e = blocked_envelope p.p_type c reason in
    let q = record p {
      envelope = some e;
      confidence = pos 0;
      completed_at = some a.now;
      status = PhaseStatus.blocked;
    } in
    let done : complete (some e) a.now (ensure_running a.now p) ≡ (q, none) =
      subst (λ x. complete (some e) a.now x ≡ (q, none)) (sym (running_stays a.now p r.running))
        (blocked_complete a.now c reason p r.running) in
    elim (Option-cases (save_phase a save_failed q w)) [
      | inl n ↦ absurd (save_works a save_failed q w works r.stored r.keyed n)
      | inr (w', s) ↦
          let saved : Ended p.id (save_blocked a w (q, none)) =
            rw (save_blocked, s) (save_ends a save_failed q w w' s r.stored r.keyed refl) in
          subst (λ x. Ended p.id (save_blocked a w x)) (sym done) saved
    ]

-- A running phase that stands in the table, with its change, ends as BLOCKED when the service fails
-- it, if the two statements work.
pub fail_phase_with_reason_ends :
    (a : Answers) (p : Phase) (rule reason : String) (w : Store)
    → a.works find_failing ≡ true
    → a.works save_failed ≡ true
    → Ready p w
    → Ended p.id (fail_phase_with_reason a p rule reason w)
unfolding fail_phase_with_reason
fail_phase_with_reason_ends a p rule reason w f s r =
    let blocked = block_row a r.change p reason w in
    let kept : Kept blocked (report_failure a r.change p rule reason blocked) =
      report_failure-Kept a r.change p rule reason blocked in
    rw (fail_phase_with_reason, f, r.known)
      (Ended-rows p.id blocked (report_failure a r.change p rule reason blocked)
        (block_row_ends a r.change p reason w s r) kept.phases)
