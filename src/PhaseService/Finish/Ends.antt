-- ===== src/PhaseService/Finish/Ends.antt =====
-- A running phase that reaches the end of its flow stands in the table with a final status.
use sophia_orchestrator.Prelude.{
  ℕ, String, true, false, List, none, some, ◌≡◌, refl, arith, Bool-cases, Option-cases, inl, inr,
  ◌⊎◌, sym, ap, subst,
}
use sophia_orchestrator.Envelope
use sophia_orchestrator.Envelope.{Envelope}
use sophia_orchestrator.Phase
use sophia_orchestrator.Phase.{Phase, complete, set_concerns, Concern, outcome}
use sophia_orchestrator.Phase.Statuses.{PhaseStatus}
use sophia_orchestrator.Phase.Lifecycle.{step_error_unchanged, completes, step}
use sophia_orchestrator.Change.{Change}
use sophia_orchestrator.Store.{Store}
use sophia_orchestrator.Store.Phases.{same_key, is_live, find_by_id}
use sophia_orchestrator.PhaseService.{
  Answers, Entries, Site, save_completed, find_failing, save_failed, save_phase,
}
use sophia_orchestrator.PhaseService.Failing.{fail_phase}
use sophia_orchestrator.PhaseService.Failing.Blocked.{
  Ready, Ended, Ended-rows, save_ends, save_works, fail_phase_with_reason_ends,
}
use sophia_orchestrator.PhaseService.Finish.{
  Settled, settled, unsettled, settle, after_settled, upgrade, upgrades, review_concerns, conclude,
}
use sophia_orchestrator.PhaseService.Finish.Rows.{Advances, after_settled-Advances}

-- Every statement works.
abbrev pub Works : Answers → Type 0
Works a = (s : Site) → a.works s ≡ true

pub fail_phase-Ended :
    (a : Answers) (p : Phase) (reason : String) (w : Store)
    → Works a
    → Ready p w
    → Ended p.id (fail_phase a p reason w)
unfolding fail_phase
fail_phase-Ended a p reason w h r =
    fail_phase_with_reason_ends a p "" reason w (h find_failing) (h save_failed) r

complete_unchanged :
    (e : Envelope) (now : ℕ) (p : Phase) {x : Phase.Error}
    → (complete (some e) now p).1 ≡ some x
    → (complete (some e) now p).0 ≡ p
unfolding step
complete_unchanged e now p h = step_error_unchanged (completes (some e) now) p h

pub complete_fields :
    (e : Envelope) (now : ℕ) (p : Phase)
    → (complete (some e) now p).1 ≡ none
    → ((complete (some e) now p).0.id ≡ p.id)
      × ((complete (some e) now p).0.change_id ≡ p.change_id)
      × ((complete (some e) now p).0.p_type ≡ p.p_type)
      × ((complete (some e) now p).0.attempts ≡ p.attempts)
      × ((complete (some e) now p).0.status ≡ outcome e.status p.status)
unfolding complete
complete_fields e now p h = ground arith

outcome_final :
    (s : Envelope.Status) (t : PhaseStatus)
    → Envelope.is_valid s ≡ true
    → is_live (outcome s t) ≡ false
unfolding Envelope.is_valid
outcome_final Envelope.Status.done t h = refl
outcome_final Envelope.Status.done_with_concerns t h = refl
outcome_final Envelope.Status.blocked t h = refl
outcome_final Envelope.Status.needs_context t h = refl
outcome_final (Envelope.Status.unknown s) t h = absurd (cc)

same_key_fields :
    (p q r : Phase)
    → q.change_id ≡ p.change_id
    → q.p_type ≡ p.p_type
    → q.attempts ≡ p.attempts
    → same_key p r ≡ true
    → same_key q r ≡ true
same_key_fields p q r c t n k = rw (c, t, n) k

-- How `settle` ends for a phase with the id `id`: its row has a final status, or the phase can still
-- be failed.
pub Settles : ℕ → Store → Settled → Type 0
Settles id w (settled q w') = (q.id ≡ id) × Ended id w'
Settles id w (unsettled q reason) = (q.id ≡ id) × Ready q w

pub settle-Settles :
    (a : Answers) (label : String) (e : Envelope) (p : Phase) (w : Store)
    → Works a
    → Ready p w
    → Envelope.is_valid e.status ≡ true
    → Settles p.id w (settle a label e p w)
unfolding settle Settles
settle-Settles a label e p w h r v =
    let q = (complete (some e) a.now p).0 in
    elim (Option-cases (complete (some e) a.now p).1) [
      | inr (x, f) ↦
          let kept : q ≡ p = complete_unchanged e a.now p f in
          let ready : Ready q w = subst (λ x. Ready x w) (sym kept) r in
          let same : q.id ≡ p.id = ap (λ x. x.id) kept in rw (settle, f) (same, ready)
      | inl f ↦
          let (i, c, t, n, s) = complete_fields e a.now p f in
          let key : same_key q r.row ≡ true = same_key_fields p q r.row c t n r.keyed in
          let stored : find_by_id q.id w.phases ≡ some r.row = rw i r.stored in
          elim (Option-cases (save_phase a save_completed q w)) [
            | inl g ↦ absurd (save_works a save_completed q w (h save_completed) stored key g)
            | inr (w', g) ↦
                let final : is_live q.status ≡ false = rw s (outcome_final e.status p.status v) in
                let ended : Ended p.id w' =
                  subst (λ x. Ended x w') i
                    (save_ends a save_completed q w w' g stored key final) in
                rw (settle, f, g) (i, ended)
          ]
    ]

pub upgrade-Ready :
    (cs : List Concern) (e : Envelope) (p : Phase) (w : Store)
    → Ready p w
    → Envelope.is_valid e.status ≡ true
    → ((upgrade cs e p).1.id ≡ p.id)
      × (Envelope.is_valid (upgrade cs e p).0.status ≡ true)
      × Ready (upgrade cs e p).1 w
unfolding upgrade set_concerns Envelope.is_valid
upgrade-Ready cs e p w r v =
    let raised : Ready (set_concerns cs p) w = record {
      row = r.row;
      change = r.change;
      running = r.running;
      stored = r.stored;
      keyed = r.keyed;
      known = r.known;
    } in
    elim (Bool-cases (upgrades cs e)) [
      | inl u ↦ rw (upgrade, u) (refl, refl, raised)
      | inr u ↦ rw (upgrade, u) (refl, v, r)
    ]

Settled-cases :
    (s : Settled)
    → ((q : Phase) × (w : Store) × (s ≡ settled q w))
      ⊎ ((q : Phase) × (t : String) × (s ≡ unsettled q t))
Settled-cases (settled q w) = inl (q, w, refl)
Settled-cases (unsettled q t) = inr (q, t, refl)

-- After `settle`: the failure of the phase, or a step that keeps the table.
pub settle_then :
    (a : Answers) (id : ℕ) (w : Store) (s : Settled) (next : Phase → Store → Store)
    → Works a
    → Settles id w s
    → ((q : Phase) (v : Store) → Advances q v (next q v))
    → Ended id (elim s [ unsettled q reason ↦ fail_phase a q reason w | settled q w' ↦ next q w' ])
unfolding Settles
settle_then a id w (settled q w') next h (i, ended) keeps =
    Ended-rows id w' (next q w') ended (keeps q w').phases
settle_then a id w (unsettled q reason) next h (i, ready) keeps =
    subst (λ x. Ended x (fail_phase a q reason w)) i (fail_phase-Ended a q reason w h ready)

pub conclude-Ended :
    (a : Answers) (c : Change) (overrides : Entries) (usage : List ℕ) (e : Envelope) (p : Phase)
    (w : Store)
    → Works a
    → Ready p w
    → Envelope.is_valid e.status ≡ true
    → Ended p.id (conclude a c overrides usage e p w)
unfolding conclude
conclude-Ended a c overrides usage e p w h r v =
    let cs = review_concerns a overrides in
    let e' = (upgrade cs e p).0 in
    let p' = (upgrade cs e p).1 in
    let (i, valid, ready) = upgrade-Ready cs e p w r v in
    let ends : Ended p'.id (conclude a c overrides usage e p w) =
      settle_then a p'.id w (settle a "" e' p' w) (λ q w'. after_settled a c usage e' q w') h
        (settle-Settles a "" e' p' w h ready valid)
        (λ q w'. after_settled-Advances a c usage e' q w') in
    subst (λ x. Ended x (conclude a c overrides usage e p w)) i ends
