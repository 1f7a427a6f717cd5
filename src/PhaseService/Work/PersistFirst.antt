-- ===== src/PhaseService/Work/PersistFirst.antt =====
-- Iron Law 1: the scheduled work changes the table of the changes only after the phase stands in its
-- own table with a status that advances, whatever fails.
use sophia_orchestrator.Prelude.{
  String, Bool, true, false, ◌&&◌, List, [], ◌∷◌, Option, none, some, ◌≡◌, refl, arith, map,
  Bool-cases, Option-cases, inl, inr, ◌⊎◌, ◌∙◌, sym, subst, if◌then◌else◌, false≢true,
}
use sophia_orchestrator.Envelope.{Envelope}
use sophia_orchestrator.Phase.{Phase, complete, Concern, set_concerns}
use sophia_orchestrator.Phase.Statuses.{advance_allowed}
use sophia_orchestrator.Store.{Store}
use sophia_orchestrator.Store.Phases
use sophia_orchestrator.Store.Phases.{same_key, has_key, update_row, inserted}
use sophia_orchestrator.Store.Changes
use sophia_orchestrator.Store.Unique.{save-cases, same_key_refl}
use sophia_orchestrator.PhaseService.{
  Answers, Site, find_failing, save_failed, save_completed, save_phase,
}
use sophia_orchestrator.PhaseService.Frames.{save_phase-rows}
use sophia_orchestrator.PhaseService.Failing.{
  fail_phase, fail_phase_with_reason, block_row, save_blocked, blocked_envelope, ensure_running,
}
use sophia_orchestrator.Phase
use sophia_orchestrator.PhaseService.Failing.Blocked.{report_failure-Kept}
use sophia_orchestrator.PhaseService.Finish.Ends.{complete_fields}
use sophia_orchestrator.PhaseService.Finish.{Settled, settled, unsettled, settle, upgrade, upgrades}
use sophia_orchestrator.PhaseService.Finish.Rows.{Advances}

-- A row with the key of the phase has a status that advances.
unfoldable pub has_advanced : Phase → List Phase → Bool
unfolding advance_allowed
has_advanced p [] = false
has_advanced p (r ∷ rs) =
    let rest = has_advanced p rs in if same_key p r && advance_allowed r.status then true else rest

updated_advanced :
    (q : Phase) (rows : List Phase)
    → advance_allowed q.status ≡ true
    → has_key q rows ≡ true
    → has_advanced q (map (update_row q) rows) ≡ true
unfolding has_advanced
updated_advanced q [] d h = absurd (cc)
updated_advanced q (r ∷ rs) d h = elim (Bool-cases (same_key q r)) [
  | inl e ↦ rw (e, e, d) refl
  | inr e ↦ let later : has_key q rs ≡ true = rw e at h in rw (e, e) (updated_advanced q rs d later)
]

pub save_advanced :
    (q : Phase) (rows : List Phase) {rows' : List Phase}
    → Phases.save q rows ≡ some rows'
    → advance_allowed q.status ≡ true
    → has_advanced q rows' ≡ true
unfolding has_advanced
save_advanced q rows h d = elim (save-cases q rows h) [
  | inl (k, e) ↦ rw e (updated_advanced q rows d k)
  | inr (_, _, e) ↦ rw (e, same_key_refl q, d) refl
]

has_advanced_eq :
    (p q : Phase) (rows : List Phase)
    → p.change_id ≡ q.change_id
    → p.p_type ≡ q.p_type
    → p.attempts ≡ q.attempts
    → has_advanced p rows ≡ has_advanced q rows
unfolding has_advanced
has_advanced_eq p q [] c t n = refl
has_advanced_eq p q (r ∷ rs) c t n = rw (c, t, n, has_advanced_eq p q rs c t n) refl

-- The changes are as before, or the phase of the key of `p` stands in the table as advancing.
abbrev pub PersistedFirst : Phase → Store → Store → Type 0
PersistedFirst p w w' = (w'.changes ≡ w.changes) ⊎ (has_advanced p w'.phases ≡ true)

save_phase-changes :
    (a : Answers) (site : Site) (q : Phase) (w : Store) {w' : Store}
    → save_phase a site q w ≡ some w'
    → w'.changes ≡ w.changes
unfolding save_phase
save_phase-changes a site q w h = ground arith

save_blocked-changes :
    (a : Answers) (w : Store) (attempt : Phase × Option Phase.Error)
    → (save_blocked a w attempt).changes ≡ w.changes
unfolding save_blocked
save_blocked-changes a w (q, some x) = refl
save_blocked-changes a w (q, none) = elim (Option-cases (save_phase a save_failed q w)) [
  | inl e ↦ rw (save_blocked, e) refl
  | inr (w', e) ↦ rw (save_blocked, e) (save_phase-changes a save_failed q w e)
]

pub fail_phase_with_reason-changes :
    (a : Answers) (p : Phase) (rule reason : String) (w : Store)
    → (fail_phase_with_reason a p rule reason w).changes ≡ w.changes
unfolding fail_phase_with_reason block_row
fail_phase_with_reason-changes a p rule reason w = elim (Bool-cases (a.works find_failing)) [
  | inr e ↦ rw (fail_phase_with_reason, e) refl
  | inl e ↦ elim (Option-cases (Changes.find_by_id p.change_id w.changes)) [
    | inl f ↦ rw (fail_phase_with_reason, e, f) refl
    | inr (c, f) ↦
        let blocked = block_row a c p reason w in
        let attempt =
          complete (some (blocked_envelope p.p_type c reason)) a.now (ensure_running a.now p) in
        rw (fail_phase_with_reason, e, f)
          ((report_failure-Kept a c p rule reason blocked).changes
            ∙ save_blocked-changes a w attempt)
  ]
]

pub fail_phase-changes :
    (a : Answers) (p : Phase) (reason : String) (w : Store)
    → (fail_phase a p reason w).changes ≡ w.changes
unfolding fail_phase
fail_phase-changes a p reason w = fail_phase_with_reason-changes a p "" reason w

-- What `settle` has done, for a phase with the key of `p`.
pub SettledFirst : Phase → Store → Settled → Type 0
SettledFirst p w (unsettled q reason) = Unit
SettledFirst p w (settled q w') =
    (w'.changes ≡ w.changes)
    × ((advance_allowed q.status ≡ false) ⊎ (has_advanced p w'.phases ≡ true))

pub settle-SettledFirst :
    (a : Answers) (label : String) (e : Envelope) (p : Phase) (w : Store)
    → SettledFirst p w (settle a label e p w)
unfolding settle SettledFirst
settle-SettledFirst a label e p w =
    let q = (complete (some e) a.now p).0 in
    elim (Option-cases (complete (some e) a.now p).1) [
      | inr (x, f) ↦ rw (settle, f) tt
      | inl f ↦ elim (Option-cases (save_phase a save_completed q w)) [
        | inl g ↦ rw (settle, f, g) tt
        | inr (w', g) ↦
            let (_, c, t, n, _) = complete_fields e a.now p f in
            let first : (advance_allowed q.status ≡ false) ⊎ (has_advanced p w'.phases ≡ true) =
              elim (Bool-cases (advance_allowed q.status)) [
                | inr d ↦ inl d
                | inl d ↦ inr (
                    has_advanced_eq p q w'.phases (sym c) (sym t) (sym n)
                    ∙ save_advanced q w.phases (save_phase-rows a save_completed q w g) d)
              ] in
            rw (settle, f, g) (save_phase-changes a save_completed q w g, first)
      ]
    ]

pub settle_then_first :
    (a : Answers) (p : Phase) (w : Store) (s : Settled) (next : Phase → Store → Store)
    → SettledFirst p w s
    → ((q : Phase) (v : Store) → Advances q v (next q v))
    → PersistedFirst p w
        (elim s [ unsettled q reason ↦ fail_phase a q reason w | settled q w' ↦ next q w' ])
unfolding SettledFirst
settle_then_first a p w (unsettled q reason) next h keeps = inl (fail_phase-changes a q reason w)
settle_then_first a p w (settled q w') next (k, d) keeps =
    let step = keeps q w' in
    elim step.changes [
      | inr same ↦ inl (same ∙ k)
      | inl allowed ↦ elim d [
        | inl refused ↦ absurd (false≢true (sym refused ∙ allowed))
        | inr row ↦ inr (subst (λ rows. has_advanced p rows ≡ true) (sym step.phases) row)
      ]
    ]

upgrade_key :
    (cs : List Concern) (e : Envelope) (p : Phase)
    → (p.change_id ≡ (upgrade cs e p).1.change_id)
      × (p.p_type ≡ (upgrade cs e p).1.p_type)
      × (p.attempts ≡ (upgrade cs e p).1.attempts)
unfolding upgrade set_concerns
upgrade_key cs e p = elim (Bool-cases (upgrades cs e)) [
  | inl u ↦ rw (upgrade, u) (refl, refl, refl)
  | inr u ↦ rw (upgrade, u) (refl, refl, refl)
]

pub upgraded_first :
    (cs : List Concern) (e : Envelope) (p : Phase) (w w' : Store)
    → PersistedFirst (upgrade cs e p).1 w w'
    → PersistedFirst p w w'
upgraded_first cs e p w w' (inl k) = inl k
upgraded_first cs e p w w' (inr k) =
    let (c, t, n) = upgrade_key cs e p in
    inr (has_advanced_eq p (upgrade cs e p).1 w'.phases c t n ∙ k)
