-- ===== src/PhaseService/Requests/Stranded.antt =====
-- What the requests can still do for a phase that a crash left interrupted, over the constraints of
-- the table of the phases.
use sophia_orchestrator.Prelude.{
  ℕ, ◌+◌, String, Bool, true, false, ◌&&◌, ◌||◌, not, Option, none, some, ◌≡◌, ◌≢◌, refl, arith,
  Bool-cases, Option-cases, inl, inr, subst,
}
use sophia_orchestrator.Phase
use sophia_orchestrator.Phase.{Phase, start, restart, complete, is_blocked, is_running}
use sophia_orchestrator.Phase.Statuses.{is_terminal}
use sophia_orchestrator.Change.{Change}
use sophia_orchestrator.Store.{Store}
use sophia_orchestrator.Store.Changes
use sophia_orchestrator.Store.Phases
use sophia_orchestrator.Store.Phases.{
  has_key, is_live, find_by_change_and_type, find_running_by_change,
}
use sophia_orchestrator.Store.Latest.{beyond_latest, live_found}
use sophia_orchestrator.PhaseService.{
  Answers, RunPhaseInput, Site, save_phase, save_restarted, save_rejected, find_phase, find_change,
}
use sophia_orchestrator.PhaseService.Requests.{
  Launched, rejected, launched, run, check_request, revive, resume, resume_with, is_interrupted,
  is_apply, save_revived,
}
use sophia_orchestrator.PhaseService.Gate.{
  open_gate, rejection_text, reject_phase, block_phase, gated,
}

abbrev pub is_rejected : Launched → Bool
is_rejected (launched j) = false
is_rejected (rejected x) = true

-- A request is refused and writes nothing.
abbrev pub Refused : Store → Store × Launched → Type 0
Refused w r = (r.0 ≡ w) × (is_rejected r.1 ≡ true)

-- The phase stands in the table as it is, as the last attempt of its type.
pub record Latest (p : Phase) (w : Store) : Type 0 where
  pub stored : Phases.find_by_id p.id w.phases ≡ some p
  pub last : find_by_change_and_type p.change_id p.p_type w.phases ≡ some p

-- A row with one more attempt is a new key under an id that is taken.
next_attempt_refused :
    (a : Answers) (site : Site) (p q : Phase) (w : Store)
    → Latest p w
    → q.id ≡ p.id
    → q.change_id ≡ p.change_id
    → q.p_type ≡ p.p_type
    → q.attempts ≡ p.attempts + 1
    → save_phase a site q w ≡ none
unfolding save_phase
next_attempt_refused a site p q w l i c t n =
    let found : Phases.find_by_id q.id w.phases ≡ some p = rw i l.stored in
    let last : find_by_change_and_type q.change_id q.p_type w.phases ≡ some p = rw (c, t) l.last in
    let unkeyed : has_key q w.phases ≡ false = beyond_latest q w.phases last (omega (arith, n)) in
    elim (Bool-cases (a.works site)) [ inl e ↦ rw (e, unkeyed, found) refl | inr e ↦ rw e refl ]

pub start_next :
    (now : ℕ) (p : Phase)
    → (start now p).1 ≡ none
    → ((start now p).0.id ≡ p.id)
      × ((start now p).0.change_id ≡ p.change_id)
      × ((start now p).0.p_type ≡ p.p_type)
      × ((start now p).0.attempts ≡ p.attempts + 1)
unfolding start
start_next now p h = ground arith

restart_next :
    (now : ℕ) (p : Phase)
    → (restart now p).1 ≡ none
    → ((restart now p).0.id ≡ p.id)
      × ((restart now p).0.change_id ≡ p.change_id)
      × ((restart now p).0.p_type ≡ p.p_type)
      × ((restart now p).0.attempts ≡ p.attempts + 1)
unfolding restart
restart_next now p h = ground arith

-- The phases that `Resume` starts again.
abbrev pub revives : Phase → Bool
revives p = is_interrupted p.status || (is_blocked p.status && is_apply p.p_type)

save_revived-Refused :
    (a : Answers) (c : Change) (attempt : Phase × Option Phase.Error) (w : Store)
    → (attempt.1 ≡ none → save_phase a save_restarted attempt.0 w ≡ none)
    → Refused w (save_revived a c attempt w)
unfolding save_revived
save_revived-Refused a c (q, some x) w h = (refl, refl)
save_revived-Refused a c (q, none) w h = rw (save_revived, h refl) (refl, refl)

restart_refused :
    (a : Answers) (p : Phase) (w : Store)
    → Latest p w
    → (restart a.now p).1 ≡ none
    → save_phase a save_restarted (restart a.now p).0 w ≡ none
restart_refused a p w l h =
    let (i, c, t, n) = restart_next a.now p h in
    next_attempt_refused a save_restarted p (restart a.now p).0 w l i c t n

start_refused :
    (a : Answers) (site : Site) (p : Phase) (w : Store)
    → Latest p w
    → (start a.now p).1 ≡ none
    → save_phase a site (start a.now p).0 w ≡ none
start_refused a site p w l h =
    let (i, c, t, n) = start_next a.now p h in
    next_attempt_refused a site p (start a.now p).0 w l i c t n

resume_with-Refused :
    (a : Answers) (c : Change) (p : Phase) (w : Store)
    → Latest p w
    → revives p ≡ true
    → Refused w (resume_with a c p w)
unfolding resume_with revive
resume_with-Refused a c p w l r = elim (Bool-cases (is_interrupted p.status)) [
  | inl e ↦
      rw (resume_with, revive, e)
        (save_revived-Refused a c (start a.now p) w (start_refused a save_restarted p w l))
  | inr e ↦
      let blocked : (is_blocked p.status && is_apply p.p_type) ≡ true = rw e at r in
      rw (resume_with, revive, e, blocked)
        (save_revived-Refused a c (restart a.now p) w (restart_refused a p w l))
]

-- `Resume` is refused, and writes nothing, for an interrupted phase and for a blocked apply phase,
-- if the phase stands in the table as the last attempt of its type, whatever the rest answers.
pub resume-Refused :
    (a : Answers) (p : Phase) (w : Store)
    → Latest p w
    → revives p ≡ true
    → Refused w (resume a p.id w)
unfolding resume
resume-Refused a p w l r = elim (Bool-cases (a.works find_phase)) [
  | inr e ↦ rw (resume, e) (refl, refl)
  | inl e ↦
      elim (Bool-cases (is_terminal p.status && not (is_blocked p.status && is_apply p.p_type))) [
        | inl f ↦ rw (resume, e, l.stored, f) (refl, refl)
        | inr f ↦ elim (Bool-cases (a.works find_change)) [
          | inr g ↦ rw (resume, e, l.stored, f, g) (refl, refl)
          | inl g ↦ elim (Option-cases (Changes.find_by_id p.change_id w.changes)) [
            | inl h ↦ rw (resume, e, l.stored, f, g, h) (refl, refl)
            | inr (c, h) ↦ rw (resume, e, l.stored, f, g, h) (resume_with-Refused a c p w l r)
          ]
        ]
      ]
]

check_finds :
    (a : Answers) (input : RunPhaseInput) (c : Change) (p : Phase) (w : Store)
    → Phases.find_by_id p.id w.phases ≡ some p
    → is_live p.status ≡ true
    → input.change_id ≡ p.change_id
    → check_request a input c w ≢ none
unfolding check_request
check_finds a input c p w f l i h =
    elim (Option-cases (find_running_by_change input.change_id w.phases)) [
      | inl e ↦
          let none_live : find_running_by_change p.change_id w.phases ≡ none =
            subst (λ x. find_running_by_change x w.phases ≡ none) i e in
          live_found p w.phases f l none_live
      | inr (r, e) ↦ ground arith
    ]

-- `Run` is refused, and writes nothing, while a phase of the change is interrupted or running.
pub run-Refused :
    (a : Answers) (input : RunPhaseInput) (p : Phase) (w : Store)
    → Phases.find_by_id p.id w.phases ≡ some p
    → is_live p.status ≡ true
    → input.change_id ≡ p.change_id
    → Refused w (run a input w)
unfolding run
run-Refused a input p w f l i = elim (Bool-cases (a.works find_change)) [
  | inr e ↦ rw (run, e) (refl, refl)
  | inl e ↦ elim (Option-cases (Changes.find_by_id input.change_id w.changes)) [
    | inl g ↦ rw (run, e, g) (refl, refl)
    | inr (c, g) ↦ elim (Option-cases (check_request a input c w)) [
      | inr (x, h) ↦ rw (run, e, g, h) (refl, refl)
      | inl h ↦ absurd (check_finds a input c p w f l i h)
    ]
  ]
]

block_next :
    (now : ℕ) (c : Change) (text : String) (p : Phase)
    → is_running p.status ≡ false
    → (block_phase now c text p).1 ≡ none
    → ((block_phase now c text p).0.id ≡ p.id)
      × ((block_phase now c text p).0.change_id ≡ p.change_id)
      × ((block_phase now c text p).0.p_type ≡ p.p_type)
      × ((block_phase now c text p).0.attempts ≡ p.attempts + 1)
unfolding block_phase
block_next now c text p r h = ground arith

pub reject_phase_refused :
    (a : Answers) (c : Change) (p : Phase) (who why : String) (w : Store)
    → Latest p w
    → is_running p.status ≡ false
    → (reject_phase a c p who why w).0 ≡ w
unfolding reject_phase
reject_phase_refused a c p who why w l r =
    let text = rejection_text who why in
    elim (Option-cases (block_phase a.now c text p).1) [
      | inr (x, e) ↦ rw (reject_phase, e) refl
      | inl e ↦
          let (i, g, t, n) = block_next a.now c text p r e in
          let refused : save_phase a save_rejected (block_phase a.now c text p).0 w ≡ none =
            next_attempt_refused a save_rejected p (block_phase a.now c text p).0 w l i g t n in
          rw (reject_phase, e, refused) refl
    ]

pub gated_stored :
    (a : Answers) (id : ℕ) (who : String) (w : Store) {p q : Phase}
    → Phases.find_by_id id w.phases ≡ some p
    → open_gate a id who w ≡ gated q
    → some p ≡ some q
unfolding open_gate
gated_stored a id who w f h = ground arith
