-- ===== src/PhaseService/Requests/Deadlock.antt =====
-- Any sequence of requests for an interrupted phase and its change, each with its scheduled work.
use sophia_orchestrator.Prelude.{
  ℕ, String, List, [], ◌∷◌, Option, none, some, ◌≡◌, refl, arith, Bool-cases, Option-cases, inl,
  inr, ◌∙◌, ap, subst, ◌⊎◌, false,
}
use sophia_orchestrator.Phase.{Phase, is_running}
use sophia_orchestrator.Phase.Statuses.{PhaseStatus}
use sophia_orchestrator.Store.{Store, approval_resolved}
use sophia_orchestrator.Store.Changes
use sophia_orchestrator.PhaseService.{
  Answers, RunPhaseInput, find_change, append_audit, publish_event,
}
use sophia_orchestrator.PhaseService.Frames.{Kept, Kept-trans, audit-Kept, event-Kept}
use sophia_orchestrator.PhaseService.Requests.{
  Launched, rejected, launched, run, resume, finish_job,
}
use sophia_orchestrator.PhaseService.Requests.Stranded.{
  Latest, Refused, resume-Refused, run-Refused, reject_phase_refused, gated_stored,
}
use sophia_orchestrator.PhaseService.Gate.{
  Gated, Error, gated, closed, open_gate, approve, reject, reject_phase, resolve,
}

pub data Request : Type 0 where
  runs : RunPhaseInput → Request
  resumes : Request
  approves rejects : String → String → Request

-- One request for the phase `pid` or the change `cid`; the work that it schedules runs at once.
unfoldable pub serve : ℕ → ℕ → Answers → Request → Store → Store
unfolding run resume finish_job approve reject
serve cid pid a (runs input) w = finish_job a (run a (record input { change_id = cid }) w)
serve cid pid a resumes w = finish_job a (resume a pid w)
serve cid pid a (approves who why) w = (approve a pid who why w).0
serve cid pid a (rejects who why) w = (reject a pid who why w).0

unfoldable pub serve_all : ℕ → ℕ → List (Answers × Request) → Store → Store
unfolding serve
serve_all cid pid [] w = w
serve_all cid pid (x ∷ xs) w = serve_all cid pid xs (serve cid pid x.0 x.1 w)

finish-Refused : (a : Answers) (w : Store) (r : Store × Launched) → Refused w r → finish_job a r ≡ w
unfolding finish_job
finish-Refused a w (w', launched j) (h, k) = ground arith
finish-Refused a w (w', rejected x) (h, k) = h

pub Gated-cases : (g : Gated) → ((p : Phase) × (g ≡ gated p)) ⊎ ((x : Error) × (g ≡ closed x))
Gated-cases (gated p) = inl (p, refl)
Gated-cases (closed x) = inr (x, refl)

pub resolve-Kept :
    (a : Answers) (id : ℕ) (decision who why : String) (w : Store)
    → Kept w (resolve a id decision who why w)
resolve-Kept a id decision who why w =
    let audited = append_audit a none (some id) "approval.resolved" w in
    let event = approval_resolved decision who why a.now in
    Kept-trans w audited (publish_event a id "approval.resolved" event audited)
      (audit-Kept a none (some id) "approval.resolved" w)
      (event-Kept a id "approval.resolved" event audited)

approve_phases :
    (a : Answers) (id : ℕ) (who why : String) (w : Store)
    → (approve a id who why w).0.phases ≡ w.phases
unfolding approve
approve_phases a id who why w = elim (Gated-cases (open_gate a id who w)) [
  | inl (p, e) ↦
      let same_rows : (resolve a id "approved" who why w).phases ≡ w.phases =
        (resolve-Kept a id "approved" who why w).phases in
      rw (approve, e) same_rows
  | inr (x, e) ↦ rw (approve, e) refl
]

abbrev IsRow : Phase → Option Phase → Type 0
IsRow p none = Unit
IsRow p (some q) = p ≡ q

reject_refused :
    (a : Answers) (p : Phase) (who why : String) (w : Store)
    → Latest p w
    → is_running p.status ≡ false
    → (reject a p.id who why w).0 ≡ w
unfolding reject
reject_refused a p who why w l r = elim (Gated-cases (open_gate a p.id who w)) [
  | inr (x, e) ↦ rw (reject, e) refl
  | inl (q, e) ↦
      let same_row : p ≡ q = subst (IsRow p) (gated_stored a p.id who w l.stored e) refl in
      elim (Bool-cases (a.works find_change)) [
        | inr f ↦ rw (reject, e, f) refl
        | inl f ↦ elim (Option-cases (Changes.find_by_id q.change_id w.changes)) [
          | inl g ↦ rw (reject, e, f, g) refl
          | inr (c, g) ↦
              let kept : (reject_phase a c q who why w).0 ≡ w =
                subst (λ x. (reject_phase a c x who why w).0 ≡ w) same_row
                  (reject_phase_refused a c p who why w l r) in
              rw (reject, e, f, g) kept
        ]
      ]
]

serve_phases :
    (a : Answers) (p : Phase) (x : Request) (w : Store)
    → Latest p w
    → p.status ≡ PhaseStatus.interrupted
    → (serve p.change_id p.id a x w).phases ≡ w.phases
unfolding serve
serve_phases a p (runs input) w l s =
    let asked = record input { change_id = p.change_id } in
    ap (λ v. v.phases)
      (finish-Refused a w (run a asked w) (run-Refused a asked p w l.stored (rw s refl) refl))
serve_phases a p resumes w l s =
    ap (λ v. v.phases) (finish-Refused a w (resume a p.id w) (resume-Refused a p w l (rw s refl)))
serve_phases a p (approves who why) w l s = approve_phases a p.id who why w
serve_phases a p (rejects who why) w l s =
    ap (λ v. v.phases) (reject_refused a p who why w l (rw s refl))

-- A phase that is interrupted, and stands in the table as the last attempt of its type, cannot be
-- brought on: whatever the rest answers, no sequence of Run on its change and of Resume, Approve and
-- Reject on the phase, with the work that they schedule, changes a row of the table of the phases.
pub interrupted_strands :
    (xs : List (Answers × Request)) (p : Phase) (w : Store)
    → Latest p w
    → p.status ≡ PhaseStatus.interrupted
    → (serve_all p.change_id p.id xs w).phases ≡ w.phases
unfolding serve_all
interrupted_strands [] p w l s = refl
interrupted_strands (x ∷ xs) p w l s =
    let w' = serve p.change_id p.id x.0 x.1 w in
    let kept : w'.phases ≡ w.phases = serve_phases x.0 p x.1 w l s in
    let again : Latest p w' = record { stored = rw kept l.stored; last = rw kept l.last } in
    interrupted_strands xs p w' again s ∙ kept
