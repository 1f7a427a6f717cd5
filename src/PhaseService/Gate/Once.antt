-- ===== src/PhaseService/Gate/Once.antt =====
-- Any sequence of Approve and Reject on one phase: its gate is decided once.
use sophia_orchestrator.Prelude.{
  ℕ, ◌+◌, ◌≤◌, String, Bool, true, false, List, [], ◌∷◌, Option, none, some, ◌≡◌, ◌≢◌, refl, arith,
  Bool-cases, Option-cases, inl, inr, ◌⊎◌, ◌∙◌, sym, subst, false≢true, All, ==_refl,
}
use sophia_orchestrator.Phase.{Phase}
use sophia_orchestrator.Change.{Change}
use sophia_orchestrator.Store.{Store, has_event_for_phase}
use sophia_orchestrator.Store.Phases
use sophia_orchestrator.Store.Changes
use sophia_orchestrator.PhaseService.{
  Answers, append, publish, find_change, save_rejected, save_phase, append_audit, publish_event,
}
use sophia_orchestrator.PhaseService.Gate.{
  Error, gated, check_gate_state, open_gate, resolve, approve, block_phase, rejection_text,
  reject_phase, reject,
}
use sophia_orchestrator.PhaseService.Requests.Stranded.{gated_stored}
use sophia_orchestrator.PhaseService.Requests.Deadlock.{Gated-cases}

abbrev pub is_decided : ℕ → Store → Bool
is_decided id w = has_event_for_phase id "approval.resolved" w.audit

-- What a decision has done: it is refused and has written nothing, or it decided an open gate.
abbrev pub Step : ℕ → Store → Store × Option Error → Type 0
Step id w r =
    ((r.0 ≡ w) × (r.1 ≢ none))
    ⊎ ((is_decided id w ≡ false) × (is_decided id r.0 ≡ true) × (r.1 ≡ none))

some-none : {A : Type 0} (x : A) → some x ≢ none
some-none x h = ground arith

resolve_decides :
    (a : Answers) (id : ℕ) (d who why : String) (w : Store)
    → a.works (append "approval.resolved") ≡ true
    → is_decided id (resolve a id d who why w) ≡ true
unfolding append_audit publish_event has_event_for_phase
resolve_decides a id d who why w h = elim (Bool-cases (a.works (publish "approval.resolved"))) [
  | inl e ↦ rw (append_audit, publish_event, h, e, ==_refl id) refl
  | inr e ↦ rw (append_audit, publish_event, h, e, ==_refl id) refl
]

gated_undecided :
    (a : Answers) (id : ℕ) (who : String) (w : Store) {p : Phase}
    → open_gate a id who w ≡ gated p
    → is_decided id w ≡ false
unfolding open_gate check_gate_state
gated_undecided a id who w h = ground arith

approve-Step :
    (a : Answers) (id : ℕ) (who why : String) (w : Store)
    → a.works (append "approval.resolved") ≡ true
    → Step id w (approve a id who why w)
unfolding approve
approve-Step a id who why w h = elim (Gated-cases (open_gate a id who w)) [
  | inr (x, e) ↦ rw (approve, e) (inl (refl, some-none x))
  | inl (p, e) ↦
      rw (approve, e)
        (inr (gated_undecided a id who w e, resolve_decides a id "approved" who why w h, refl))
]

-- The store that a rejection saves differs from the one before in the table of the phases only.
save_phase-audit :
    (a : Answers) (p : Phase) (w w' : Store)
    → save_phase a save_rejected p w ≡ some w'
    → w'.audit ≡ w.audit
unfolding save_phase
save_phase-audit a p w w' h = ground arith

reject_phase-Step :
    (a : Answers) (c : Change) (p : Phase) (id : ℕ) (who why : String) (w : Store)
    → a.works (append "approval.resolved") ≡ true
    → is_decided id w ≡ false
    → p.id ≡ id
    → Step id w (reject_phase a c p who why w)
unfolding reject_phase
reject_phase-Step a c p id who why w h u i =
    elim (Option-cases (block_phase a.now c (rejection_text who why) p).1) [
      | inr (x, e) ↦ rw (reject_phase, e) (inl (refl, some-none (Error.refused x)))
      | inl e ↦
          let q = (block_phase a.now c (rejection_text who why) p).0 in
          elim (Option-cases (save_phase a save_rejected q w)) [
            | inl f ↦ rw (reject_phase, e, f) (inl (refl, some-none Error.save_failed))
            | inr (w', f) ↦
                let decided : is_decided id (resolve a p.id "rejected" who why w') ≡ true =
                  rw i (resolve_decides a id "rejected" who why w' h) in
                rw (reject_phase, e, f) (inr (u, decided, refl))
          ]
    ]

found_id : (id : ℕ) (rows : List Phase) {p : Phase} → Phases.find_by_id id rows ≡ some p → p.id ≡ id
unfolding Phases.find_by_id
found_id id [] h = ground arith
found_id id (r ∷ rs) {p} h = ground (arith, found_id id rs {p = p})

abbrev HasId : ℕ → Option Phase → Type 0
HasId id none = Unit
HasId id (some p) = p.id ≡ id

gated_id :
    (a : Answers) (id : ℕ) (who : String) (w : Store) {p : Phase}
    → open_gate a id who w ≡ gated p
    → p.id ≡ id
unfolding open_gate
gated_id a id who w {p} h = elim (Option-cases (Phases.find_by_id id w.phases)) [
  | inl e ↦ ground arith
  | inr (q, e) ↦ subst (HasId id) (gated_stored a id who w e h) (found_id id w.phases e)
]

reject-Step :
    (a : Answers) (id : ℕ) (who why : String) (w : Store)
    → a.works (append "approval.resolved") ≡ true
    → Step id w (reject a id who why w)
unfolding reject
reject-Step a id who why w h = elim (Gated-cases (open_gate a id who w)) [
  | inr (x, e) ↦ rw (reject, e) (inl (refl, some-none x))
  | inl (p, e) ↦ elim (Bool-cases (a.works find_change)) [
    | inr f ↦ rw (reject, e, f) (inl (refl, some-none (Error.statement_failed find_change)))
    | inl f ↦ elim (Option-cases (Changes.find_by_id p.change_id w.changes)) [
      | inl g ↦ rw (reject, e, f, g) (inl (refl, some-none Error.change_not_found))
      | inr (c, g) ↦
          let step =
            reject_phase-Step a c p id who why w h (gated_undecided a id who w e)
              (gated_id a id who w e) in
          rw (reject, e, f, g) step
    ]
  ]
]

pub data Verdict : Type 0 where
  approves rejects : String → String → Verdict

unfoldable pub decide : ℕ → Answers → Verdict → Store → Store × Option Error
unfolding approve reject
decide id a (approves who why) w = approve a id who why w
decide id a (rejects who why) w = reject a id who why w

-- 1 for a decision that is accepted.
abbrev pub accepted : Option Error → ℕ
accepted none = 1
accepted (some _) = 0

-- How many decisions of a sequence are accepted.
unfoldable pub decisions : ℕ → List (Answers × Verdict) → Store → ℕ
unfolding decide
decisions id [] w = 0
decisions id (x ∷ xs) w = let (w', e) = decide id x.0 x.1 w in accepted e + decisions id xs w'

abbrev pub AuditWorks : Answers × Verdict → Type 0
AuditWorks x = x.0.works (append "approval.resolved") ≡ true

decide-Step :
    (id : ℕ) (a : Answers) (v : Verdict) (w : Store)
    → a.works (append "approval.resolved") ≡ true
    → Step id w (decide id a v w)
unfolding decide
decide-Step id a (approves who why) w h = approve-Step a id who why w h
decide-Step id a (rejects who why) w h = reject-Step a id who why w h

not_accepted : (o : Option Error) → o ≢ none → accepted o ≡ 0
not_accepted none h = absurd (h refl)
not_accepted (some x) h = refl

decided_stays :
    (id : ℕ) (xs : List (Answers × Verdict)) (w : Store)
    → All AuditWorks xs
    → is_decided id w ≡ true
    → decisions id xs w ≡ 0
unfolding decisions
decided_stays id [] w h d = refl
decided_stays id (x ∷ xs) w (h, hs) d = elim (decide-Step id x.0 x.1 w h) [
  | inr (u, _, _) ↦ absurd (false≢true (sym u ∙ d))
  | inl (kept, refused) ↦
      let still : is_decided id (decide id x.0 x.1 w).0 ≡ true = rw kept d in
      omega (
        arith,
        not_accepted (decide id x.0 x.1 w).1 refused,
        decided_stays id xs (decide id x.0 x.1 w).0 hs still,
      )
]

accepted_le : (o : Option Error) → accepted o ≤ 1
accepted_le none = omega arith
accepted_le (some x) = omega arith

-- While the audit log takes the decisions, at most one decision of any sequence of Approve and
-- Reject on a phase is accepted, and none after the gate was decided.
pub gate_decided_once :
    (id : ℕ) (xs : List (Answers × Verdict)) (w : Store)
    → All AuditWorks xs
    → (decisions id xs w ≤ 1) × ((is_decided id w ≡ false) ⊎ (decisions id xs w ≡ 0))
unfolding decisions
gate_decided_once id [] w h = (omega arith, inr refl)
gate_decided_once id (x ∷ xs) w (h, hs) = elim (decide-Step id x.0 x.1 w h) [
  | inr (u, d, _) ↦ (
    omega (
      arith,
      accepted_le (decide id x.0 x.1 w).1,
      decided_stays id xs (decide id x.0 x.1 w).0 hs d,
    ),
    inl u,
  )
  | inl (kept, refused) ↦
      let (once, rest) = gate_decided_once id xs (decide id x.0 x.1 w).0 hs in
      let zero_here = not_accepted (decide id x.0 x.1 w).1 refused in
      (
        omega (arith, zero_here, once),
        elim rest [
          | inl u ↦ inl (subst (λ v. is_decided id v ≡ false) kept u)
          | inr z ↦ inr (omega (arith, zero_here, z))
        ],
      )
]
