-- ===== src/Store/Read.antt =====
-- The row of a change after the statement that saves it.
use sophia_orchestrator.Prelude.{
  ℕ, ◌==◌, ==_refl, List, [], ◌∷◌, map, none, some, ◌≡◌, refl, subst, Bool-cases, Option-cases, inl,
  inr,
}
use sophia_orchestrator.Phase.Types.{PhaseType}
use sophia_orchestrator.Change
use sophia_orchestrator.Change.{Change}
use sophia_orchestrator.Store.Changes
use sophia_orchestrator.Store.Changes.{update_row}

-- The row of a change, as it is read by its id, has this status and stands at this phase.
pub record Row (id : ℕ) (status : Change.Status) (at : PhaseType) (rows : List Change)
    : Type 0 where
  pub row : Change
  pub found : Changes.find_by_id id rows ≡ some row
  pub same_status : row.status ≡ status
  pub same_phase : row.current_phase ≡ at

updated_found :
    (c r : Change) (rows : List Change)
    → Changes.find_by_id c.id rows ≡ some r
    → Row c.id c.status c.current_phase (map (update_row c) rows)
unfolding Changes.find_by_id
updated_found c r [] h = absurd (cc)
updated_found c r (x ∷ xs) h = elim (Bool-cases (x.id == c.id)) [
  | inl e ↦ record {
    row = record x {
      status = c.status;
      current_phase = c.current_phase;
      updated_at = c.updated_at;
    };
    found = rw (e, e) refl;
    same_status = refl;
    same_phase = refl;
  }
  | inr e ↦
      let later : Changes.find_by_id c.id xs ≡ some r = rw e at h in
      let k = updated_found c r xs later in
      record {
        row = k.row;
        found = rw (e, e) k.found;
        same_status = k.same_status;
        same_phase = k.same_phase;
      }
]

-- What is saved can be read by its id.
pub save-Row :
    (c : Change) (rows rows' : List Change)
    → Changes.save c rows ≡ some rows'
    → Row c.id c.status c.current_phase rows'
unfolding Changes.save Changes.find_by_id
save-Row c rows rows' h = elim (Option-cases (Changes.find_by_id c.id rows)) [
  | inr (r, e) ↦
      let same : some (map (update_row c) rows) ≡ some rows' = rw (Changes.save, e) at h in
      let q : map (update_row c) rows ≡ rows' = cc in
      subst (λ x. Row c.id c.status c.current_phase x) q (updated_found c r rows e)
  | inl e ↦ elim (Option-cases (Changes.find_by_project_name c.project c.name rows)) [
    | inr (r, f) ↦ let no : none ≡ some rows' = rw (Changes.save, e, f) at h in absurd (cc)
    | inl f ↦
        let same : some (c ∷ rows) ≡ some rows' = rw (Changes.save, e, f) at h in
        let q : c ∷ rows ≡ rows' = cc in
        subst (λ x. Row c.id c.status c.current_phase x) q
          (record {
            row = c;
            found = rw (Changes.find_by_id, ==_refl c.id) refl;
            same_status = refl;
            same_phase = refl;
          })
  ]
]
