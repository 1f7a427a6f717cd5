-- ===== src/PhaseService/Finish/Rows.antt =====
-- What the end of a phase leaves in the table of the phases: the row that `settle` saved.
use sophia_orchestrator.Prelude.{
  ℕ, String, true, List, [], ◌∷◌, Option, none, some, ◌≡◌, refl, Bool-cases, Option-cases, inl, inr,
  ◌⊎◌, ◌∙◌, str_eq,
}
use sophia_orchestrator.Envelope
use sophia_orchestrator.Envelope.{Envelope, ArtifactRef}
use sophia_orchestrator.Phase.{Phase}
use sophia_orchestrator.Phase.Types.{PhaseType}
use sophia_orchestrator.Phase.Statuses.{advance_allowed}
use sophia_orchestrator.Change.{Change, advance_phase, mark_completed}
use sophia_orchestrator.Outbox
use sophia_orchestrator.Store
use sophia_orchestrator.Store.{Store, archived}
use sophia_orchestrator.SkillUsage.{update_outcome}
use sophia_orchestrator.Store.Changes
use sophia_orchestrator.PhaseService.{
  Answers, Answer, ok, err, text_append, event_type_for_status, ingest, update_usage, save_change,
  enqueue, publish_event, save_change_row, or_same,
}
use sophia_orchestrator.PhaseService.Frames.{Kept, Kept-refl, Kept-trans, audit-Kept, event-Kept}
use sophia_orchestrator.PhaseService.Advance.{
  enqueue_completed, save_completed_change, archive_phase_id, announce_archived, complete_change,
  advance_change, is_archive,
}
use sophia_orchestrator.PhaseService.Finish.{
  ingest_artifact, ingest_all, report_all, persist_artifacts_to_memory, update_skill_usage_outcomes,
  advance_if_allowed, after_settled, audit_end, concerns_of, skill_usage_outcome_for,
}

save_change_row_phases :
    (a : Answers) (c : Change) (w : Store) → (or_same w (save_change_row a c w)).phases ≡ w.phases
unfolding save_change_row
save_change_row_phases a c w = elim (Bool-cases (a.works save_change)) [
  | inr e ↦ rw (save_change_row, e) refl
  | inl e ↦ elim (Option-cases (Changes.save c w.changes)) [
    | inl f ↦ rw (save_change_row, e, f) refl
    | inr (rows, f) ↦ rw (save_change_row, e, f) refl
  ]
]

-- A store that was or was not written, with the same phases.
abbrev SameRows : Store → Option Store → Type 0
SameRows w none = Unit
SameRows w (some w') = w'.phases ≡ w.phases

save_change_row-SameRows :
    (a : Answers) (c : Change) (w : Store) → SameRows w (save_change_row a c w)
unfolding save_change_row
save_change_row-SameRows a c w = elim (Bool-cases (a.works save_change)) [
  | inr e ↦ rw (save_change_row, e) tt
  | inl e ↦ elim (Option-cases (Changes.save c w.changes)) [
    | inl f ↦ rw (save_change_row, e, f) tt
    | inr (rows, f) ↦ rw (save_change_row, e, f) refl
  ]
]

enqueue-SameRows : (a : Answers) (c : Change) (w : Store) → SameRows w (enqueue_completed a c w)
unfolding enqueue_completed
enqueue-SameRows a c w = elim (Option-cases (a.archived_body c.id c.name a.now)) [
  | inl e ↦ rw (enqueue_completed, e) tt
  | inr (body, e) ↦ elim (Option-cases a.outbox_id) [
    | inl f ↦ rw (enqueue_completed, e, f) tt
    | inr (id, f) ↦ elim (Bool-cases (a.works enqueue)) [
      | inr g ↦ rw (enqueue_completed, e, f, g) tt
      | inl g ↦
          let ev = Outbox.new id "phase.archived" body a.now in
          elim (Option-cases (Changes.save_completed_with_outbox c ev w.changes w.outbox)) [
            | inl h ↦ rw (enqueue_completed, e, f, g, h) tt
            | inr (tables, h) ↦ rw (enqueue_completed, e, f, g, h) refl
          ]
    ]
  ]
]

saved-SameRows : (a : Answers) (c : Change) (w : Store) → SameRows w (save_completed_change a c w)
unfolding save_completed_change
saved-SameRows a c w = elim (Bool-cases a.outbox_wired) [
  | inl e ↦ rw (save_completed_change, e) (enqueue-SameRows a c w)
  | inr e ↦ rw (save_completed_change, e) (save_change_row-SameRows a c w)
]

complete_change_phases :
    (a : Answers) (c : Change) (w : Store) → (complete_change a c w).phases ≡ w.phases
unfolding complete_change
complete_change_phases a c w = elim (Option-cases (mark_completed a.now c).1) [
  | inr (x, e) ↦ rw (complete_change, e) refl
  | inl e ↦
      let c' = (mark_completed a.now c).0 in
      let same = saved-SameRows a c' w in
      elim (Option-cases (save_completed_change a c' w)) [
        | inl f ↦ rw (complete_change, e, f) refl
        | inr (w', f) ↦
            let rows : w'.phases ≡ w.phases = rw f at same in
            let kept : Kept w' (announce_archived a c' w') =
              event-Kept a (archive_phase_id a c'.id w') "phase.archived"
                (archived c'.id c'.name a.now) w' in
            rw (complete_change, e, f) (kept.phases ∙ rows)
      ]
]

pub advance_change_phases :
    (a : Answers) (c : Change) (t : PhaseType) (w : Store)
    → (advance_change a c t w).phases ≡ w.phases
unfolding advance_change
advance_change_phases a c t w = elim (Option-cases (advance_phase t a.now c).1) [
  | inr (x, e) ↦ rw (advance_change, e) refl
  | inl e ↦ elim (Bool-cases (is_archive t)) [
    | inl f ↦ rw (advance_change, e, f) (complete_change_phases a (advance_phase t a.now c).0 w)
    | inr f ↦ rw (advance_change, e, f) (save_change_row_phases a (advance_phase t a.now c).0 w)
  ]
]

ingest_artifact-Kept :
    (a : Answers) (c : Change) (p : Phase) (e : Envelope) (content : String) (r : ArtifactRef)
    (w : Store)
    → Kept w (ingest_artifact a c p e content r w)
unfolding ingest_artifact
ingest_artifact-Kept a c p e content r w = elim (Bool-cases (str_eq r.topic_key "")) [
  | inl f ↦ rw (ingest_artifact, f) (Kept-refl w)
  | inr f ↦ elim (Bool-cases (a.works (ingest r.topic_key))) [
    | inl g ↦ rw (ingest_artifact, f, g) (record { phases = refl; changes = refl; outbox = refl })
    | inr g ↦
        let event = Store.persist_failed r (a.error_text (ingest r.topic_key)) in
        rw (ingest_artifact, f, g) (event-Kept a p.id "memory.artifact_persist_failed" event w)
  ]
]

ingest_all-Kept :
    (a : Answers) (c : Change) (p : Phase) (e : Envelope) (content : String) (rs : List ArtifactRef)
    (w : Store)
    → Kept w (ingest_all a c p e content rs w)
unfolding ingest_all
ingest_all-Kept a c p e content [] w = Kept-refl w
ingest_all-Kept a c p e content (r ∷ rs) w =
    let w' = ingest_artifact a c p e content r w in
    Kept-trans w w' (ingest_all a c p e content rs w') (ingest_artifact-Kept a c p e content r w)
      (ingest_all-Kept a c p e content rs w')

report_all-Kept :
    (a : Answers) (p : Phase) (text : String) (rs : List ArtifactRef) (w : Store)
    → Kept w (report_all a p text rs w)
unfolding report_all
report_all-Kept a p text [] w = Kept-refl w
report_all-Kept a p text (r ∷ rs) w =
    let event = Store.persist_failed r text in
    let w' = publish_event a p.id "memory.artifact_persist_failed" event w in
    Kept-trans w w' (report_all a p text rs w')
      (event-Kept a p.id "memory.artifact_persist_failed" event w) (report_all-Kept a p text rs w')

Answer-cases : {A : Type 0} (x : Answer A) → ((y : A) × (x ≡ ok y)) ⊎ ((t : String) × (x ≡ err t))
Answer-cases (ok y) = inl (y, refl)
Answer-cases (err t) = inr (t, refl)

persist_artifacts-Kept :
    (a : Answers) (c : Change) (p : Phase) (e : Envelope) (w : Store)
    → Kept w (persist_artifacts_to_memory a c p e w)
unfolding persist_artifacts_to_memory
persist_artifacts-Kept a c p e w = elim (Answer-cases (a.marshal e)) [
  | inr (t, f) ↦
      rw (persist_artifacts_to_memory, f)
        (report_all-Kept a p (text_append "marshal envelope: " t) e.artifacts_saved w)
  | inl (content, f) ↦
      rw (persist_artifacts_to_memory, f) (ingest_all-Kept a c p e content e.artifacts_saved w)
]

usage-Kept :
    (a : Answers) (ids : List ℕ) (s : Envelope.Status) (w : Store)
    → Kept w (update_skill_usage_outcomes a ids s w)
unfolding update_skill_usage_outcomes
usage-Kept a [] s w = Kept-refl w
usage-Kept a (id ∷ ids) s w = elim (Bool-cases (a.works (update_usage id))) [
  | inl e ↦
      let w' = record w { usage = update_outcome id (skill_usage_outcome_for s) w.usage } in
      let here : Kept w w' = record { phases = refl; changes = refl; outbox = refl } in
      rw (update_skill_usage_outcomes, e)
        (Kept-trans w w' (update_skill_usage_outcomes a ids s w') here (usage-Kept a ids s w'))
  | inr e ↦ rw (update_skill_usage_outcomes, e) (usage-Kept a ids s w)
]

advance_if_phases :
    (a : Answers) (c : Change) (q : Phase) (w : Store)
    → (advance_if_allowed a c q w).phases ≡ w.phases
unfolding advance_if_allowed
advance_if_phases a c q w = elim (Bool-cases (advance_allowed q.status)) [
  | inl e ↦ rw (advance_if_allowed, e) (advance_change_phases a c q.p_type w)
  | inr e ↦ rw (advance_if_allowed, e) refl
]

advance_if_changes :
    (a : Answers) (c : Change) (q : Phase) (w : Store)
    → (advance_allowed q.status ≡ true) ⊎ ((advance_if_allowed a c q w).changes ≡ w.changes)
unfolding advance_if_allowed
advance_if_changes a c q w = elim (Bool-cases (advance_allowed q.status)) [
  | inl e ↦ inl e
  | inr e ↦ inr (rw (advance_if_allowed, e) refl)
]

-- What a step does to the two tables after the phase was saved: it keeps the phases, and it changes
-- a change only for a status that advances.
pub record Advances (q : Phase) (w w' : Store) : Type 0 where
  pub phases : w'.phases ≡ w.phases
  pub changes : (advance_allowed q.status ≡ true) ⊎ (w'.changes ≡ w.changes)

or-Kept :
    {P : Type 0} (w w' w'' : Store)
    → P ⊎ (w'.changes ≡ w.changes)
    → Kept w' w''
    → P ⊎ (w''.changes ≡ w.changes)
or-Kept w w' w'' (inl x) k = inl x
or-Kept w w' w'' (inr e) k = inr (k.changes ∙ e)

-- The audit row and the event of the terminal status, after the change was advanced.
pub after_apply-Advances :
    (a : Answers) (c : Change) (q : Phase) (x : Store.Payload) (w : Store)
    → Advances q w (
        publish_event a q.id
          (event_type_for_status q.status)
          x
          (audit_end a c q (advance_if_allowed a c q w)))
after_apply-Advances a c q x w =
    let advanced = advance_if_allowed a c q w in
    let audited = audit_end a c q advanced in
    let told = publish_event a q.id (event_type_for_status q.status) x audited in
    let kept : Kept advanced told =
      Kept-trans advanced audited told
        (audit-Kept a (some c.id) (some q.id) (event_type_for_status q.status) advanced)
        (event-Kept a q.id (event_type_for_status q.status) x audited) in
    record {
      phases = kept.phases ∙ advance_if_phases a c q w;
      changes = or-Kept w advanced told (advance_if_changes a c q w) kept;
    }

pub after_settled-Advances :
    (a : Answers) (c : Change) (usage : List ℕ) (e : Envelope) (q : Phase) (w : Store)
    → Advances q w (after_settled a c usage e q w)
unfolding after_settled
after_settled-Advances a c usage e q w =
    let updated = update_skill_usage_outcomes a usage e.status w in
    let kept = persist_artifacts_to_memory a c q e updated in
    let before : Kept w kept =
      Kept-trans w updated kept (usage-Kept a usage e.status w)
        (persist_artifacts-Kept a c q e updated) in
    let after =
      after_apply-Advances a c q (Store.completed q.p_type a.now e (concerns_of q)) kept in
    record {
      phases = after.phases ∙ before.phases;
      changes = elim after.changes [ inl x ↦ inl x | inr y ↦ inr (y ∙ before.changes) ];
    }
