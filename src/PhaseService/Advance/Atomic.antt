-- ===== src/PhaseService/Advance/Atomic.antt =====
-- The change and its outbox row after the archive phase: both are written, or neither is.
use sophia_orchestrator.Prelude.{
  ℕ, true, List, ◌∷◌, sym, subst, Option, none, some, ◌≡◌, refl, arith, Bool-cases, Option-cases,
  inl, inr, ◌⊎◌, ◌∙◌,
}
use sophia_orchestrator.Phase.Types.{PhaseType}
use sophia_orchestrator.Change
use sophia_orchestrator.Change.{Change, advance_phase, mark_completed}
use sophia_orchestrator.Outbox
use sophia_orchestrator.Store.{Store, archived}
use sophia_orchestrator.Store.Changes
use sophia_orchestrator.Store.Changes.{has_outbox_id}
use sophia_orchestrator.Store.Read.{Row, save-Row}
use sophia_orchestrator.PhaseService.{Answers, enqueue}
use sophia_orchestrator.PhaseService.Frames.{Kept, event-Kept}
use sophia_orchestrator.PhaseService.Advance.{
  enqueue_completed, save_completed_change, archive_phase_id, announce_archived, complete_change,
  advance_change,
}

-- The change as it is written: only its status, its phase and the time of the update are new.
abbrev pub archived_change : Answers → Change → Change
archived_change a c = record c {
  status = Change.Status.completed;
  current_phase = PhaseType.archive;
  updated_at = a.now;
}

-- The event as it is written: it waits for its first delivery.
abbrev pub archived_event : Answers → ℕ → List ℕ → Outbox.Event
archived_event a id body = record {
  id = id;
  event_type = "phase.archived";
  payload = body;
  status = Outbox.Status.pending;
  attempts = 0;
  next_attempt_at = a.now;
  created_at = a.now;
  delivered_at = none;
}

-- The two tables after the completion of `c`: its row, and one new pending event, whose payload is
-- that of `c`, under the id that was minted for it.
pub record Completed (a : Answers) (c : Change) (w w' : Store) : Type 0 where
  pub event_id : ℕ
  pub body : List ℕ
  pub minted : a.outbox_id ≡ some event_id
  pub marshalled : a.archived_body c.id c.name a.now ≡ some body
  pub saved : Changes.save (archived_change a c) w.changes ≡ some w'.changes
  pub read_back : Row c.id Change.Status.completed PhaseType.archive w'.changes
  pub enqueued : w'.outbox ≡ archived_event a event_id body ∷ w.outbox

abbrev pub Untouched : Store → Store → Type 0
Untouched w w' = (w'.changes ≡ w.changes) × (w'.outbox ≡ w.outbox)

abbrev After : Answers → Change → Store → Option Store → Type 0
After a c w none = Unit
After a c w (some w') = Completed a c w w'

-- `c'` is the change in memory, advanced and marked.
enqueue-After :
    (a : Answers) (c : Change) (w : Store)
    → After a c w (enqueue_completed a (archived_change a c) w)
unfolding enqueue_completed Changes.save_completed_with_outbox Outbox.new
enqueue-After a c w =
    let c' : Change = archived_change a c in
    elim (Option-cases (a.archived_body c.id c.name a.now)) [
      | inl e ↦ rw (enqueue_completed, e) tt
      | inr (body, e) ↦ elim (Option-cases a.outbox_id) [
        | inl f ↦ rw (enqueue_completed, e, f) tt
        | inr (id, f) ↦ elim (Bool-cases (a.works enqueue)) [
          | inr g ↦ rw (enqueue_completed, e, f, g) tt
          | inl g ↦ elim (Option-cases (Changes.save c' w.changes)) [
            | inl h ↦ rw (enqueue_completed, e, f, g, Changes.save_completed_with_outbox, h) tt
            | inr (rows, h) ↦ elim (Bool-cases (has_outbox_id id w.outbox)) [
              | inl k ↦ rw (enqueue_completed, e, f, g, Changes.save_completed_with_outbox, h, k) tt
              | inr k ↦
                  let done : Completed a c w
                      (record w { changes = rows; outbox = archived_event a id body ∷ w.outbox }) =
                    record {
                      event_id = id;
                      body = body;
                      minted = f;
                      marshalled = e;
                      saved = h;
                      read_back = save-Row c' w.changes rows h;
                      enqueued = refl;
                    } in
                  let made : enqueue_completed a c' w
                      ≡ some (record w {
                        changes = rows;
                        outbox = archived_event a id body ∷ w.outbox;
                      }) =
                    rw (enqueue_completed, e, f, g, Changes.save_completed_with_outbox, h, k)
                      refl in
                  subst (λ x. After a c w x) (sym made) done
            ]
          ]
        ]
      ]
    ]

announce-Completed :
    (a : Answers) (c c' : Change) (w w' : Store)
    → Completed a c w w'
    → Completed a c w (announce_archived a c' w')
announce-Completed a c c' w w' d =
    let kept : Kept w' (announce_archived a c' w') =
      event-Kept a (archive_phase_id a c'.id w') "phase.archived" (archived c'.id c'.name a.now)
        w' in
    record {
      event_id = d.event_id;
      body = d.body;
      minted = d.minted;
      marshalled = d.marshalled;
      saved = rw kept.changes d.saved;
      read_back =
          subst (λ x. Row c.id Change.Status.completed PhaseType.archive x) (sym kept.changes)
            d.read_back;
      enqueued = kept.outbox ∙ d.enqueued;
    }

advanced :
    (now : ℕ) (c : Change)
    → (advance_phase PhaseType.archive now c).1 ≡ none
    → (advance_phase PhaseType.archive now c).0
      ≡ record c { current_phase = PhaseType.archive; updated_at = now }
unfolding advance_phase
advanced now c h = ground arith

marked :
    (now : ℕ) (c : Change)
    → (mark_completed now c).1 ≡ none
    → (mark_completed now c).0 ≡ record c { status = Change.Status.completed; updated_at = now }
unfolding mark_completed
marked now c h = ground arith

-- The change in memory stands at the archive phase, and is not marked yet.
abbrev at_archive : Answers → Change → Change
at_archive a c = record c { current_phase = PhaseType.archive; updated_at = a.now }

complete_change_atomic :
    (a : Answers) (c : Change) (w : Store)
    → a.outbox_wired ≡ true
    → Untouched w (complete_change a (at_archive a c) w)
      ⊎ Completed a c w (complete_change a (at_archive a c) w)
unfolding complete_change save_completed_change
complete_change_atomic a c w o = elim (Option-cases (mark_completed a.now (at_archive a c)).1) [
  | inr (x, e) ↦ inl (rw (complete_change, e) (refl, refl))
  | inl e ↦
      let m : (mark_completed a.now (at_archive a c)).0 ≡ archived_change a c =
        marked a.now (at_archive a c) e in
      let after : After a c w (enqueue_completed a (mark_completed a.now (at_archive a c)).0 w) =
        subst (λ x. After a c w (enqueue_completed a x w)) (sym m) (enqueue-After a c w) in
      let c' = (mark_completed a.now (at_archive a c)).0 in
      elim (Option-cases (enqueue_completed a c' w)) [
        | inl f ↦ inl (rw (complete_change, e, save_completed_change, o, f) (refl, refl))
        | inr (w', f) ↦
            let done : Completed a c w w' = rw f at after in
            let made : complete_change a (at_archive a c) w ≡ announce_archived a c' w' =
              rw (complete_change, e, save_completed_change, o, f) refl in
            inr (subst (λ x. Completed a c w x) (sym made) (announce-Completed a c c' w w' done))
      ]
]

-- After the archive phase, with the outbox wired, and whatever fails: the tables of the changes and
-- of the outbox are as before, or both are written. The row of the change, read by its id, is then
-- completed and at the archive phase, as the save of the change with only its status, its phase and
-- the time of its update renewed leaves it; and the outbox has exactly one new event, pending, under
-- the id that was minted, with the payload made from the id and the name of the change and the time.
pub advance_change_atomic :
    (a : Answers) (c : Change) (w : Store)
    → a.outbox_wired ≡ true
    → Untouched w (advance_change a c PhaseType.archive w)
      ⊎ Completed a c w (advance_change a c PhaseType.archive w)
unfolding advance_change
advance_change_atomic a c w o = elim (Option-cases (advance_phase PhaseType.archive a.now c).1) [
  | inr (x, e) ↦ inl (rw (advance_change, e) (refl, refl))
  | inl e ↦ rw (advance_change, e, advanced a.now c e) (complete_change_atomic a c w o)
]
