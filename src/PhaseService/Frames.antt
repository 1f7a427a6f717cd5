-- ===== src/PhaseService/Frames.antt =====
-- What the helpers of the phase service leave alone: the tables of the phases and of the changes,
-- and the outbox.
use sophia_orchestrator.Prelude.{
  ℕ, String, ℤ, List, [], ◌∷◌, Option, none, some, ◌≡◌, refl, arith, Bool-cases, Option-cases, inl,
  inr, ◌∙◌,
}
use sophia_orchestrator.Envelope.{Envelope}
use sophia_orchestrator.Phase.{Phase}
use sophia_orchestrator.Change.{Change}
use sophia_orchestrator.Session.{Session, record_outcome}
use sophia_orchestrator.Store.{Store, Payload}
use sophia_orchestrator.Store.Phases
use sophia_orchestrator.PhaseService.{
  Answers, SkillMatch, Site, append, publish, save_outcome, append_audit, publish_event, save_phase,
}
use sophia_orchestrator.PhaseService.Agent.{close_session, record_usage, note_discarded, discarded}
use sophia_orchestrator.SkillUsage
use sophia_orchestrator.SkillUsage.{insert}
use sophia_orchestrator.Phase.Types.{to_string}

pub record Kept (w w' : Store) : Type 0 where
  pub phases : w'.phases ≡ w.phases
  pub changes : w'.changes ≡ w.changes
  pub outbox : w'.outbox ≡ w.outbox

pub Kept-refl : (w : Store) → Kept w w
Kept-refl w = record { phases = refl; changes = refl; outbox = refl }

pub Kept-trans : (u v w : Store) → Kept u v → Kept v w → Kept u w
Kept-trans u v w h k = record {
  phases = k.phases ∙ h.phases;
  changes = k.changes ∙ h.changes;
  outbox = k.outbox ∙ h.outbox;
}

pub audit-Kept :
    (a : Answers) (c p : Option ℕ) (t : String) (w : Store) → Kept w (append_audit a c p t w)
unfolding append_audit
audit-Kept a c p t w = elim (Bool-cases (a.works (append t))) [
  | inl e ↦ rw (append_audit, e) (record { phases = refl; changes = refl; outbox = refl })
  | inr e ↦ rw (append_audit, e) (Kept-refl w)
]

pub event-Kept :
    (a : Answers) (id : ℕ) (t : String) (x : Payload) (w : Store)
    → Kept w (publish_event a id t x w)
unfolding publish_event
event-Kept a id t x w = elim (Bool-cases (a.works (publish t))) [
  | inl e ↦ rw (publish_event, e) (record { phases = refl; changes = refl; outbox = refl })
  | inr e ↦ rw (publish_event, e) (Kept-refl w)
]

pub note_discarded-Kept {ℓ} :
    {A : Type ℓ} (a : Answers) (c : Change) (p : Phase) (o : Option A) (w : Store)
    → Kept w (note_discarded a c p o w)
unfolding note_discarded discarded
note_discarded-Kept a c p none w = Kept-refl w
note_discarded-Kept a c p (some x) w =
    audit-Kept a (some c.id) (some p.id) "phase.apply.error.discarded" w

pub close_session-Kept :
    (a : Answers) (c : Change) (p : Phase) (e : Option Envelope) (exit : ℤ) (s : Session)
    (w : Store)
    → Kept w (close_session a c p e exit s w)
unfolding close_session
close_session-Kept a c p e exit s w =
    let w' = note_discarded a c p (record_outcome e exit a.now s).1 w in
    let noted : Kept w w' = note_discarded-Kept a c p (record_outcome e exit a.now s).1 w in
    elim (Bool-cases (a.works save_outcome)) [
      | inl h ↦
          rw (close_session, h)
            (record { phases = noted.phases; changes = noted.changes; outbox = noted.outbox })
      | inr h ↦
          rw (close_session, h)
            (Kept-trans w w' (discarded a c p w') noted (note_discarded-Kept a c p (some h) w'))
    ]

pub record_usage-Kept :
    (a : Answers) (c : Change) (p : Phase) (ks : List SkillMatch) (w : Store)
    → Kept w (record_usage a c p ks w).0
unfolding record_usage
record_usage-Kept a c p [] w = Kept-refl w
record_usage-Kept a c p (k ∷ ks) w = elim (Option-cases k.usage_id) [
  | inl e ↦ rw (record_usage, e) (record_usage-Kept a c p ks w)
  | inr (id, e) ↦ elim (Bool-cases k.insert_works) [
    | inr f ↦ rw (record_usage, e, f) (record_usage-Kept a c p ks w)
    | inl f ↦
        let row = SkillUsage.new id c.id (to_string p.p_type) k.skill_id k.version a.now in
        let w' = record w { usage = insert row w.usage } in
        let rest : Kept w' (record_usage a c p ks w').0 = record_usage-Kept a c p ks w' in
        let whole : Kept w (record_usage a c p ks w').0 = record {
          phases = rest.phases;
          changes = rest.changes;
          outbox = rest.outbox;
        } in
        rw (record_usage, e, f) whole
  ]
]

-- What a save at a place leaves in the table.
pub save_phase-rows :
    (a : Answers) (site : Site) (p : Phase) (w : Store) {w' : Store}
    → save_phase a site p w ≡ some w'
    → Phases.save p w.phases ≡ some w'.phases
unfolding save_phase
save_phase-rows a site p w h = ground arith
