-- ===== src/Discipline/Validator/Coercion.antt =====
-- The validator and `Phase.Complete` together.
use sophia_orchestrator.Prelude.{
  ℕ, ltb_ℤ, true, false, Option, none, some, ◌≡◌, refl, sym, ◌∙◌, subst, arith, eq_iff, Bool-cases,
  inl, inr, ◌&&◌,
}
use sophia_orchestrator.Envelope
use sophia_orchestrator.Envelope.{Envelope}
use sophia_orchestrator.Envelope.Validation.{is_done_with_concerns, WellFormed, parse-WellFormed}
use sophia_orchestrator.Phase.{Phase, claims_done, complete}
use sophia_orchestrator.Phase.Completion.{complete-none_iff}
use sophia_orchestrator.Phase.Types
use sophia_orchestrator.Phase.Types.{PhaseType, to_string, confidence_threshold}
use sophia_orchestrator.Phase.Statuses.{PhaseStatus, advance_allowed}
use sophia_orchestrator.Discipline.Validator.{accept, coerce, check_phase, validate}

module _ (t : PhaseType) {e : Envelope} where
  check_phase-accept :
      (r : Envelope.Parsed)
      → check_phase t r ≡ accept e
      → (d : Envelope) × (r ≡ Envelope.ok d) × (d.phase ≡ to_string t) × (e ≡ coerce t d)
  check_phase-accept (Envelope.ok d) h =
      (d, refl, ground (arith, eq_iff d.phase (to_string t)), ground arith)
  check_phase-accept (Envelope.err x) h = absurd (cc)

  module _ {Raw : Type 0} (unmarshal : Raw → Option Envelope) (raw : Raw) where
    validate-accept :
        validate unmarshal raw t ≡ accept e
        → (d : Envelope) × (Envelope.parse unmarshal raw ≡ Envelope.ok d)
          × (d.phase ≡ to_string t)
          × (e ≡ coerce t d)
    unfolding validate
    validate-accept h = check_phase-accept (Envelope.parse unmarshal raw) (ground arith)

coerce_confident :
    (t : PhaseType) (d : Envelope)
    → (coerce t d).status ≡ Envelope.Status.done
    → ltb_ℤ (coerce t d).confidence (confidence_threshold t) ≡ false
unfolding coerce
coerce_confident t d h = ground arith

coerce-phase : (t : PhaseType) (d : Envelope) → (coerce t d).phase ≡ d.phase
unfolding coerce
coerce-phase t d = ground arith

coerce-WellFormed : (t : PhaseType) (d : Envelope) → WellFormed d → WellFormed (coerce t d)
unfolding coerce
coerce-WellFormed t d w =
    elim (Bool-cases (claims_done d.status && ltb_ℤ d.confidence (confidence_threshold t))) [
      | inl low ↦ rw low (record {
        version = w.version;
        phase = w.phase;
        status = is_done_with_concerns;
        confidence = w.confidence;
        change_name = w.change_name;
        project = w.project;
      })
      | inr high ↦ rw high w
    ]

-- What the validator accepts is well-formed, and a running phase of the expected type then
-- completes with it, without an error.
pub validated_completes :
    {Raw : Type 0} (unmarshal : Raw → Option Envelope) (raw : Raw) (now : ℕ) (p : Phase)
    {e : Envelope}
    → validate unmarshal raw p.p_type ≡ accept e
    → p.status ≡ PhaseStatus.running
    → WellFormed e × ((complete (some e) now p).1 ≡ none)
validated_completes unmarshal raw now p {e} h running =
    let (d, parsed, named, is_coerced) = validate-accept p.p_type unmarshal raw h in
    (
      subst WellFormed (sym is_coerced)
          (coerce-WellFormed p.p_type d (parse-WellFormed unmarshal raw parsed).1),
      (complete-none_iff e now p).1 (
        running,
        rw is_coerced (coerce-phase p.p_type d ∙ named),
        rw is_coerced (coerce_confident p.p_type d),
      ),
    )

-- A decoded DONE envelope below the threshold is accepted as DONE_WITH_CONCERNS, and the phase that
-- completes with it has a status for which the change advances to its next phase all the same.
pub coerced_envelope_advances :
    {Raw : Type 0} (unmarshal : Raw → Option Envelope) (raw : Raw) (now : ℕ) (p : Phase)
    (d : Envelope)
    → Envelope.parse unmarshal raw ≡ Envelope.ok d
    → d.phase ≡ to_string p.p_type
    → d.status ≡ Envelope.Status.done
    → ltb_ℤ d.confidence (confidence_threshold p.p_type) ≡ true
    → Types.is_valid p.p_type ≡ true
    → p.status ≡ PhaseStatus.running
    → (validate unmarshal raw p.p_type ≡ accept (coerce p.p_type d))
      × ((complete (some (coerce p.p_type d)) now p).1 ≡ none)
      × ((complete (some (coerce p.p_type d)) now p).0.status ≡ PhaseStatus.done_with_concerns)
      × (advance_allowed (complete (some (coerce p.p_type d)) now p).0.status ≡ true)
unfolding validate coerce complete advance_allowed
coerced_envelope_advances unmarshal raw now p d parsed named claimed low valid running =
    ground (arith, eq_iff d.phase (to_string p.p_type))
