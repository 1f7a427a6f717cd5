-- ===== src/PhaseService/Agent/Flow.antt =====
-- What holds after every failure of the phase and after every conclusion holds after every branch
-- of the flow of a single agent, since the steps between leave the tables alone.
use sophia_orchestrator.Prelude.{
  ℕ, String, ℤ, negsuc, ◌&&◌, List, none, some, ◌≡◌, refl, Bool-cases, Option-cases, inl, inr, ◌⊎◌,
  is_nil, length,
}
use sophia_orchestrator.Envelope.{Envelope}
use sophia_orchestrator.Phase.{Phase}
use sophia_orchestrator.Phase.Types.{all_phase_types}
use sophia_orchestrator.Change.{Change}
use sophia_orchestrator.Discipline.Validator
use sophia_orchestrator.Discipline.Validator.{accept, reject, Verdict}
use sophia_orchestrator.Discipline.IronLaw
use sophia_orchestrator.Session
use sophia_orchestrator.Session.{Session, mark_running, role_for}
use sophia_orchestrator.Store.{Store, received, dispatched}
use sophia_orchestrator.PhaseService.{
  Answers, Answer, ok, err, RunPhaseInput, save_session, publish_event, text_append,
}
use sophia_orchestrator.PhaseService.Frames.{
  Kept, Kept-refl, Kept-trans, event-Kept, note_discarded-Kept, close_session-Kept,
  record_usage-Kept,
}
use sophia_orchestrator.PhaseService.Failing.{fail_phase, fail_phase_with_reason}
use sophia_orchestrator.PhaseService.Finish.{conclude}
use sophia_orchestrator.PhaseService.Agent.{
  note_discarded, close_session, detect_tasks_schema_mismatch, is_tasks, schema_text,
  after_envelope, after_dispatch, raw_envelope, dispatch_agent, open_session, run_agent,
  load_prior_phases, preflight, record_usage, store_session,
}

pub Verdict-cases :
    (v : Verdict) → ((e : Envelope) × (v ≡ accept e)) ⊎ ((x : Validator.Error) × (v ≡ reject x))
Verdict-cases (accept e) = inl (e, refl)
Verdict-cases (reject x) = inr (x, refl)

pub Answer-cases :
    {A : Type 0} (x : Answer A) → ((y : A) × (x ≡ ok y)) ⊎ ((t : String) × (x ≡ err t))
Answer-cases (ok y) = inl (y, refl)
Answer-cases (err t) = inr (t, refl)

Created-cases :
    (x : Session.Created)
    → ((s : Session) × (x ≡ Session.ok s)) ⊎ ((y : Session.Error) × (x ≡ Session.err y))
Created-cases (Session.ok s) = inl (s, refl)
Created-cases (Session.err y) = inr (y, refl)

-- The validator accepts the envelope for the phase.
abbrev pub Accepted : Answers → Phase → Envelope → Type 0
Accepted a p e = (raw : String) × (Validator.validate a.unmarshal raw p.p_type ≡ accept e)

module _ (a : Answers) (c : Change) (input : RunPhaseInput) (p : Phase) (w : Store)
    (Good : Store → Type 0)
    (fails : (rule reason : String) (v : Store)
      → Kept w v
      → Good (fail_phase_with_reason a p rule reason v))
    (concludes : (usage : List ℕ) (e : Envelope) (v : Store)
      → Kept w v
      → Accepted a p e
      → Good (conclude a c input.context_overrides usage e p v)) where
  fails_plainly : (reason : String) (v : Store) → Kept w v → Good (fail_phase a p reason v)
  unfolding fail_phase
  fails_plainly reason v k = fails "" reason v k

  after_envelope_good :
      (usage : List ℕ) (s : Session) (exit : ℤ) (e : Envelope) (v : Store)
      → Kept w v
      → Accepted a p e
      → Good (after_envelope a c input usage s exit e p v)
  unfolding after_envelope
  after_envelope_good usage s exit e v k ok_e =
      let closed = close_session a c p (some e) exit s v in
      let kept : Kept w closed =
        Kept-trans w v closed k (close_session-Kept a c p (some e) exit s v) in
      let told = publish_event a p.id "agent.envelope.received" (received e) closed in
      let kept_told : Kept w told =
        Kept-trans w closed told kept
          (event-Kept a p.id "agent.envelope.received" (received e) closed) in
      elim (Bool-cases
        (is_tasks p.p_type && detect_tasks_schema_mismatch a.top_level_keys e.payload)) [
          | inl m ↦ rw (after_envelope, m) (fails "schema_mismatch" schema_text closed kept)
          | inr m ↦ rw (after_envelope, m) (concludes usage e told kept_told ok_e)
        ]

  fails_closed :
      (reason : String) (exit : ℤ) (s : Session) (v : Store)
      → Kept w v
      → Good (fail_phase a p reason (close_session a c p none exit s v))
  fails_closed reason exit s v k = fails_plainly reason (close_session a c p none exit s v) (
      Kept-trans w v (close_session a c p none exit s v) k (close_session-Kept a c p none exit s v))

  after_dispatch_good :
      (usage : List ℕ) (s : Session) (v : Store)
      → Kept w v
      → Good (after_dispatch a c input usage s p v)
  unfolding after_dispatch
  after_dispatch_good usage s v k =
      let freed = note_discarded a c p a.release v in
      let kept : Kept w freed = Kept-trans w v freed k (note_discarded-Kept a c p a.release v) in
      elim (Answer-cases a.dispatch) [
        | inr (t, e) ↦
            rw (after_dispatch, e)
              (fails_closed (text_append "dispatch: " t) (negsuc 0) s freed kept)
        | inl (d, e) ↦
            elim (Verdict-cases (Validator.validate a.unmarshal (raw_envelope a d) p.p_type)) [
              | inr (x, f) ↦
                  rw (after_dispatch, e, f)
                    (fails_closed (text_append "envelope validation: " (a.validation_error_text x))
                      d.exit_code s freed kept)
              | inl (v, f) ↦
                  rw (after_dispatch, e, f)
                    (after_envelope_good usage s d.exit_code v freed kept (raw_envelope a d, f))
            ]
      ]

  dispatch_agent_good :
      (usage : List ℕ) (s : Session) (v : Store)
      → Kept w v
      → Good (dispatch_agent a c input usage s p v)
  unfolding dispatch_agent
  dispatch_agent_good usage s v k =
      let saved = store_session s v in
      let kept : Kept w saved = record {
        phases = k.phases;
        changes = k.changes;
        outbox = k.outbox;
      } in
      let told = publish_event a p.id "agent.dispatched" (dispatched s.id) saved in
      let kept_told : Kept w told =
        Kept-trans w saved told kept
          (event-Kept a p.id "agent.dispatched" (dispatched s.id) saved) in
      elim (Bool-cases (a.works save_session)) [
        | inr g ↦
            rw (dispatch_agent, g)
              (fails_plainly (text_append "save session: " (a.error_text save_session)) v k)
        | inl g ↦ elim (Option-cases a.acquire) [
          | inr (t, e) ↦
              rw (dispatch_agent, g, e)
                (fails_plainly (text_append "spawn governor: " t) told kept_told)
          | inl e ↦ rw (dispatch_agent, g, e) (after_dispatch_good usage s told kept_told)
        ]
      ]

  open_session_good :
      (usage : List ℕ) (prompt : String) (v : Store)
      → Kept w v
      → Good (open_session a c input usage prompt p v)
  unfolding open_session
  open_session_good usage prompt v k = elim (Option-cases a.session_id) [
    | inl e ↦
        rw (open_session, e)
          (fails_plainly (text_append "generate session id: " a.id_error_text) v k)
    | inr (sid, e) ↦
        elim (Created-cases (
          Session.new sid c.id p.id (role_for p.p_type) a.provider (a.hash_prompt prompt)
            "opencode run" a.now)) [
              | inr (x, f) ↦
                  rw (open_session, e, f)
                    (fails_plainly (text_append "new session: " (a.session_error_text x)) v k)
              | inl (s, f) ↦ elim (Option-cases (mark_running s).1) [
                | inr (x, g) ↦
                    rw (open_session, e, f, g)
                      (fails_plainly (text_append "mark session running: " (a.session_error_text x))
                        v k)
                | inl g ↦
                    rw (open_session, e, f, g) (dispatch_agent_good usage (mark_running s).0 v k)
              ]
            ]
  ]

  after_laws_good :
      (usage : List ℕ) (v : Store)
      → Kept w v
      → Good (elim a.prompt [
        | err text ↦ fail_phase a p (text_append "prompt build: " text) v
        | ok prompt ↦ open_session a c input usage prompt p v
      ])
  after_laws_good usage v k = elim (Answer-cases a.prompt) [
    | inr (t, e) ↦ rw e (fails_plainly (text_append "prompt build: " t) v k)
    | inl (prompt, e) ↦ rw e (open_session_good usage prompt v k)
  ]

  pub run_agent_good : Good (run_agent a c input p w)
  unfolding run_agent
  run_agent_good = elim (Answer-cases (load_prior_phases a w c.id all_phase_types)) [
    | inr (t, e) ↦
        rw (run_agent, e) (fails_plainly (text_append "load prior phases: " t) w (Kept-refl w))
    | inl (prior, e) ↦
        let violations = IronLaw.check (preflight p prior) in
        let text = text_append "iron law violations: " (a.count_text (length violations)) in
        elim (Bool-cases (is_nil violations)) [
          | inr f ↦ rw (run_agent, e, f) (fails_plainly text w (Kept-refl w))
          | inl f ↦
              rw (run_agent, e, f)
                (after_laws_good (record_usage a c p a.skills w).1 (record_usage a c p a.skills w).0
                  (record_usage-Kept a c p a.skills w))
        ]
  ]
