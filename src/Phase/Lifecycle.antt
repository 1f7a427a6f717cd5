-- ===== src/Phase/Lifecycle.antt =====
-- The phase's state machine over any sequence of calls: budget, accepted envelopes, final states.
use sophia_orchestrator.Prelude.{
  ℕ, zero, suc, ◌+◌, ◌≤◌, ◌<◌, ℤ, ltb_ℤ, Bool, true, false, List, [], ◌∷◌, Option, none, some, ◌≡◌,
  ◌&&◌, not, refl, ap, ◌∙◌, pos, negsuc, arith, str_eq,
}
use sophia_orchestrator.Envelope.{Envelope}
use sophia_orchestrator.Phase.Types.{PhaseType, to_string, confidence_threshold}
use sophia_orchestrator.Phase.Statuses.{PhaseStatus, advance_allowed}
use sophia_orchestrator.Phase.{
  Phase, Concern, Error, ok, claims_done, new, set_concerns, start, complete, mark_interrupted,
  restart,
}

pub data Call : Type 0 where
  starts : ℕ → Call
  completes : Option Envelope → ℕ → Call
  interrupts : Call
  restarts : ℕ → Call
  sets_concerns : List Concern → Call

unfoldable pub step : Call → Phase → Phase × Option Error
unfolding start complete mark_interrupted restart set_concerns
step (starts now) p = start now p
step (completes e now) p = complete e now p
step interrupts p = mark_interrupted p
step (restarts now) p = restart now p
step (sets_concerns cs) p = (set_concerns cs p, none)

unfoldable pub run : List Call → Phase → Phase
run [] p = p
run (c ∷ cs) p = run cs (step c p).0

-- An envelope that a phase of type `t` may be DONE with: it names the phase, it claims DONE, and
-- its confidence reaches the threshold.
abbrev pub accepts : PhaseType → Option Envelope → Bool
unfolding confidence_threshold
accepts t none = false
accepts t (some e) =
    str_eq e.phase (to_string t)
    && claims_done e.status
    && not (ltb_ℤ e.confidence (confidence_threshold t))

-- The confidence that the getter reports: the envelope's, or 0.
abbrev pub recorded : Option Envelope → ℤ
recorded none = pos 0
recorded (some e) = e.confidence

pub record Inv (p : Phase) : Type 0 where
  pub budget : 0 < p.retry_budget
  pub within : p.attempts ≤ p.retry_budget
  pub accepted : p.status ≡ PhaseStatus.done → accepts p.p_type p.envelope ≡ true
  pub confidence : p.confidence ≡ recorded p.envelope

pub new-Inv :
    (id change_id : ℕ) (t : PhaseType) (b : ℤ) {p : Phase} → new id change_id t b ≡ ok p → Inv p
unfolding new
new-Inv id change_id t (pos zero) h = ground arith
new-Inv id change_id t (pos (suc n)) h = ground arith
new-Inv id change_id t (negsuc n) h = ground arith

pub start-Inv : (now : ℕ) (p : Phase) → Inv p → Inv (start now p).0
unfolding start
start-Inv now p v = ground arith

pub restart-Inv : (now : ℕ) (p : Phase) → Inv p → Inv (restart now p).0
unfolding restart
restart-Inv now p v = ground arith

pub interrupt-Inv : (p : Phase) → Inv p → Inv (mark_interrupted p).0
unfolding mark_interrupted
interrupt-Inv p v = ground arith

pub complete-Inv : (e : Option Envelope) (now : ℕ) (p : Phase) → Inv p → Inv (complete e now p).0
unfolding complete
complete-Inv none now p v = ground arith
complete-Inv (some e) now p v = ground arith

-- An error leaves the phase as it was.
pub step_error_unchanged :
    (c : Call) (p : Phase) {x : Error} → (step c p).1 ≡ some x → (step c p).0 ≡ p
unfolding step
step_error_unchanged (starts now) p h = ground arith
step_error_unchanged (completes none now) p h = ground arith
step_error_unchanged (completes (some e) now) p h = ground arith
step_error_unchanged interrupts p h = ground arith
step_error_unchanged (restarts now) p h = ground arith
step_error_unchanged (sets_concerns cs) p h = ground arith

step-Inv : (c : Call) (p : Phase) → Inv p → Inv (step c p).0
unfolding step
step-Inv (starts now) p v = start-Inv now p v
step-Inv (completes e now) p v = complete-Inv e now p v
step-Inv interrupts p v = interrupt-Inv p v
step-Inv (restarts now) p v = restart-Inv now p v
step-Inv (sets_concerns cs) p v = ground arith

pub run-Inv : (cs : List Call) (p : Phase) → Inv p → Inv (run cs p)
unfolding run
run-Inv [] p v = v
run-Inv (c ∷ cs) p v = run-Inv cs (step c p).0 (step-Inv c p v)

-- After any sequence of calls on a new phase, errors included: the attempts are within the
-- budget, a phase that is DONE holds an envelope that names it, claims DONE and reaches the
-- threshold, and the recorded confidence is the envelope's.
pub new-run-Inv :
    (id change_id : ℕ) (t : PhaseType) (b : ℤ) (cs : List Call) {p : Phase}
    → new id change_id t b ≡ ok p
    → Inv (run cs p)
new-run-Inv id change_id t b cs {p} h = run-Inv cs p (new-Inv id change_id t b h)

-- 1 for a call that enters the running state.
abbrev enters : Call → Phase → ℕ
unfolding step
enters (starts now) p = elim (step (starts now) p).1 [ none ↦ 1 | some _ ↦ 0 ]
enters (restarts now) p = elim (step (restarts now) p).1 [ none ↦ 1 | some _ ↦ 0 ]
enters _ p = 0

-- How often a sequence of calls enters the running state.
unfoldable pub entries : List Call → Phase → ℕ
unfolding step
entries [] p = 0
entries (c ∷ cs) p = enters c p + entries cs (step c p).0

attempts-step : (c : Call) (p : Phase) → (step c p).0.attempts ≡ p.attempts + enters c p
unfolding step
attempts-step (starts now) p = ground arith
attempts-step (completes none now) p = ground arith
attempts-step (completes (some e) now) p = ground arith
attempts-step interrupts p = ground arith
attempts-step (restarts now) p = ground arith
attempts-step (sets_concerns cs) p = ground arith

budget-step : (c : Call) (p : Phase) → (step c p).0.retry_budget ≡ p.retry_budget
unfolding step
budget-step (starts now) p = ground arith
budget-step (completes none now) p = ground arith
budget-step (completes (some e) now) p = ground arith
budget-step interrupts p = ground arith
budget-step (restarts now) p = ground arith
budget-step (sets_concerns cs) p = ground arith

attempts-run : (cs : List Call) (p : Phase) → (run cs p).attempts ≡ p.attempts + entries cs p
unfolding run entries
attempts-run [] p = omega arith
attempts-run (c ∷ cs) p = omega (arith, attempts-run cs (step c p).0, attempts-step c p)

budget-run : (cs : List Call) (p : Phase) → (run cs p).retry_budget ≡ p.retry_budget
unfolding run
budget-run [] p = refl
budget-run (c ∷ cs) p = budget-run cs (step c p).0 ∙ budget-step c p

-- The retry budget bounds the real number of runs: from a phase that meets the invariant, a
-- sequence of calls enters the running state at most `retry_budget - attempts` times.
pub entries_bounded :
    (cs : List Call) (p : Phase) → Inv p → p.attempts + entries cs p ≤ p.retry_budget
entries_bounded cs p v = omega (arith, attempts-run cs p, budget-run cs p, (run-Inv cs p v).within)

final-step :
    (c : Call) (p : Phase)
    → advance_allowed p.status ≡ true
    → ((step c p).0.status ≡ p.status) × ((step c p).0.envelope ≡ p.envelope)
unfolding step advance_allowed
final-step (starts now) p h = ground arith
final-step (completes e now) p h = ground arith
final-step interrupts p h = ground arith
final-step (restarts now) p h = ground arith
final-step (sets_concerns cs) p h = ground arith

-- A phase that finished with a status that advances the change keeps that status and its envelope
-- under every later sequence of calls.
pub final_absorbs :
    (cs : List Call) (p : Phase)
    → advance_allowed p.status ≡ true
    → ((run cs p).status ≡ p.status) × ((run cs p).envelope ≡ p.envelope)
unfolding run
final_absorbs [] p h = (refl, refl)
final_absorbs (c ∷ cs) p h =
    let (same_status, same_envelope) = final-step c p h in
    let (s, e) = final_absorbs cs (step c p).0 (ap advance_allowed same_status ∙ h) in
    (s ∙ same_status, e ∙ same_envelope)
