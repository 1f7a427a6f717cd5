-- ===== src/Phase/Completion.antt =====
-- When `Phase.Complete` accepts an envelope, and with which status the phase ends.
use sophia_orchestrator.Prelude.{ℕ, ltb_ℤ, false, none, some, ◌≡◌, ◌↔◌, arith, eq_iff}
use sophia_orchestrator.Envelope
use sophia_orchestrator.Envelope.{Envelope}
use sophia_orchestrator.Phase.Types.{to_string, confidence_threshold}
use sophia_orchestrator.Phase.Statuses.{PhaseStatus}
use sophia_orchestrator.Phase.{Phase, complete}

-- `complete` accepts an envelope exactly if the phase is running, the envelope names its type, and
-- a claim of DONE reaches the threshold of the type.
pub complete-none_iff :
    (e : Envelope) (now : ℕ) (p : Phase)
    → ((complete (some e) now p).1 ≡ none) ↔ (
        (p.status ≡ PhaseStatus.running)
        × (e.phase ≡ to_string p.p_type)
        × (e.status ≡ Envelope.Status.done
            → ltb_ℤ e.confidence (confidence_threshold p.p_type) ≡ false))
unfolding complete
complete-none_iff e now p = (forth, back)
  where
    forth :
        (complete (some e) now p).1 ≡ none
        → (p.status ≡ PhaseStatus.running)
          × (e.phase ≡ to_string p.p_type)
          × (e.status ≡ Envelope.Status.done
              → ltb_ℤ e.confidence (confidence_threshold p.p_type) ≡ false)
    forth h = ground (arith, eq_iff e.phase (to_string p.p_type))

    back :
        (p.status ≡ PhaseStatus.running)
          × (e.phase ≡ to_string p.p_type)
          × (e.status ≡ Envelope.Status.done
              → ltb_ℤ e.confidence (confidence_threshold p.p_type) ≡ false)
        → (complete (some e) now p).1 ≡ none
    back h = ground (arith, eq_iff e.phase (to_string p.p_type))
