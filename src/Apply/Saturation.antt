-- ===== src/Apply/Saturation.antt =====
-- internal/application/apply/teamlead.go, acquireWithSaturationRetries: what the governor and the
-- context answer is given for each attempt; durations are in milliseconds.
pub mod Bounds
use sophia_orchestrator.Prelude.{
  ℕ, zero, suc, ◌+◌, ◌*◌, ◌^◌, ltb, Bool, List, [], ◌∷◌, if◌then◌else◌,
}

abbrev pub saturation_retry_budget : ℕ
saturation_retry_budget = 9

abbrev pub max_backoff : ℕ
max_backoff = 30000

unfoldable pub saturation_backoff : ℕ → ℕ
saturation_backoff attempt =
    let d = 500 * 2 ^ attempt in if ltb max_backoff d then max_backoff else d

-- What `Acquire` returns: nil, `ErrSaturated`, or another error.
pub data Acquire : Type 0 where
  granted saturated refused : Acquire

pub data Acquired : Type 0 where
  ok err_saturated err_refused context_done : Acquired

-- The result, and the waits begun.
pub record Attempted : Type 0 where
  pub result : Acquired
  pub waits : List ℕ

abbrev pub after_wait : ℕ → Attempted → Attempted
after_wait d r = record r { waits = d ∷ r.waits }

-- The loop from `attempt` on: after `left` more attempts the last error, `ErrSaturated`, is returned.
unfoldable pub acquire_loop : ℕ → (ℕ → Acquire) → (ℕ → Bool) → ℕ → Attempted
unfolding saturation_backoff
acquire_loop zero answers cancelled attempt = record { result = err_saturated; waits = [] }
acquire_loop (suc left) answers cancelled attempt =
    let rest = acquire_loop left answers cancelled (attempt + 1) in
    let d = saturation_backoff attempt in
    elim (answers attempt) [
      | granted ↦ record { result = ok; waits = [] }
      | refused ↦ record { result = err_refused; waits = [] }
      | saturated ↦
          if cancelled attempt
          then record { result = context_done; waits = d ∷ [] }
          else after_wait d rest
    ]

unfoldable pub acquire_with_saturation_retries : (ℕ → Acquire) → (ℕ → Bool) → Attempted
unfolding acquire_loop
acquire_with_saturation_retries answers cancelled =
    acquire_loop saturation_retry_budget answers cancelled 0
