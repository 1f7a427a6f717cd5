-- ===== src/Apply/Implement/Outcome.antt =====
-- What a task comes to in its attempts, against what is reported of it.
use sophia_orchestrator.Prelude.{
  ℕ, Bool, true, false, [], ◌∷◌, some, ◌≡◌, refl, sym, arith, Bool-cases, inl, inr,
}
use sophia_orchestrator.Apply.Task.{
  Task, TaskStatus, max_attempts, claim, already_claimed, release, record_attempt,
}
use sophia_orchestrator.Apply.QuotaBreaker.{Breaker}
use sophia_orchestrator.Apply.Implement.{
  quota, failed, Turn, Claim, claimed, session_failed, not_claimed, task_claimed,
  implement_spawn_failed, task_claim_skipped, after_dispatch, fail_fast, quota_path,
  retry_or_escalate, conclude, attempt_loop, is_done, run_implement_with_retry,
}
use sophia_orchestrator.Apply.Implement.Attempts.{
  Idle, Consistent, unchanged, prepend-Consistent, attempt_loop-Consistent,
}

already_done :
    (t : Task) (b : Breaker)
    → is_done t.status ≡ true
    → Consistent max_attempts t (record { task = t; breaker = b; ok = true; events = [] })
already_done t b h = record {
  agrees = sym h;
  bounded = omega arith;
  counted = omega arith;
  kept = refl;
}

not_done_yet :
    (has_fallback : Bool) (claim : Claim) (turns : ℕ → Turn) (t : Task) (b : Breaker)
    → Idle t
    → is_done t.status ≡ false
    → Consistent max_attempts t (run_implement_with_retry has_fallback claim turns t b)
unfolding run_implement_with_retry
not_done_yet has_fallback session_failed turns t b idle h =
    let r = unchanged max_attempts t b (implement_spawn_failed ∷ []) h in
    rw (h, run_implement_with_retry) r
not_done_yet has_fallback not_claimed turns t b idle h =
    let r = unchanged max_attempts t b (task_claim_skipped ∷ []) h in
    rw (h, run_implement_with_retry) r
not_done_yet has_fallback claimed turns t b idle h =
    let r =
      prepend-Consistent max_attempts t task_claimed
        (attempt_loop max_attempts has_fallback turns 0 t b)
        (attempt_loop-Consistent max_attempts has_fallback turns 0 t b idle h) in
    rw (h, run_implement_with_retry) r

-- On a task that is not running in memory the result is true exactly if the task is done in the end.
-- The attempts grow by `max_attempts` at most, and the envelope of the task stays what it was, whatever
-- the agents answer.
pub implement-Consistent :
    (has_fallback : Bool) (claim : Claim) (turns : ℕ → Turn) (t : Task) (b : Breaker)
    → Idle t
    → Consistent max_attempts t (run_implement_with_retry has_fallback claim turns t b)
unfolding run_implement_with_retry
implement-Consistent has_fallback claim turns t b idle = elim (Bool-cases (is_done t.status)) [
  | inl finished ↦ let r = already_done t b finished in rw (finished, run_implement_with_retry) r
  | inr unfinished ↦ not_done_yet has_fallback claim turns t b idle unfinished
]

-- Take a claimed task, pending in memory and without attempts, in a live context with free slots and
-- without a fallback model. If its first dispatch fails and its second runs into the quota of the
-- provider, it is left `failed` and not `pending`, and `Claim` refuses it.
pub quota_after_failure_strands :
    (turns : ℕ → Turn) (t : Task) (b : Breaker) (q sid : ℕ)
    → t.status ≡ TaskStatus.pending
    → t.attempts ≡ 0
    → (turns 0).cancelled ≡ false
    → (turns 0).acquired ≡ true
    → (turns 0).primary ≡ failed
    → (turns 1).cancelled ≡ false
    → (turns 1).acquired ≡ true
    → (turns 1).primary ≡ quota q
    → let r = run_implement_with_retry false claimed turns t b in
      (r.task.status ≡ TaskStatus.failed) × ((claim sid r.task).1 ≡ some already_claimed)
unfolding run_implement_with_retry attempt_loop conclude retry_or_escalate quota_path fail_fast
    release record_attempt after_dispatch claim
quota_after_failure_strands turns t b q sid h1 h2 h3 h4 h5 h6 h7 h8 = ground arith
