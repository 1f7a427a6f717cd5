-- ===== src/Apply/QuotaBreaker.antt =====
-- internal/application/apply/run.go, quotaBreaker: each method runs under the mutex, so a run of
-- the concurrent tasks is a sequence of calls. `cancels` counts the calls of the cancel function.
pub mod Trips
use sophia_orchestrator.Prelude.{
  ℕ, suc, ◌+◌, leb, Bool, true, false, Option, none, some, if◌then◌else◌,
}

pub record Breaker : Type 0 where
  pub streak : ℕ
  pub threshold : ℕ
  pub tripped : Bool
  pub cancels : ℕ
  -- The last quota error, by its id.
  pub last_quota_err : Option ℕ

unfoldable pub new : ℕ → Breaker
new threshold = record {
  streak = 0;
  threshold = threshold;
  tripped = false;
  cancels = 0;
  last_quota_err = none;
}

unfoldable pub record_quota_outcome : ℕ → Breaker → Breaker × Bool
record_quota_outcome q_err b =
    if b.tripped
    then (b, false)
    else let counted = record b { streak = b.streak + 1; last_quota_err = some q_err } in
      if leb b.threshold counted.streak
      then (record counted { tripped = true; cancels = b.cancels + 1 }, true)
      else (counted, false)

unfoldable pub record_success : Breaker → Breaker
record_success b = record b { streak = 0 }
