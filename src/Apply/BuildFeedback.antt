-- ===== src/Apply/BuildFeedback.antt =====
-- internal/application/apply/build_feedback.go: the build gate of a group. What the build and the
-- detection of a manifest answer is given; a save error is only logged, and a repair only changes
-- what the next build answers.
pub mod Outcome
use sophia_orchestrator.Prelude.{
  ℕ, zero, suc, ◌+◌, Bool, true, false, List, [], ◌∷◌, Option, none, some, ◌++◌, if◌then◌else◌,
}
use sophia_orchestrator.Apply.Group.{
  Group, Error, build_budget_exhausted, record_build_attempt, skip_build,
}

pub data Detection : Type 0 where
  found absent detection_error : Detection

pub data Event : Type 0 where
  worktree_error : Event
  build_started build_passed build_failed : ℕ → Event
  repair_dispatched : Event

pub data Result : Type 0 where
  ok skip_refused group_build_failed out_of_fuel : Result

pub record Run : Type 0 where
  pub group : Group
  pub result : Result
  pub events : List Event

abbrev pub prepend : List Event → Run → Run
prepend es r = record r { events = es ++ r.events }

-- `errors.Is(budgetErr, ErrBuildBudgetExhausted)`
abbrev pub is_exhausted : Option Error → Bool
is_exhausted (some build_budget_exhausted) = true
is_exhausted _ = false

-- `builds n` is whether the build of attempt `n` exits with 0; an execution error is a failed one.
unfoldable pub build_loop : ℕ → (ℕ → Bool) → Group → Run
unfolding record_build_attempt
build_loop zero builds g = record { group = g; result = out_of_fuel; events = [] }
build_loop (suc fuel) builds g =
    let attempt = g.build_attempts + 1 in
    let failed = record_build_attempt false g in
    let rest = build_loop fuel builds failed.0 in
    if builds attempt
    then record {
      group = (record_build_attempt true g).0;
      result = ok;
      events = build_started attempt ∷ build_passed attempt ∷ [];
    }
    else if is_exhausted failed.1
    then record {
      group = failed.0;
      result = group_build_failed;
      events = build_started attempt ∷ build_failed attempt ∷ [];
    }
    else prepend (build_started attempt ∷ build_failed attempt ∷ repair_dispatched ∷ []) rest

-- No manifest: the build is skipped.
abbrev pub without_manifest : Group → Run
without_manifest g =
    let (g', refused) = skip_build g in
    elim refused [
      | some _ ↦ record { group = g'; result = skip_refused; events = [] }
      | none ↦ record { group = g'; result = ok; events = [] }
    ]

unfoldable pub run_group_build_feedback_loop : ℕ → Detection → (ℕ → Bool) → Group → Run
unfolding skip_build
run_group_build_feedback_loop fuel found builds g = build_loop fuel builds g
run_group_build_feedback_loop fuel absent builds g = without_manifest g
run_group_build_feedback_loop fuel detection_error builds g =
    prepend (worktree_error ∷ []) (without_manifest g)
