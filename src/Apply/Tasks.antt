-- ===== src/Apply/Tasks.antt =====
-- internal/application/apply/teamlead.go, runTeamLead: the goroutines of the tasks of one group. They
-- share the breaker and the map of outcomes, and stand here in the order of the group; what each
-- meets is given by the id of its task.
pub mod Done
use sophia_orchestrator.Prelude.{
  ℕ, zero, suc, ◌==◌, Bool, true, false, ◌||◌, not, List, [], ◌∷◌, Option, none, some,
  if◌then◌else◌,
}
use sophia_orchestrator.Apply.Task.{Task}
use sophia_orchestrator.Apply.QuotaBreaker.{Breaker}
use sophia_orchestrator.Apply.Implement.{Claim, Turn, run_implement_with_retry}

-- What the goroutine of one task meets.
pub record TaskTurn : Type 0 where
  -- The semaphore admits it before the context is done.
  pub admitted : Bool
  pub has_fallback : Bool
  pub claim : Claim
  pub turns : ℕ → Turn

module _ {ℓ} {A : Type ℓ} where
  -- A map from ids.
  unfoldable pub put_key : ℕ → A → List (ℕ × A) → List (ℕ × A)
  put_key k a [] = (k, a) ∷ []
  put_key k a ((x, b) ∷ m) =
      let rest = put_key k a m in if x == k then (k, a) ∷ m else (x, b) ∷ rest

  unfoldable pub lookup : ℕ → List (ℕ × A) → Option A
  lookup k [] = none
  lookup k ((x, b) ∷ m) = let rest = lookup k m in if x == k then some b else rest

-- The map `taskOutcomes`.
abbrev pub Outcomes : Type 0
Outcomes = List (ℕ × Bool)

pub record TasksRun : Type 0 where
  pub tasks : List Task
  pub breaker : Breaker
  pub outcomes : Outcomes

-- One task: the task after it, the breaker, and what is written into the map.
unfoldable pub run_task : TaskTurn → Task → Breaker → Outcomes → Task × Breaker × Outcomes
unfolding run_implement_with_retry put_key
run_task turn t b os =
    let run = run_implement_with_retry turn.has_fallback turn.claim turn.turns t b in
    if turn.admitted then (run.task, run.breaker, put_key t.id run.ok os) else (t, b, os)

unfoldable pub run_tasks : (ℕ → TaskTurn) → List Task → Breaker → Outcomes → TasksRun
unfolding run_task
run_tasks turn [] b os = record { tasks = []; breaker = b; outcomes = os }
run_tasks turn (t ∷ ts) b os =
    let (t', b', os') = run_task (turn t.id) t b os in
    let rest = run_tasks turn ts b' os' in record rest { tasks = t' ∷ rest.tasks }

unfoldable pub count_done : Outcomes → ℕ
count_done [] = 0
count_done ((_, ok) ∷ os) = let rest = count_done os in if ok then suc rest else rest

unfoldable pub had_failure : Outcomes → Bool
had_failure [] = false
had_failure ((_, ok) ∷ os) = not ok || had_failure os
