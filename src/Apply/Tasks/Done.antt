-- ===== src/Apply/Tasks/Done.antt =====
-- What the map of outcomes says of the tasks of a group, when every task was let in.
use sophia_orchestrator.Prelude.{
  ℕ, ◌+◌, ◌==◌, ◌≡◌, Bool, true, false, ◌||◌, not, List, [], ◌∷◌, length, All, refl, arith,
  Bool-cases, inl, inr, if◌then◌else◌,
}
use sophia_orchestrator.Apply.Task.{Task}
use sophia_orchestrator.Apply.QuotaBreaker.{Breaker}
use sophia_orchestrator.Apply.Implement.{is_done, run_implement_with_retry}
use sophia_orchestrator.Apply.Implement.Attempts.{Idle}
use sophia_orchestrator.Apply.Implement.Outcome.{implement-Consistent}
use sophia_orchestrator.Apply.Tasks.{
  TaskTurn, Outcomes, TasksRun, put_key, run_task, run_tasks, count_done, had_failure,
}

abbrev pub Fresh : ℕ → Outcomes → Type 0
Fresh k os = All (λ o. (o.0 == k) ≡ false) os

abbrev pub DistinctTasks : List Task → Type 0
DistinctTasks [] = Unit
DistinctTasks (t ∷ ts) = All (λ u. (t.id == u.id) ≡ false) ts × DistinctTasks ts

abbrev pub all_done : List Task → Bool
all_done [] = true
all_done (t ∷ ts) = if is_done t.status then all_done ts else false

abbrev pub one_if : Bool → ℕ
one_if true = 1
one_if false = 0

pub failure-put :
    (k : ℕ) (ok : Bool) (os : Outcomes)
    → Fresh k os
    → had_failure (put_key k ok os) ≡ (had_failure os || not ok)
unfolding had_failure put_key
failure-put k ok [] h = ground arith
failure-put k ok ((x, o) ∷ os) (e, h) =
    rw (put_key, e, had_failure, failure-put k ok os h) (ground arith)

pub count-put :
    (k : ℕ) (ok : Bool) (os : Outcomes)
    → Fresh k os
    → count_done (put_key k ok os) ≡ count_done os + one_if ok
unfolding count_done put_key
count-put k ok [] h = ground arith
count-put k ok ((x, o) ∷ os) (e, h) =
    rw (put_key, e, count_done, count-put k ok os h) (ground arith)

pub put-Fresh :
    (j k : ℕ) (ok : Bool) (os : Outcomes)
    → (k == j) ≡ false
    → Fresh j os
    → Fresh j (put_key k ok os)
unfolding put_key
put-Fresh j k ok [] d h = (d, tt)
put-Fresh j k ok ((x, o) ∷ os) d (e, h) = elim (Bool-cases (x == k)) [
  | inl s ↦ rw (put_key, s) (d, h)
  | inr s ↦ rw (put_key, s) (e, put-Fresh j k ok os d h)
]

puts-Fresh :
    (ts : List Task) (k : ℕ) (ok : Bool) (os : Outcomes)
    → All (λ u. (k == u.id) ≡ false) ts
    → All (λ u. Fresh u.id os) ts
    → All (λ u. Fresh u.id (put_key k ok os)) ts
puts-Fresh [] k ok os d h = tt
puts-Fresh (t ∷ ts) k ok os d h = (put-Fresh t.id k ok os d.0 h.0, puts-Fresh ts k ok os d.1 h.1)

-- The failures and the count after the tasks, from those before.
pub record Counted (os : Outcomes) (r : TasksRun) : Type 0 where
  pub failure : had_failure r.outcomes ≡ (had_failure os || not (all_done r.tasks))
  pub count : all_done r.tasks ≡ true → count_done r.outcomes ≡ count_done os + length r.tasks

or_not_if : (a x y : Bool) → ((a || not x) || not y) ≡ (a || not (if x then y else false))
or_not_if true true y = ground arith
or_not_if true false y = ground arith
or_not_if false true y = refl
or_not_if false false y = ground arith

or_false : (a : Bool) → a ≡ (a || false)
or_false true = refl
or_false false = refl

step-Counted :
    (turn : ℕ → TaskTurn) (t : Task) (ok : Bool) (os : Outcomes) (r : TasksRun) (k : ℕ)
    → Fresh k os
    → ok ≡ is_done t.status
    → Counted (put_key k ok os) r
    → Counted os (record r { tasks = t ∷ r.tasks })
step-Counted turn t ok os r k h e c =
    let f : had_failure r.outcomes ≡ ((had_failure os || not ok) || not (all_done r.tasks)) =
      rw (c.failure, failure-put k ok os h) refl in
    record {
      failure = rw (f, e) (or_not_if (had_failure os) (is_done t.status) (all_done r.tasks));
      count = λ d. elim (Bool-cases (is_done t.status)) [
        | inl s ↦
            let rest : all_done r.tasks ≡ true = rw s at d in
            let one : count_done (put_key k ok os) ≡ count_done os + 1 =
              rw (count-put k ok os h, e, s) refl in
            omega (arith, c.count rest, one)
        | inr s ↦ let no : false ≡ true = rw s at d in absurd (cc)
      ];
    }

pub run_tasks-Counted :
    (turn : ℕ → TaskTurn) (ts : List Task) (b : Breaker) (os : Outcomes)
    → All (λ t. (turn t.id).admitted ≡ true) ts
    → DistinctTasks ts
    → All (λ t. Idle t) ts
    → All (λ t. Fresh t.id os) ts
    → Counted os (run_tasks turn ts b os)
unfolding run_tasks run_task
run_tasks-Counted turn [] b os a d i f = record {
  failure = or_false (had_failure os);
  count = λ h. omega arith;
}
run_tasks-Counted turn (t ∷ ts) b os a d i f =
    let u : TaskTurn = turn t.id in
    let run = run_implement_with_retry u.has_fallback u.claim u.turns t b in
    let step =
      step-Counted turn run.task run.ok os (run_tasks turn ts run.breaker (put_key t.id run.ok os))
        t.id f.0 (implement-Consistent u.has_fallback u.claim u.turns t b i.0).agrees
        (run_tasks-Counted turn ts run.breaker (put_key t.id run.ok os) a.1 d.1 i.1
          (puts-Fresh ts t.id run.ok os d.0 f.1)) in
    rw (run_tasks, run_task, a.0) step

-- Every key is fresh in the empty map.
pub everything_new : (ts : List Task) → All (λ t. Fresh t.id []) ts
everything_new [] = tt
everything_new (t ∷ ts) = (tt, everything_new ts)
