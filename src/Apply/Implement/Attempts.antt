-- ===== src/Apply/Implement/Attempts.antt =====
-- The attempts of one task, step by step.
use sophia_orchestrator.Prelude.{
  ℕ, zero, suc, ◌+◌, ◌≤◌, Bool, true, false, List, [], ◌∷◌, ◌≡◌, refl, sym, subst, arith,
  Bool-cases, inl, inr,
}
use sophia_orchestrator.Apply.Task
use sophia_orchestrator.Apply.Task.{
  Task, TaskStatus, max_attempts, is_running, claim, already_claimed, release, record_attempt,
}
use sophia_orchestrator.Apply.QuotaBreaker.{Breaker, record_success}
use sophia_orchestrator.Apply.Implement.{
  Dispatch, answered, quota, failed, Turn, Run, Event, fallback_used, governor_error,
  after_dispatch, succeeded, is_success, record_done, fail_fast, quota_path, retry_or_escalate,
  conclude, attempt_loop, is_done, prepend,
}

-- In memory the task is not running, since only its row is claimed.
abbrev pub Idle : Task → Type 0
Idle t = is_running t.status ≡ false

-- `Complete` is refused on an idle task.
after_dispatch-Idle : (d : Dispatch) (t : Task) → Idle t → after_dispatch d t ≡ t
unfolding after_dispatch Task.complete
after_dispatch-Idle (answered e) t h = ground arith
after_dispatch-Idle (quota q) t h = refl
after_dispatch-Idle failed t h = refl

-- What holds of a run on an idle task that is not done: the result is true exactly if the task is
-- done, the attempts are within the bound, and no envelope was stored.
pub record Consistent (left : ℕ) (t : Task) (r : Run) : Type 0 where
  pub agrees : r.ok ≡ is_done r.task.status
  pub bounded : r.task.attempts ≤ t.attempts + left
  pub counted : t.attempts ≤ r.task.attempts
  pub kept : r.task.envelope ≡ t.envelope

pub unchanged :
    (left : ℕ) (t : Task) (b : Breaker) (es : List Event)
    → is_done t.status ≡ false
    → Consistent left t (record { task = t; breaker = b; ok = false; events = es })
unchanged left t b es h = record {
  agrees = sym h;
  bounded = omega arith;
  counted = omega arith;
  kept = refl;
}

record_done-Consistent :
    (left : ℕ) (es : List Event) (t : Task) (b : Breaker)
    → Consistent (suc left) t (record_done es t b)
unfolding record_done record_attempt
record_done-Consistent left es t b = ground arith

fail_fast-Consistent :
    (left q : ℕ) (t : Task) (b : Breaker)
    → is_done t.status ≡ false
    → Consistent left t (fail_fast q t b)
unfolding fail_fast release
fail_fast-Consistent left q t b h = ground arith

retry-Consistent :
    (left : ℕ) (t : Task) (b : Breaker) (rest : Run)
    → Consistent left (record_attempt false t).0 rest
    → Consistent (suc left) t (retry_or_escalate t b rest)
unfolding retry_or_escalate record_attempt
retry-Consistent left t b rest h = ground arith

quota-Consistent :
    (left q : ℕ) (has_fallback : Bool) (d : Dispatch) (t : Task) (b : Breaker)
    → Idle t
    → is_done t.status ≡ false
    → Consistent (suc left) t (quota_path has_fallback q d t b)
unfolding quota_path
quota-Consistent left q false d t b idle h = fail_fast-Consistent (suc left) q t b h
quota-Consistent left q true d t b idle h =
    let same = after_dispatch-Idle d t idle in
    let good = record_done-Consistent left (fallback_used ∷ []) t b in
    let bad = fail_fast-Consistent (suc left) q t b h in
    elim (Bool-cases (succeeded d)) [
      | inl yes' ↦ rw (yes', same, quota_path) good
      | inr no' ↦ rw (no', same, quota_path) bad
    ]

succeeded-Consistent :
    (left : ℕ) (t : Task) (b : Breaker)
    → Consistent (suc left) t (record {
      task = (record_attempt true t).0;
      breaker = record_success b;
      ok = true;
      events = [];
    })
unfolding record_attempt
succeeded-Consistent left t b = ground arith

conclude-Consistent :
    (left : ℕ) (has_fallback : Bool) (turn : Turn) (t : Task) (b : Breaker) (rest : Run)
    → Idle t
    → is_done t.status ≡ false
    → Consistent left (record_attempt false t).0 rest
    → Consistent (suc left) t (conclude has_fallback turn t b rest)
unfolding conclude
conclude-Consistent left has_fallback turn t b rest idle h later = go turn.primary refl
  where
    go :
        (d : Dispatch)
        → turn.primary ≡ d
        → Consistent (suc left) t (conclude has_fallback turn t b rest)
    go (quota q) e =
        let path = quota-Consistent left q has_fallback turn.fallback t b idle h in
        rw (e, conclude) path
    go failed e = let again = retry-Consistent left t b rest later in rw (e, conclude) again
    go (answered v) e = elim (Bool-cases (is_success v.status)) [
      | inl good ↦ let finished = succeeded-Consistent left t b in rw (e, good, conclude) finished
      | inr bad ↦ let again = retry-Consistent left t b rest later in rw (e, bad, conclude) again
    ]

missed-Idle :
    (t : Task)
    → Idle (record_attempt false t).0 × (is_done (record_attempt false t).0.status ≡ false)
unfolding record_attempt
missed-Idle t = ground arith

-- An attempt that gets its slot, on a task that the dispatch leaves as it is.
going_on :
    (left : ℕ) (has_fallback : Bool) (turns : ℕ → Turn) (n : ℕ) (t : Task) (b : Breaker)
    → Idle t
    → (turns n).cancelled ≡ false
    → (turns n).acquired ≡ true
    → attempt_loop (suc left) has_fallback turns n t b
      ≡ conclude has_fallback
          (turns n)
          t
          b
          (attempt_loop left has_fallback turns (n + 1) (record_attempt false t).0 b)
unfolding attempt_loop
going_on left has_fallback turns n t b idle going acquired =
    let same = after_dispatch-Idle (turns n).primary t idle in ground arith

pub prepend-Consistent :
    (left : ℕ) (t : Task) (e : Event) (r : Run)
    → Consistent left t r
    → Consistent left t (prepend e r)
prepend-Consistent left t e r h = record {
  agrees = h.agrees;
  bounded = h.bounded;
  counted = h.counted;
  kept = h.kept;
}

pub attempt_loop-Consistent :
    (left : ℕ) (has_fallback : Bool) (turns : ℕ → Turn) (n : ℕ) (t : Task) (b : Breaker)
    → Idle t
    → is_done t.status ≡ false
    → Consistent left t (attempt_loop left has_fallback turns n t b)
unfolding attempt_loop
attempt_loop-Consistent zero has_fallback turns n t b idle h = unchanged 0 t b [] h
attempt_loop-Consistent (suc left) has_fallback turns n t b idle h =
    elim (Bool-cases (turns n).cancelled) [
      | inl stopped ↦ rw (stopped, attempt_loop) (unchanged (suc left) t b [] h)
      | inr going ↦ elim (Bool-cases (turns n).acquired) [
        | inr refused ↦
            rw (going, refused, attempt_loop) (unchanged (suc left) t b (governor_error ∷ []) h)
        | inl acquired ↦
            let next = missed-Idle t in
            let later =
              attempt_loop-Consistent left has_fallback turns (n + 1) (record_attempt false t).0 b
                next.0 next.1 in
            subst (Consistent (suc left) t)
              (sym (going_on left has_fallback turns n t b idle going acquired))
              (conclude-Consistent left has_fallback (turns n) t b _ idle h later)
      ]
    ]
