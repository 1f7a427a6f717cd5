-- ===== src/Apply/QuotaBreaker/Trips.antt =====
-- The breaker over any order of the tasks' outcomes.
use sophia_orchestrator.Prelude.{
  ℕ, zero, suc, ◌+◌, ◌≤◌, ◌<◌, Bool, true, false, ◌||◌, List, [], ◌∷◌, some, ◌≡◌, refl, subst, ◌∙◌,
  arith, if◌then◌else◌,
}
use sophia_orchestrator.Apply.QuotaBreaker.{Breaker, new, record_quota_outcome, record_success}

pub data Outcome : Type 0 where
  quota : ℕ → Outcome
  success : Outcome

-- The outcomes in the order of completion, with how often a caller was told that it tripped.
unfoldable pub run : List Outcome → Breaker → Breaker × ℕ
run [] b = (b, 0)
run (quota e ∷ os) b =
    let (b', told) = record_quota_outcome e b in
    let (b'', n) = run os b' in (b'', if told then suc n else n)
run (success ∷ os) b = run os (record_success b)

-- The first `n` outcomes are quota outcomes.
unfoldable pub starts : ℕ → List Outcome → Bool
starts zero os = true
starts (suc n) (quota _ ∷ os) = starts n os
starts (suc n) _ = false

-- Somewhere, `n` quota outcomes follow each other without a success between them.
unfoldable pub has_streak : ℕ → List Outcome → Bool
has_streak n [] = starts n []
has_streak n (o ∷ os) = starts n (o ∷ os) || has_streak n os

starts-less : (m n : ℕ) (os : List Outcome) → m ≤ n → starts n os ≡ true → starts m os ≡ true
unfolding starts
starts-less zero n os le h = refl
starts-less (suc m) zero os le h = ground arith
starts-less (suc m) (suc n) [] le h = h
starts-less (suc m) (suc n) (quota _ ∷ os) le h = starts-less m n os (omega arith) h
starts-less (suc m) (suc n) (success ∷ os) le h = h

starts-has_streak : (n : ℕ) (os : List Outcome) → starts n os ≡ true → has_streak n os ≡ true
unfolding has_streak
starts-has_streak n [] h = h
starts-has_streak n (o ∷ os) h = rw h

run-tripped :
    (os : List Outcome) (b : Breaker)
    → b.tripped ≡ true
    → ((run os b).0.tripped ≡ true) × ((run os b).1 ≡ 0) × ((run os b).0.cancels ≡ b.cancels)
unfolding run record_quota_outcome record_success
run-tripped [] b h = (h, refl, refl)
run-tripped (quota e ∷ os) b h = let ih = run-tripped os b h in ground arith
run-tripped (success ∷ os) b h = run-tripped os (record b { streak = 0 }) h

-- What the rest of the outcomes makes of a breaker that lacks `left` quota outcomes.
unfoldable due : ℕ → ℕ → List Outcome → Bool
due threshold left os = starts left os || has_streak threshold os

due-success :
    (threshold left : ℕ) (os : List Outcome)
    → 0 < left
    → 0 < threshold
    → due threshold left (success ∷ os) ≡ due threshold threshold os
unfolding due has_streak starts
due-success (suc t) (suc l) os h p = let both = starts-has_streak (suc t) os in ground arith
due-success zero l os h p = ground arith
due-success (suc t) zero os h p = ground arith

due-quota :
    (threshold left e : ℕ) (os : List Outcome)
    → suc left ≤ threshold
    → due threshold (suc left) (quota e ∷ os) ≡ due threshold left os
unfolding due has_streak starts
due-quota (suc t) left e os h = let less = starts-less left t os (omega arith) in ground arith
due-quota zero left e os h = ground arith

due-zero : (threshold : ℕ) (os : List Outcome) → due threshold 0 os ≡ true
unfolding due starts
due-zero threshold os = refl

abbrev Trips : Bool → Breaker × ℕ → Type 0
Trips d r = (r.0.tripped ≡ d) × (r.1 ≡ (if d then 1 else 0)) × (r.0.cancels ≡ (if d then 1 else 0))

due_all : (threshold : ℕ) (os : List Outcome) → due threshold threshold os ≡ has_streak threshold os
unfolding due
due_all threshold os = let found = starts-has_streak threshold os in ground arith

due-nil : (threshold left : ℕ) → 0 < left → 0 < threshold → due threshold left [] ≡ false
unfolding due has_streak starts
due-nil zero left h p = ground arith
due-nil (suc t) zero h p = ground arith
due-nil (suc t) (suc l) h p = refl

tripping :
    (e : ℕ) (b : Breaker)
    → b.tripped ≡ false
    → b.cancels ≡ 0
    → b.threshold ≤ b.streak + 1
    → ((record_quota_outcome e b).1 ≡ true)
      × ((record_quota_outcome e b).0.tripped ≡ true)
      × ((record_quota_outcome e b).0.cancels ≡ 1)
unfolding record_quota_outcome
tripping e b armed none_yet full = ground arith

abbrev counted : ℕ → Breaker → Breaker
counted e b = record b { streak = b.streak + 1; last_quota_err = some e }

counting :
    (e : ℕ) (b : Breaker)
    → b.tripped ≡ false
    → b.streak + 1 < b.threshold
    → record_quota_outcome e b ≡ (counted e b, false)
unfolding record_quota_outcome
counting e b armed room = ground arith

run-armed :
    (os : List Outcome) (b : Breaker) (left : ℕ)
    → b.tripped ≡ false
    → b.cancels ≡ 0
    → 0 < left
    → left + b.streak ≡ b.threshold
    → Trips (due b.threshold left os) (run os b)
unfolding run record_quota_outcome record_success
run-armed [] b left armed none_yet some_left sum =
    rw (due-nil b.threshold left some_left (omega arith)) (armed, refl, none_yet)
run-armed (success ∷ os) b left armed none_yet some_left sum =
    let ih =
      run-armed os (record b { streak = 0 }) b.threshold armed none_yet (omega arith)
        (omega arith) in
    let same = due-success b.threshold left os some_left (omega arith) in rw same ih
run-armed (quota e ∷ os) b zero armed none_yet some_left sum = ground arith
run-armed (quota e ∷ os) b (suc zero) armed none_yet some_left sum =
    let step = tripping e b armed none_yet (omega arith) in
    let rest = run-tripped os (record_quota_outcome e b).0 step.1 in
    let met = due-quota b.threshold 0 e os (omega arith) ∙ due-zero b.threshold os in
    rw (met, step.0) (rest.0, omega (arith, rest.1), rest.2 ∙ step.2)
run-armed (quota e ∷ os) b (suc (suc left)) armed none_yet some_left sum =
    let ih = run-armed os (counted e b) (suc left) armed none_yet (omega arith) (omega arith) in
    rw (due-quota b.threshold (suc left) e os (omega arith), counting e b armed (omega arith)) ih

-- Over the outcomes of the tasks in any order, a new breaker with a positive threshold trips exactly
-- if as many quota outcomes as the threshold follow each other without a success between them. The
-- context is cancelled once and one caller is told so if it trips, and else none.
pub breaker_trips :
    (threshold : ℕ) (os : List Outcome)
    → 0 < threshold
    → let r = run os (new threshold) in
      let d = has_streak threshold os in
      (r.0.tripped ≡ d) × (r.1 ≡ (if d then 1 else 0)) × (r.0.cancels ≡ (if d then 1 else 0))
unfolding new
breaker_trips threshold os h =
    let same : due threshold threshold os ≡ has_streak threshold os = due_all threshold os in
    subst (λ d. Trips d (run os (new threshold))) same
      (run-armed os (new threshold) threshold refl refl h (omega arith))
