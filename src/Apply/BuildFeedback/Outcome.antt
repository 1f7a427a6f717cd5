-- ===== src/Apply/BuildFeedback/Outcome.antt =====
-- How the build gate ends.
use sophia_orchestrator.Prelude.{
  ℕ, zero, suc, ◌+◌, ◌≤◌, ◌<◌, leb, Bool, true, false, List, [], ◌∷◌, ◌≡◌, ◌≢◌, refl, arith, ap,
  ◌∙◌, subst, sym, Bool-cases, inl, inr, ◌⊎◌,
}
use sophia_orchestrator.Apply.Task.{max_attempts}
use sophia_orchestrator.Apply.Group.{Group, GroupBuildStatus, record_build_attempt, skip_build}
use sophia_orchestrator.Apply.BuildFeedback.{
  Run, ok, group_build_failed, Event, build_started, build_failed, repair_dispatched, prepend,
  build_loop, run_group_build_feedback_loop, found, absent, detection_error, skip_refused,
  Detection,
}

-- A build passed within the budget, and all before it failed.
pub record Passed (builds : ℕ → Bool) (before : Group) (r : Run) : Type 0 where
  pub result : r.result ≡ ok
  pub status : r.group.build_status ≡ GroupBuildStatus.passed
  pub later : before.build_attempts < r.group.build_attempts
  pub within : r.group.build_attempts ≤ max_attempts
  pub passes : builds r.group.build_attempts ≡ true
  pub first : (n : ℕ) → before.build_attempts < n → n < r.group.build_attempts → builds n ≡ false

-- Every build failed, until the budget was spent.
pub record Exhausted (builds : ℕ → Bool) (before : Group) (r : Run) : Type 0 where
  pub result : r.result ≡ group_build_failed
  pub status : r.group.build_status ≡ GroupBuildStatus.failed
  pub later : before.build_attempts < r.group.build_attempts
  pub spent : r.group.build_attempts ≡ max_attempts
  pub all_fail : (n : ℕ) → before.build_attempts < n → n ≤ r.group.build_attempts → builds n ≡ false

here : (builds : ℕ → Bool) (a n : ℕ) → builds (a + 1) ≡ false → a < n → n ≤ a + 1 → builds n ≡ false
here builds a n h lo hi = let same : n ≡ a + 1 = omega arith in ap builds same ∙ h

abbrev failing : Group → Group
failing g = (record_build_attempt false g).0

failing-attempts : (g : Group) → (failing g).build_attempts ≡ g.build_attempts + 1
unfolding record_build_attempt
failing-attempts g = ground arith

pass_step :
    (fuel : ℕ) (builds : ℕ → Bool) (g : Group)
    → g.build_attempts < max_attempts
    → builds (g.build_attempts + 1) ≡ true
    → Passed builds g (build_loop (suc fuel) builds g)
unfolding build_loop record_build_attempt
pass_step fuel builds g room passing = record {
  result = rw passing;
  status = rw passing;
  later = ground arith;
  within = ground arith;
  passes = rw passing passing;
  first = λ n lo hi. ground arith;
}

spent_step :
    (fuel : ℕ) (builds : ℕ → Bool) (g : Group)
    → g.build_attempts + 1 ≡ max_attempts
    → builds (g.build_attempts + 1) ≡ false
    → Exhausted builds g (build_loop (suc fuel) builds g)
unfolding build_loop record_build_attempt
spent_step fuel builds g spent failed = record {
  result = ground arith;
  status = ground arith;
  later = ground arith;
  spent = ground arith;
  all_fail = λ n lo hi. here builds g.build_attempts n failed lo (ground arith);
}

abbrev repair_events : Group → List Event
repair_events g =
    build_started (g.build_attempts + 1)
    ∷ build_failed (g.build_attempts + 1)
    ∷ repair_dispatched
    ∷ []

more_step :
    (fuel : ℕ) (builds : ℕ → Bool) (g : Group)
    → g.build_attempts + 1 < max_attempts
    → builds (g.build_attempts + 1) ≡ false
    → build_loop (suc fuel) builds g
      ≡ prepend (repair_events g) (build_loop fuel builds (failing g))
unfolding build_loop record_build_attempt
more_step fuel builds g more failed = ground arith

module _ (builds : ℕ → Bool) (g : Group) (r : Run) (es : List Event)
    (failed : builds (g.build_attempts + 1) ≡ false) where
  Passed-prepend : Passed builds (failing g) r → Passed builds g (prepend es r)
  Passed-prepend p =
      let one = failing-attempts g in
      record {
        result = p.result;
        status = p.status;
        later = let later = p.later in ground arith;
        within = p.within;
        passes = p.passes;
        first = λ n lo hi. elim (Bool-cases (leb n (g.build_attempts + 1))) [
          | inl low ↦ here builds g.build_attempts n failed lo (ground arith)
          | inr high ↦ p.first n (ground arith) hi
        ];
      }

  Exhausted-prepend : Exhausted builds (failing g) r → Exhausted builds g (prepend es r)
  Exhausted-prepend p =
      let one = failing-attempts g in
      record {
        result = p.result;
        status = p.status;
        later = let later = p.later in ground arith;
        spent = p.spent;
        all_fail = λ n lo hi. elim (Bool-cases (leb n (g.build_attempts + 1))) [
          | inl low ↦ here builds g.build_attempts n failed lo (ground arith)
          | inr high ↦ p.all_fail n (ground arith) hi
        ];
      }

build_loop_ends :
    (fuel : ℕ) (builds : ℕ → Bool) (g : Group)
    → g.build_attempts < max_attempts
    → max_attempts ≤ g.build_attempts + fuel
    → Passed builds g (build_loop fuel builds g) ⊎ Exhausted builds g (build_loop fuel builds g)
build_loop_ends zero builds g room enough = ground arith
build_loop_ends (suc fuel) builds g room enough =
    elim (Bool-cases (builds (g.build_attempts + 1))) [
      | inl passing ↦ inl (pass_step fuel builds g room passing)
      | inr failed ↦ elim (Bool-cases (leb max_attempts (g.build_attempts + 1))) [
        | inl spent ↦ inr (spent_step fuel builds g (ground arith) failed)
        | inr more ↦
            let one = failing-attempts g in
            let ih = build_loop_ends fuel builds (failing g) (ground arith) (ground arith) in
            subst (λ r. Passed builds g r ⊎ Exhausted builds g r)
              (sym (more_step fuel builds g (ground arith) failed))
              (elim ih [
                | inl p ↦ inl (
                    Passed-prepend builds g (build_loop fuel builds (failing g)) (repair_events g)
                      failed p)
                | inr p ↦ inr (
                    Exhausted-prepend builds g (build_loop fuel builds (failing g))
                      (repair_events g) failed p)
              ])
      ]
    ]

-- The gate of a group with a manifest and attempts left ends, with fuel for as many builds: it
-- passes at the first build that exits with 0, if that is within the budget of `max_attempts`, and
-- it fails, with the budget spent, exactly if none of them does.
pub feedback_loop_ends :
    (fuel : ℕ) (builds : ℕ → Bool) (g : Group)
    → g.build_attempts < max_attempts
    → max_attempts ≤ g.build_attempts + fuel
    → Passed builds g (run_group_build_feedback_loop fuel found builds g)
      ⊎ Exhausted builds g (run_group_build_feedback_loop fuel found builds g)
unfolding run_group_build_feedback_loop
feedback_loop_ends fuel builds g room enough = build_loop_ends fuel builds g room enough

-- Without a manifest, or if detection fails, the gate of a group never builds: it skips an
-- ungated group and refuses, without a change, one that is past its gate.
pub no_manifest_skips :
    (fuel : ℕ) (d : Detection) (builds : ℕ → Bool) (g : Group)
    → d ≢ found
    → let r = run_group_build_feedback_loop fuel d builds g in
      (r.group.build_attempts ≡ g.build_attempts)
      × ((r.result ≡ ok)
            × (r.group.build_status ≡ GroupBuildStatus.skipped)
            × (g.build_status ≡ GroupBuildStatus.pending)
          ⊎ (r.result ≡ skip_refused) × (r.group ≡ g))
unfolding run_group_build_feedback_loop skip_build
no_manifest_skips fuel found builds g h = absurd (h refl)
no_manifest_skips fuel absent builds g h = ground arith
no_manifest_skips fuel detection_error builds g h = ground arith
