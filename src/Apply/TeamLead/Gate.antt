-- ===== src/Apply/TeamLead/Gate.antt =====
-- What the build gate leaves alone, and what its success says.
use sophia_orchestrator.Prelude.{
  ℕ, zero, suc, ◌+◌, ◌≡◌, Bool, true, false, ◌∙◌, refl, arith, Bool-cases, inl, inr,
}
use sophia_orchestrator.Apply.Group.{Group, GroupBuildStatus, skip_build, record_build_attempt}
use sophia_orchestrator.Apply.BuildFeedback.{
  Detection, found, absent, detection_error, without_manifest, Run, build_loop, is_exhausted,
  run_group_build_feedback_loop,
}
use sophia_orchestrator.Apply.TeamLead.{is_built}

abbrev pub is_gated : GroupBuildStatus → Bool
is_gated GroupBuildStatus.passed = true
is_gated GroupBuildStatus.skipped = true
is_gated _ = false

pub record Gated (g : Group) (r : Run) : Type 0 where
  pub status : r.group.status ≡ g.status
  pub tasks : r.group.tasks ≡ g.tasks
  pub id : r.group.id ≡ g.id
  pub built : is_built r.result ≡ true → is_gated r.group.build_status ≡ true

attempt_kept_status : (ok : Bool) (g : Group) → (record_build_attempt ok g).0.status ≡ g.status
unfolding record_build_attempt
attempt_kept_status ok g = ground arith

attempt_kept_id : (ok : Bool) (g : Group) → (record_build_attempt ok g).0.id ≡ g.id
unfolding record_build_attempt
attempt_kept_id ok g = ground arith

attempt_kept_tasks : (ok : Bool) (g : Group) → (record_build_attempt ok g).0.tasks ≡ g.tasks
unfolding record_build_attempt
attempt_kept_tasks ok g = ground arith

skipped-Gated : (g : Group) → Gated g (without_manifest g)
unfolding skip_build
skipped-Gated g = record {
  status = ground arith;
  tasks = ground arith;
  id = ground arith;
  built = λ h. ground arith;
}

loop-Gated : (fuel : ℕ) (builds : ℕ → Bool) (g : Group) → Gated g (build_loop fuel builds g)
unfolding build_loop
loop-Gated zero builds g = record {
  status = refl;
  tasks = refl;
  id = refl;
  built = λ h. absurd (cc);
}
loop-Gated (suc fuel) builds g = elim (Bool-cases (builds (g.build_attempts + 1))) [
  | inl p ↦
      rw (build_loop, p, record_build_attempt)
        (record { status = refl; tasks = refl; id = refl; built = λ h. refl })
  | inr p ↦ elim (Bool-cases (is_exhausted (record_build_attempt false g).1)) [
    | inl q ↦
        rw (build_loop, p, q)
          (record {
            status = attempt_kept_status false g;
            tasks = attempt_kept_tasks false g;
            id = attempt_kept_id false g;
            built = λ h. absurd (cc);
          })
    | inr q ↦
        let rest = loop-Gated fuel builds (record_build_attempt false g).0 in
        rw (build_loop, p, q)
          (record {
            status = rest.status ∙ attempt_kept_status false g;
            tasks = rest.tasks ∙ attempt_kept_tasks false g;
            id = rest.id ∙ attempt_kept_id false g;
            built = rest.built;
          })
  ]
]

pub gate-Gated :
    (fuel : ℕ) (d : Detection) (builds : ℕ → Bool) (g : Group)
    → Gated g (run_group_build_feedback_loop fuel d builds g)
unfolding run_group_build_feedback_loop skip_build
gate-Gated fuel found builds g = loop-Gated fuel builds g
gate-Gated fuel absent builds g = skipped-Gated g
gate-Gated fuel detection_error builds g =
    let skipped = skipped-Gated g in
    record {
      status = skipped.status;
      tasks = skipped.tasks;
      id = skipped.id;
      built = skipped.built;
    }
