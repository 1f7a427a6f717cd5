-- ===== src/Apply/TeamLead/Sound.antt =====
-- What a team lead that reports no failure has delivered.
use sophia_orchestrator.Prelude.{
  ℕ, ◌+◌, ◌≡◌, ◌∙◌, Bool, true, false, not, [], length, All, refl, sym, ap, arith, Bool-cases,
  Option-cases, inl, inr,
}
use sophia_orchestrator.Change.{Change}
use sophia_orchestrator.Session.{Session}
use sophia_orchestrator.Apply.Group.{Group, GroupStatus, start, complete, is_pending}
use sophia_orchestrator.Apply.QuotaBreaker.{Breaker}
use sophia_orchestrator.Apply.BuildFeedback.{run_group_build_feedback_loop}
use sophia_orchestrator.Apply.Implement.Attempts.{Idle}
use sophia_orchestrator.Apply.Tasks.{TasksRun, had_failure, count_done, run_tasks}
use sophia_orchestrator.Apply.Tasks.Done.{
  DistinctTasks, all_done, Counted, run_tasks-Counted, everything_new,
}
use sophia_orchestrator.Apply.TeamLead.{
  Answers, Lead, close_group, settle_group, run_team_lead, is_built, lead_session, is_some,
}
use sophia_orchestrator.Apply.TeamLead.Gate.{is_gated, gate-Gated}

pub record Delivered (l : Lead) : Type 0 where
  pub status : l.group.status ≡ GroupStatus.completed
  pub tasks : all_done l.group.tasks ≡ true
  pub gate : is_gated l.group.build_status ≡ true
  pub count : l.outcome.tasks_done ≡ length l.group.tasks

-- Every task of the group is let in before the context is done, has its own id, and is not running.
pub record Runnable (a : Answers) (g : Group) : Type 0 where
  pub admitted : All (λ t. (a.task_turn t.id).admitted ≡ true) g.tasks
  pub distinct : DistinctTasks g.tasks
  pub idle : All (λ t. Idle t) g.tasks

complete_running :
    (g : Group)
    → g.status ≡ GroupStatus.running
    → (complete g).0 ≡ record g { status = GroupStatus.completed }
unfolding complete
complete_running g h = rw (complete, h) refl

flip_back : (b : Bool) → not b ≡ false → b ≡ true
flip_back true h = refl
flip_back false h = absurd (cc)

built-Delivered :
    (a : Answers) (c : Change) (sess : Session) (g : Group) (run : TasksRun)
    → g.status ≡ GroupStatus.running
    → Counted [] run
    → had_failure run.outcomes ≡ false
    → is_built
        (run_group_build_feedback_loop a.fuel a.detection a.builds
          (record g { tasks = run.tasks })).result
      ≡ true
    → Delivered (close_group a c sess g run)
unfolding close_group count_done
built-Delivered a c sess g run r k p q =
    let before : Group = record g { tasks = run.tasks } in
    let gated = gate-Gated a.fuel a.detection a.builds before in
    let after = run_group_build_feedback_loop a.fuel a.detection a.builds before in
    let closed = complete_running after.group (gated.status ∙ r) in
    let all : all_done run.tasks ≡ true = flip_back (all_done run.tasks) (sym k.failure ∙ p) in
    let n : count_done run.outcomes ≡ 0 + length run.tasks = k.count all in
    rw (close_group, p, settle_group, q, closed)
      (record {
        status = refl;
        tasks = ap all_done gated.tasks ∙ all;
        gate = gated.built q;
        count = omega (arith, n, ap length gated.tasks);
      })

close_group-Delivered :
    (a : Answers) (c : Change) (sess : Session) (g : Group) (run : TasksRun)
    → g.status ≡ GroupStatus.running
    → Counted [] run
    → (close_group a c sess g run).outcome.failed ≡ false
    → Delivered (close_group a c sess g run)
unfolding close_group settle_group
close_group-Delivered a c sess g run r k f =
    let before : Group = record g { tasks = run.tasks } in
    let after = run_group_build_feedback_loop a.fuel a.detection a.builds before in
    elim (Bool-cases (had_failure run.outcomes)) [
      | inl p ↦ let no : true ≡ false = rw (close_group, p) at f in absurd (cc)
      | inr p ↦ elim (Bool-cases (is_built after.result)) [
        | inl q ↦ built-Delivered a c sess g run r k p q
        | inr q ↦ let no : true ≡ false = rw (close_group, p, settle_group, q) at f in absurd (cc)
      ]
    ]

pub started :
    (g : Group)
    → is_some (start g).1 ≡ false
    → (start g).0 ≡ record g { status = GroupStatus.running }
unfolding start
started g h = elim (Bool-cases (is_pending g.status)) [
  | inl p ↦ rw (start, p) refl
  | inr p ↦ let no : true ≡ false = rw (start, p) at h in absurd (cc)
]

-- A team lead that reports no failure, whose tasks were all let in, have ids of their own and are not
-- running in memory, delivers its group: the group is completed, each of its tasks is done, its build
-- passed or was skipped, and the number reported is the number of its tasks.
pub run_team_lead-Delivered :
    (a : Answers) (c : Change) (phase_id : ℕ) (g : Group) (b : Breaker)
    → Runnable a g
    → (run_team_lead a c phase_id g b).outcome.failed ≡ false
    → Delivered (run_team_lead a c phase_id g b)
unfolding run_team_lead
run_team_lead-Delivered a c phase_id g b u f = elim (Bool-cases (is_some (start g).1)) [
  | inl p ↦ let no : true ≡ false = rw (run_team_lead, p) at f in absurd (cc)
  | inr p ↦ elim (Bool-cases a.saves_start) [
    | inr q ↦ let no : true ≡ false = rw (run_team_lead, p, q) at f in absurd (cc)
    | inl q ↦ elim (Option-cases (lead_session a c phase_id (start g).0)) [
      | inl s ↦ let no : true ≡ false = rw (run_team_lead, p, q, s) at f in absurd (cc)
      | inr (sess, s) ↦
          let g' : Group = record g { status = GroupStatus.running } in
          let k =
            run_tasks-Counted a.task_turn g.tasks b [] u.admitted u.distinct u.idle
              (everything_new g.tasks) in
          let f' : (close_group a c sess g' (run_tasks a.task_turn g.tasks b [])).outcome.failed
              ≡ false =
            rw (run_team_lead, p, q, s, started g p) at f in
          let d =
            close_group-Delivered a c sess g' (run_tasks a.task_turn g.tasks b []) refl k f' in
          rw (run_team_lead, p, q, s, started g p) d
    ]
  ]
]
