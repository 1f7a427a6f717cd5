-- ===== src/Apply/TeamLead/Named.antt =====
-- A team lead keeps the id of its group.
use sophia_orchestrator.Prelude.{
  ℕ, ◌≡◌, ◌∙◌, Bool, true, false, [], arith, Bool-cases, Option-cases, inl, inr,
}
use sophia_orchestrator.Change.{Change}
use sophia_orchestrator.Session.{Session}
use sophia_orchestrator.Apply.Group.{Group, start, complete, fail}
use sophia_orchestrator.Apply.QuotaBreaker.{Breaker}
use sophia_orchestrator.Apply.BuildFeedback.{run_group_build_feedback_loop}
use sophia_orchestrator.Apply.Tasks.{TasksRun, run_tasks, had_failure}
use sophia_orchestrator.Apply.TeamLead.{
  Answers, settle_group, close_group, run_team_lead, is_built, lead_session, is_some,
}
use sophia_orchestrator.Apply.TeamLead.Gate.{gate-Gated}

start_id : (g : Group) → (start g).0.id ≡ g.id
unfolding start
start_id g = ground arith

complete_id : (g : Group) → (complete g).0.id ≡ g.id
unfolding complete
complete_id g = ground arith

fail_id : (g : Group) → (fail g).0.id ≡ g.id
unfolding fail
fail_id g = ground arith

settle_id : (a : Answers) (failed : Bool) (g : Group) → (settle_group a failed g).group.id ≡ g.id
unfolding settle_group
settle_id a true g = fail_id g
settle_id a false g =
    let run = run_group_build_feedback_loop a.fuel a.detection a.builds g in
    let gated = gate-Gated a.fuel a.detection a.builds g in
    elim (Bool-cases (is_built run.result)) [
      | inl p ↦ rw (settle_group, p) (complete_id run.group ∙ gated.id)
      | inr p ↦ rw (settle_group, p) (fail_id run.group ∙ gated.id)
    ]

close_id :
    (a : Answers) (c : Change) (sess : Session) (g : Group) (run : TasksRun)
    → (close_group a c sess g run).group.id ≡ g.id
unfolding close_group
close_id a c sess g run =
    let before : Group = record g { tasks = run.tasks } in
    let kept : (settle_group a (had_failure run.outcomes) before).group.id ≡ g.id =
      settle_id a (had_failure run.outcomes) before in
    elim (Bool-cases (settle_group a (had_failure run.outcomes) before).build_failed) [
      | inl p ↦ rw (close_group, p) kept
      | inr p ↦ rw (close_group, p) kept
    ]

pub run_team_lead_id :
    (a : Answers) (c : Change) (phase_id : ℕ) (g : Group) (b : Breaker)
    → (run_team_lead a c phase_id g b).group.id ≡ g.id
unfolding run_team_lead
run_team_lead_id a c phase_id g b = elim (Bool-cases (is_some (start g).1)) [
  | inl p ↦ rw (run_team_lead, p) (start_id g)
  | inr p ↦ elim (Bool-cases a.saves_start) [
    | inr q ↦ rw (run_team_lead, p, q) (start_id g)
    | inl q ↦ elim (Option-cases (lead_session a c phase_id (start g).0)) [
      | inl s ↦ rw (run_team_lead, p, q, s) (start_id g)
      | inr (sess, s) ↦
          let run = run_tasks a.task_turn (start g).0.tasks b [] in
          rw (run_team_lead, p, q, s) (close_id a c sess (start g).0 run ∙ start_id g)
    ]
  ]
]
