-- ===== src/Apply/TeamLead/Cancelled.antt =====
-- A team lead under a context that is done before its tasks start, and the session of a team lead.
use sophia_orchestrator.Prelude.{
  ℕ, String, ◌≡◌, ◌∙◌, true, false, List, [], ◌∷◌, none, some, All, refl, sym, ap, arith,
  Bool-cases, Option-cases, inl, inr,
}
use sophia_orchestrator.Change.{Change}
use sophia_orchestrator.Session
use sophia_orchestrator.Session.{Session, AgentRole, record_outcome}
use sophia_orchestrator.Apply.Task.{Task}
use sophia_orchestrator.Apply.Group.{
  Group, GroupStatus, GroupBuildStatus, start, complete, skip_build,
}
use sophia_orchestrator.Apply.QuotaBreaker.{Breaker}
use sophia_orchestrator.Apply.BuildFeedback.{absent, run_group_build_feedback_loop}
use sophia_orchestrator.Apply.Tasks.{
  TaskTurn, Outcomes, TasksRun, run_task, run_tasks, had_failure, count_done,
}
use sophia_orchestrator.Apply.TeamLead.Sound.{started}
use sophia_orchestrator.Apply.TeamLead.{
  Answers, Lead, Spawn, make_session, settle_group, close_group, run_team_lead, lead_session,
  is_some,
}

-- The tasks of which none is let in leave everything as it was.
none_admitted :
    (turn : ℕ → TaskTurn) (ts : List Task) (b : Breaker) (os : Outcomes)
    → All (λ t. (turn t.id).admitted ≡ false) ts
    → run_tasks turn ts b os ≡ record { tasks = ts; breaker = b; outcomes = os }
unfolding run_tasks run_task
none_admitted turn [] b os h = refl
none_admitted turn (t ∷ ts) b os (e, h) =
    rw (run_tasks, run_task, e, none_admitted turn ts b os h) refl

-- What becomes of a group without an outcome.
abbrev Emptied : Group → Lead → Type 0
Emptied g l =
    (l.group ≡ record g { status = GroupStatus.completed; build_status = GroupBuildStatus.skipped })
    × (l.outcome ≡ record { failed = false; reason = none; tasks_done = 0 })

close-Emptied :
    (a : Answers) (c : Change) (g : Group) (b : Breaker) (s : Session)
    → g.build_status ≡ GroupBuildStatus.pending
    → a.detection ≡ absent
    → let running = record g { status = GroupStatus.running } in
      Emptied g (close_group a c s running (record { tasks = g.tasks; breaker = b; outcomes = [] }))
unfolding close_group settle_group run_group_build_feedback_loop skip_build complete had_failure
    count_done
close-Emptied a c g b s q d =
    rw (close_group, settle_group, d, run_group_build_feedback_loop, q) (refl, refl)

-- A context that is done before any task of a pending group without a manifest is let in leaves the
-- group completed, with no failure reported, while its tasks are as they were.
pub cancelled_lead_completes :
    (a : Answers) (c : Change) (phase_id : ℕ) (g : Group) (b : Breaker) (s : Session)
    → g.status ≡ GroupStatus.pending
    → g.build_status ≡ GroupBuildStatus.pending
    → a.detection ≡ absent
    → a.saves_start ≡ true
    → lead_session a c phase_id (record g { status = GroupStatus.running }) ≡ some s
    → All (λ t. (a.task_turn t.id).admitted ≡ false) g.tasks
    → let l = run_team_lead a c phase_id g b in
      (l.group
        ≡ record g { status = GroupStatus.completed; build_status = GroupBuildStatus.skipped })
      × (l.outcome ≡ record { failed = false; reason = none; tasks_done = 0 })
unfolding run_team_lead start
cancelled_lead_completes a c phase_id g b s p q d w e h =
    let starts : is_some (start g).1 ≡ false = rw (start, p) refl in
    let idle = none_admitted a.task_turn g.tasks b [] h in
    let made : lead_session a c phase_id (start g).0 ≡ some s = rw (started g starts) e in
    rw (run_team_lead, starts, w, made, started g starts, idle) (close-Emptied a c g b s q d)

-- The session of a team lead is created, and never starts.
made-Pending :
    (s : Spawn) (change_id phase_id : ℕ) (role : AgentRole) (command : String) (sess : Session)
    → make_session s change_id phase_id role command ≡ some sess
    → sess.status ≡ Session.Status.pending
unfolding make_session Session.new
made-Pending s change_id phase_id role command sess h = ground arith

refused_session :
    (a : Answers) (c : Change) (sess : Session) (g : Group) (run : TasksRun) (s : Session)
    → sess.status ≡ Session.Status.pending
    → (close_group a c sess g run).session ≡ some s
    → s.status ≡ Session.Status.pending
unfolding close_group record_outcome
refused_session a c sess g run s p h =
    let settled = settle_group a (had_failure run.outcomes) (record g { tasks = run.tasks }) in
    elim (Bool-cases settled.build_failed) [
      | inl q ↦
          let same : some sess ≡ some s = rw (close_group, q) at h in
          let e : sess ≡ s = cc in ap (λ x. x.status) (sym e) ∙ p
      | inr q ↦
          let idle : Session = record sess { status = Session.Status.pending } in
          let same : some idle ≡ some s = rw (close_group, q, record_outcome, p) at h in
          let e : idle ≡ s = cc in ap (λ x. x.status) (sym e)
    ]

-- The session of a team lead is pending in the end, whatever the group comes to.
pub lead_session_never_starts :
    (a : Answers) (c : Change) (phase_id : ℕ) (g : Group) (b : Breaker) (s : Session)
    → (run_team_lead a c phase_id g b).session ≡ some s
    → s.status ≡ Session.Status.pending
unfolding run_team_lead
lead_session_never_starts a c phase_id g b s h = elim (Bool-cases (is_some (start g).1)) [
  | inl p ↦ let no : none ≡ some s = rw (run_team_lead, p) at h in absurd (cc)
  | inr p ↦ elim (Bool-cases a.saves_start) [
    | inr q ↦ let no : none ≡ some s = rw (run_team_lead, p, q) at h in absurd (cc)
    | inl q ↦ elim (Option-cases (lead_session a c phase_id (start g).0)) [
      | inl e ↦ let no : none ≡ some s = rw (run_team_lead, p, q, e) at h in absurd (cc)
      | inr (sess, e) ↦
          let run = run_tasks a.task_turn (start g).0.tasks b [] in
          let h' : (close_group a c sess (start g).0 run).session ≡ some s =
            rw (run_team_lead, p, q, e) at h in
          let fresh = made-Pending a.spawn c.id phase_id AgentRole.team_lead _ sess e in
          refused_session a c sess (start g).0 run s fresh h'
    ]
  ]
]
