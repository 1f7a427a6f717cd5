-- ===== src/Apply/Run/Blocked.antt =====
-- The run of a resumed apply phase, on the board that the phase left behind.
use sophia_orchestrator.Prelude.{
  ℕ, ◌≡◌, ◌∙◌, true, false, List, [], ◌∷◌, some, All, Memᴰ, refl, sym, ap, subst, Bool-cases,
  Option-cases, inl, inr, false≢true,
}
use sophia_orchestrator.Envelope
use sophia_orchestrator.Change.{Change}
use sophia_orchestrator.Apply.Group.{Group, GroupStatus, start}
use sophia_orchestrator.Apply.Board.{Board}
use sophia_orchestrator.Apply.Dag.Graph.{DistinctIds}
use sophia_orchestrator.Apply.QuotaBreaker
use sophia_orchestrator.Apply.QuotaBreaker.{Breaker}
use sophia_orchestrator.Apply.Saturation.{acquire_with_saturation_retries}
use sophia_orchestrator.Apply.Tasks.{lookup}
use sophia_orchestrator.Apply.TeamLead.{GroupOutcome, not_ready, run_team_lead}
use sophia_orchestrator.Apply.Groups.{
  GroupTurn, GroupsRun, Results, is_completed, is_hard, acquire_error, enter_group, run_group,
  put_result, run_groups,
}
use sophia_orchestrator.Apply.Groups.Results.{run_group-Recorded, head_result}
use sophia_orchestrator.Apply.Finalize.{tally, is_positive, finalize, final_envelope, fail_env}
use sophia_orchestrator.Apply.Run
use sophia_orchestrator.Apply.Run.{
  Event, Execution, prepare, start_board, conclude_run, run_board, execute, resolve_threshold,
}
use sophia_orchestrator.Apply.Run.Delivered.{
  failure_fails, tally_failed, tally_passed, start_board_groups,
}
use sophia_orchestrator.PhaseService.{Answer}

refused_lead :
    (turn : GroupTurn) (c : Change) (phase_id : ℕ) (g : Group) (b : Breaker)
    → g.status ≡ GroupStatus.failed
    → (run_team_lead turn.lead c phase_id g b).outcome.failed ≡ true
unfolding run_team_lead start
refused_lead turn c phase_id g b p = rw (run_team_lead, start, p) refl

-- The result of a failed group is failed again.
failed_group_fails :
    (turn : GroupTurn) (c : Change) (phase_id : ℕ) (g : Group) (b : Breaker) (o : GroupOutcome)
    → turn.admitted ≡ true
    → g.status ≡ GroupStatus.failed
    → (run_group turn c phase_id g b).result ≡ some o
    → o.failed ≡ true
unfolding run_group enter_group
failed_group_fails turn c phase_id g b o a p h =
    let i : is_completed g.status ≡ false = rw p refl in
    let acquired = acquire_with_saturation_retries turn.governor turn.cancelled in
    elim (Bool-cases (is_hard turn.waited)) [
      | inl q ↦ failure_fails (not_ready turn.waited) o (rw (run_group, i, q) at h)
      | inr q ↦ elim (Option-cases (acquire_error acquired.result)) [
        | inr (e, s) ↦ failure_fails e o (rw (run_group, i, q, enter_group, a, s) at h)
        | inl s ↦
            let lead = run_team_lead turn.lead c phase_id g b in
            let same : some lead.outcome ≡ some o = rw (run_group, i, q, enter_group, a, s) at h in
            let e : lead.outcome ≡ o = cc in
            ap (λ x. x.failed) (sym e) ∙ refused_lead turn c phase_id g b p
      ]
    ]

failed_counts :
    (turn : ℕ → GroupTurn) (c : Change) (phase_id : ℕ) (gs : List Group) (b : Breaker)
    (rs : Results) (g : Group)
    → DistinctIds gs
    → All (λ h. (turn h.id).admitted ≡ true) gs
    → Memᴰ g gs
    → g.status ≡ GroupStatus.failed
    → let run = run_groups turn c phase_id gs b rs in
      is_positive (tally run.results run.groups).failed_groups ≡ true
unfolding run_groups
failed_counts turn c phase_id [] b rs g d a m p = elim m [ ]
failed_counts turn c phase_id (h ∷ gs) b rs g d a m p =
    let run = run_group (turn h.id) c phase_id h b in
    let rest = run_groups turn c phase_id gs run.breaker (put_result h.id run.result rs) in
    let r = run_group-Recorded (turn h.id) c phase_id h b a.0 in
    let found : lookup run.group.id rest.results ≡ some r.outcome =
      head_result turn c phase_id h gs b rs r d.0 in
    elim (Bool-cases r.outcome.failed) [
      | inl f ↦ rw (tally_failed rest.results run.group rest.groups r.outcome found f) refl
      | inr f ↦
          let n = tally_passed rest.results run.group rest.groups r.outcome found f in
          elim m [
            | Memᴰ.head e ↦
                let p' : h.status ≡ GroupStatus.failed = ap (λ x. x.status) (sym e) ∙ p in
                let t = failed_group_fails (turn h.id) c phase_id h b r.outcome a.0 p' r.recorded in
                absurd (false≢true (sym f ∙ t))
            | Memᴰ.tail m' ↦ rw (n) (
                failed_counts turn c phase_id gs run.breaker (put_result h.id run.result rs) g d.1
                  a.1 m' p)
          ]
    ]

conclude_blocked :
    (site : Run.Site) (c : Change) (b : Board) (run : GroupsRun)
    → is_positive (tally run.results run.groups).failed_groups ≡ true
    → (conclude_run site c b run).envelope.status ≡ Envelope.Status.blocked
unfolding conclude_run finalize final_envelope fail_env
conclude_blocked site c b run h = elim (Bool-cases run.breaker.tripped) [
  | inl p ↦ rw (conclude_run, p) refl
  | inr p ↦ rw (conclude_run, p, finalize, final_envelope, h) refl
]

-- A run on a board with a failed group ends with the status blocked, whatever its agents, its builds
-- and its governor answer, as long as the groups have ids of their own and each of them gets its turn
-- before the context is done.
pub failed_group_blocks :
    (site : Run.Site) (c : Change) (phase_id : ℕ) (b : Board) (es : List Event) (g : Group)
    → prepare site c phase_id ≡ Answer.ok (b, es)
    → DistinctIds b.groups
    → All (λ h. (site.turn h.id).admitted ≡ true) b.groups
    → Memᴰ g b.groups
    → g.status ≡ GroupStatus.failed
    → (execute site c phase_id).envelope.status ≡ Envelope.Status.blocked
unfolding execute run_board fail_env QuotaBreaker.new
failed_group_blocks site c phase_id b es g p d a m f =
    let b' : Board = (start_board site b).0 in
    let kept = start_board_groups site b in
    let breaker = QuotaBreaker.new (resolve_threshold site.threshold) in
    let run = run_groups site.turn c phase_id b'.groups breaker [] in
    elim (Option-cases (start_board site b).1) [
      | inr (text, q) ↦ rw (execute, p, run_board, q) refl
      | inl q ↦
          let counted =
            failed_counts site.turn c phase_id b'.groups breaker [] g
              (subst (λ gs. DistinctIds gs) (sym kept) d)
              (subst (λ gs. All (λ h. (site.turn h.id).admitted ≡ true) gs) (sym kept) a)
              (subst (λ gs. Memᴰ g gs) (sym kept) m) f in
          rw (execute, p, run_board, q) (conclude_blocked site c b' run counted)
    ]
