-- ===== src/Apply/Run/Cancelled.antt =====
-- The run under a context that is done before its groups get a turn.
use sophia_orchestrator.Prelude.{
  ℕ, ◌≡◌, ◌∙◌, false, List, [], ◌∷◌, none, some, All, refl, sym, ap, subst,
}
use sophia_orchestrator.Envelope
use sophia_orchestrator.Change.{Change}
use sophia_orchestrator.Apply.Group.{Group}
use sophia_orchestrator.Apply.Board.{Board}
use sophia_orchestrator.Apply.QuotaBreaker
use sophia_orchestrator.Apply.QuotaBreaker.{Breaker}
use sophia_orchestrator.Apply.Tasks.{lookup}
use sophia_orchestrator.Apply.Groups.{
  GroupTurn, GroupsRun, Results, is_completed, is_hard, enter_group, run_group, run_groups,
}
use sophia_orchestrator.Apply.Finalize.{tally, is_positive, finalize, final_envelope}
use sophia_orchestrator.Apply.Run
use sophia_orchestrator.Apply.Run.{
  Event, prepare, start_board, conclude_run, run_board, execute, resolve_threshold,
}
use sophia_orchestrator.Apply.Run.Delivered.{start_board_groups, complete_groups}
use sophia_orchestrator.PhaseService.{Answer}

-- The group is past its dependencies, and the context is done before it is let in.
pub record ShutOut (turn : GroupTurn) (g : Group) : Type 0 where
  pub unfinished : is_completed g.status ≡ false
  pub past : is_hard turn.waited ≡ false
  pub refused : turn.admitted ≡ false

record Untouched (gs : List Group) (b : Breaker) (rs : Results) (run : GroupsRun) : Type 0 where
  groups : run.groups ≡ gs
  breaker : run.breaker ≡ b
  results : run.results ≡ rs

shut_out :
    (turn : ℕ → GroupTurn) (c : Change) (phase_id : ℕ) (gs : List Group) (b : Breaker)
    (rs : Results)
    → All (λ g. ShutOut (turn g.id) g) gs
    → Untouched gs b rs (run_groups turn c phase_id gs b rs)
unfolding run_groups run_group enter_group
shut_out turn c phase_id [] b rs h = record { groups = refl; breaker = refl; results = refl }
shut_out turn c phase_id (g ∷ gs) b rs (s, h) =
    let rest = shut_out turn c phase_id gs b rs h in
    rw (run_groups, run_group, s.unfinished, s.past, enter_group, s.refused)
      (record {
        groups = ap (λ x. g ∷ x) rest.groups;
        breaker = rest.breaker;
        results = rest.results;
      })

nothing_failed : (gs : List Group) → (tally [] gs).failed_groups ≡ 0
unfolding tally lookup
nothing_failed [] = refl
nothing_failed (g ∷ gs) = nothing_failed gs

-- When the board starts and the context is done once the groups, none of them completed, are past their
-- dependencies and before any of them is let in, every group stays as it was, and the run reports
-- itself done.
pub cancelled_run_reports_done :
    (site : Run.Site) (c : Change) (phase_id : ℕ) (b : Board) (es : List Event)
    → prepare site c phase_id ≡ Answer.ok (b, es)
    → (start_board site b).1 ≡ none
    → All (λ g. ShutOut (site.turn g.id) g) b.groups
    → ((execute site c phase_id).envelope.status ≡ Envelope.Status.done)
      × ((ended : Board) × ((execute site c phase_id).board ≡ some ended)
          × (ended.groups ≡ b.groups))
unfolding execute run_board QuotaBreaker.new conclude_run finalize final_envelope
cancelled_run_reports_done site c phase_id b es p q h =
    let b' : Board = (start_board site b).0 in
    let kept = start_board_groups site b in
    let breaker = QuotaBreaker.new (resolve_threshold site.threshold) in
    let u =
      shut_out site.turn c phase_id b'.groups breaker []
        (subst (λ gs. All (λ g. ShutOut (site.turn g.id) g) gs) (sym kept) h) in
    let calm : (run_groups site.turn c phase_id b'.groups breaker []).breaker.tripped ≡ false =
      ap (λ x. x.tripped) u.breaker in
    let run = run_groups site.turn c phase_id b'.groups breaker [] in
    let none_failed : is_positive (tally run.results run.groups).failed_groups ≡ false =
      rw (u.results, nothing_failed run.groups) refl in
    rw (execute, p, run_board, q, conclude_run, calm, finalize, final_envelope, none_failed)
      (refl, (_, refl, complete_groups (record b' { groups = run.groups }) ∙ u.groups ∙ kept))
