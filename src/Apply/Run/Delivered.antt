-- ===== src/Apply/Run/Delivered.antt =====
-- What an apply run that reports itself done has delivered.
use sophia_orchestrator.Prelude.{
  ℕ, zero, suc, ◌≡◌, ◌∙◌, true, false, List, [], ◌∷◌, some, All, refl, sym, ap, subst, arith,
  false≢true, Bool-cases, Option-cases, inl, inr,
}
use sophia_orchestrator.Envelope
use sophia_orchestrator.Change.{Change}
use sophia_orchestrator.Apply.Group.{Group}
use sophia_orchestrator.Apply.Board
use sophia_orchestrator.Apply.Board.{Board}
use sophia_orchestrator.Apply.Dag.Graph.{DistinctIds}
use sophia_orchestrator.Apply.QuotaBreaker
use sophia_orchestrator.Apply.QuotaBreaker.{Breaker}
use sophia_orchestrator.Apply.Saturation.{acquire_with_saturation_retries}
use sophia_orchestrator.Apply.Tasks.{lookup}
use sophia_orchestrator.Apply.Tasks.Done.{all_done}
use sophia_orchestrator.Apply.TeamLead.{GroupOutcome, Error, not_ready, run_team_lead}
use sophia_orchestrator.Apply.TeamLead.Sound.{Runnable, run_team_lead-Delivered}
use sophia_orchestrator.Apply.Groups.{
  GroupTurn, Results, is_completed, is_hard, acquire_error, enter_group, run_group, put_result,
  run_groups, failure, GroupsRun,
}
use sophia_orchestrator.Apply.Groups.Results.{run_group-Recorded, head_result}
use sophia_orchestrator.Apply.Finalize.{
  tally, result_of, is_positive, finalize, final_envelope, fail_env,
}
use sophia_orchestrator.Apply.Run
use sophia_orchestrator.Apply.Run.{
  Event, Execution, prepare, start_board, conclude_run, run_board, execute, resolve_threshold,
}
use sophia_orchestrator.PhaseService.{Answer}

-- The group is completed, and each of its tasks is done.
pub record Whole (g : Group) : Type 0 where
  pub completed : is_completed g.status ≡ true
  pub tasks : all_done g.tasks ≡ true

-- The group gets its turn before the context is done, and so do its tasks; one that is completed from
-- an earlier run has its tasks done.
pub record Undisturbed (turn : GroupTurn) (g : Group) : Type 0 where
  pub admitted : turn.admitted ≡ true
  pub runnable : Runnable turn.lead g
  pub earlier : is_completed g.status ≡ true → all_done g.tasks ≡ true

pub failure_fails : (e : Error) (o : GroupOutcome) → some (failure e) ≡ some o → o.failed ≡ true
failure_fails e o h = let same : failure e ≡ o = cc in ap (λ x. x.failed) (sym same)

group-Whole :
    (turn : GroupTurn) (c : Change) (phase_id : ℕ) (g : Group) (b : Breaker) (o : GroupOutcome)
    → Undisturbed turn g
    → (run_group turn c phase_id g b).result ≡ some o
    → o.failed ≡ false
    → Whole (run_group turn c phase_id g b).group
unfolding run_group enter_group
group-Whole turn c phase_id g b o u h f = elim (Bool-cases (is_completed g.status)) [
  | inl p ↦ rw (run_group, p) (record { completed = p; tasks = u.earlier p })
  | inr p ↦ elim (Bool-cases (is_hard turn.waited)) [
    | inl q ↦
        let t = failure_fails (not_ready turn.waited) o (rw (run_group, p, q) at h) in
        absurd (false≢true (sym f ∙ t))
    | inr q ↦
        let acquired = acquire_with_saturation_retries turn.governor turn.cancelled in
        elim (Option-cases (acquire_error acquired.result)) [
          | inr (e, s) ↦
              let t = failure_fails e o (rw (run_group, p, q, enter_group, u.admitted, s) at h) in
              absurd (false≢true (sym f ∙ t))
          | inl s ↦
              let lead = run_team_lead turn.lead c phase_id g b in
              let same : some lead.outcome ≡ some o =
                rw (run_group, p, q, enter_group, u.admitted, s) at h in
              let e : lead.outcome ≡ o = cc in
              let d =
                run_team_lead-Delivered turn.lead c phase_id g b u.runnable
                  (ap (λ x. x.failed) e ∙ f) in
              rw (run_group, p, q, enter_group, u.admitted, s)
                (record { completed = ap is_completed d.status; tasks = d.tasks })
        ]
  ]
]

-- The count over a group with a result.
pub tally_failed :
    (rs : Results) (g : Group) (gs : List Group) (o : GroupOutcome)
    → lookup g.id rs ≡ some o
    → o.failed ≡ true
    → (tally rs (g ∷ gs)).failed_groups ≡ suc (tally rs gs).failed_groups
unfolding tally
tally_failed rs g gs o l f =
    let r : result_of g.id rs ≡ o = rw (result_of, l) refl in
    let e : (result_of g.id rs).failed ≡ true = ap (λ x. x.failed) r ∙ f in rw (tally, e) refl

pub tally_passed :
    (rs : Results) (g : Group) (gs : List Group) (o : GroupOutcome)
    → lookup g.id rs ≡ some o
    → o.failed ≡ false
    → (tally rs (g ∷ gs)).failed_groups ≡ (tally rs gs).failed_groups
unfolding tally
tally_passed rs g gs o l f =
    let r : result_of g.id rs ≡ o = rw (result_of, l) refl in
    let e : (result_of g.id rs).failed ≡ false = ap (λ x. x.failed) r ∙ f in rw (tally, e) refl

-- When no group counts as failed, each of them is whole.
groups-Whole :
    (turn : ℕ → GroupTurn) (c : Change) (phase_id : ℕ) (gs : List Group) (b : Breaker)
    (rs : Results)
    → DistinctIds gs
    → All (λ g. Undisturbed (turn g.id) g) gs
    → let run = run_groups turn c phase_id gs b rs in
      (tally run.results run.groups).failed_groups ≡ 0 → All Whole run.groups
unfolding run_groups
groups-Whole turn c phase_id [] b rs d u t = tt
groups-Whole turn c phase_id (g ∷ gs) b rs d u t =
    let run = run_group (turn g.id) c phase_id g b in
    let r = run_group-Recorded (turn g.id) c phase_id g b u.0.admitted in
    let found = head_result turn c phase_id g gs b rs r d.0 in
    let rest = run_groups turn c phase_id gs run.breaker (put_result g.id run.result rs) in
    elim (Bool-cases r.outcome.failed) [
      | inl f ↦
          let n = tally_failed rest.results run.group rest.groups r.outcome found f in
          let no : suc (tally rest.results rest.groups).failed_groups ≡ 0 = sym n ∙ t in
          absurd (omega (arith, no))
      | inr f ↦
          let n = tally_passed rest.results run.group rest.groups r.outcome found f in
          (
            group-Whole (turn g.id) c phase_id g b r.outcome u.0 r.recorded f,
            groups-Whole turn c phase_id gs run.breaker (put_result g.id run.result rs) d.1 u.1
                (sym n ∙ t),
          )
    ]

not_positive : (n : ℕ) → is_positive n ≡ false → n ≡ 0
not_positive zero h = refl
not_positive (suc n) h = absurd (cc)

pub complete_groups : (b : Board) → (Board.complete b).0.groups ≡ b.groups
unfolding Board.complete
complete_groups b = ground arith

pub start_board_groups : (site : Run.Site) (b : Board) → (start_board site b).0.groups ≡ b.groups
unfolding start_board Board.start
start_board_groups site b = ground arith

-- A run that concludes with done had no failed group, and ends with the board of the groups.
pub record Concluded (gs : List Group) (rs : Results) (x : Execution) : Type 0 where
  pub none_failed : (tally rs gs).failed_groups ≡ 0
  pub ended : Board
  pub board : x.board ≡ some ended
  pub groups : ended.groups ≡ gs

conclude-Concluded :
    (site : Run.Site) (c : Change) (b : Board) (run : GroupsRun)
    → (conclude_run site c b run).envelope.status ≡ Envelope.Status.done
    → Concluded run.groups run.results (conclude_run site c b run)
unfolding conclude_run finalize final_envelope fail_env
conclude-Concluded site c b run s = elim (Bool-cases run.breaker.tripped) [
  | inl p ↦
      let no : Envelope.Status.blocked ≡ Envelope.Status.done = rw (conclude_run, p) at s in
      absurd (cc)
  | inr p ↦
      let n = (tally run.results run.groups).failed_groups in
      elim (Bool-cases (is_positive n)) [
        | inl q ↦
            let no : Envelope.Status.blocked ≡ Envelope.Status.done =
              rw (conclude_run, p, finalize, final_envelope, q) at s in
            absurd (cc)
        | inr q ↦
            rw (conclude_run, p, finalize, final_envelope, q)
              (record {
                none_failed = not_positive n q;
                ended = _;
                board = refl;
                groups = complete_groups (record b { groups = run.groups });
              })
      ]
]

-- A run that ends with the status done leaves each group of the board completed and each of its tasks
-- done, if the groups, and the tasks of each, have ids of their own, every group and every task gets
-- its turn before the context is done, no task is running in memory, and a group that is completed
-- from an earlier run has its tasks done.
pub execute_done_delivers :
    (site : Run.Site) (c : Change) (phase_id : ℕ) (b : Board) (es : List Event)
    → prepare site c phase_id ≡ Answer.ok (b, es)
    → DistinctIds b.groups
    → All (λ g. Undisturbed (site.turn g.id) g) b.groups
    → (execute site c phase_id).envelope.status ≡ Envelope.Status.done
    → ((ended : Board) × ((execute site c phase_id).board ≡ some ended) × All Whole ended.groups)
unfolding execute run_board fail_env QuotaBreaker.new
execute_done_delivers site c phase_id b es p d u s =
    let b' : Board = (start_board site b).0 in
    let kept = start_board_groups site b in
    let breaker = QuotaBreaker.new (resolve_threshold site.threshold) in
    let run = run_groups site.turn c phase_id b'.groups breaker [] in
    elim (Option-cases (start_board site b).1) [
      | inr (text, q) ↦
          let no : Envelope.Status.blocked ≡ Envelope.Status.done =
            rw (execute, p, run_board, q) at s in
          absurd (cc)
      | inl q ↦
          let s' : (conclude_run site c b' run).envelope.status ≡ Envelope.Status.done =
            rw (execute, p, run_board, q) at s in
          let k = conclude-Concluded site c b' run s' in
          let whole =
            groups-Whole site.turn c phase_id b'.groups breaker []
              (subst (λ gs. DistinctIds gs) (sym kept) d)
              (subst (λ gs. All (λ g. Undisturbed (site.turn g.id) g) gs) (sym kept) u)
              k.none_failed in
          rw (execute, p, run_board, q)
            (k.ended, k.board, subst (λ gs. All Whole gs) (sym k.groups) whole)
    ]
