-- ===== src/Apply/Groups/Results.antt =====
-- The map of results after the goroutines of the groups.
use sophia_orchestrator.Prelude.{
  ℕ, ◌==◌, ◌≡◌, ◌∙◌, true, false, List, [], ◌∷◌, some, All, refl, arith, Bool-cases, Option-cases,
  ==_refl, ==→eq, inl, inr,
}
use sophia_orchestrator.Change.{Change}
use sophia_orchestrator.Apply.Group.{Group}
use sophia_orchestrator.Apply.QuotaBreaker.{Breaker}
use sophia_orchestrator.Apply.Saturation.{acquire_with_saturation_retries}
use sophia_orchestrator.Apply.Tasks.{put_key, lookup}
use sophia_orchestrator.Apply.TeamLead.{GroupOutcome}
use sophia_orchestrator.Apply.TeamLead.Named.{run_team_lead_id}
use sophia_orchestrator.Apply.Groups.{
  GroupTurn, GroupRun, Results, is_completed, is_hard, acquire_error, enter_group, run_group,
  put_result, run_groups,
}

pub lookup-put_same :
    {A : Type 0} → (k : ℕ) (a : A) (m : List (ℕ × A)) → lookup k (put_key k a m) ≡ some a
unfolding lookup put_key
lookup-put_same k a [] = rw (lookup, ==_refl k) refl
lookup-put_same k a ((x, b) ∷ m) = elim (Bool-cases (x == k)) [
  | inl e ↦ rw (put_key, e, lookup, ==_refl k) refl
  | inr e ↦ rw (put_key, e, lookup, e) (lookup-put_same k a m)
]

pub lookup-put_other :
    {A : Type 0}
    → (j k : ℕ) (a : A) (m : List (ℕ × A)) → (j == k) ≡ false
    → lookup k (put_key j a m) ≡ lookup k m
unfolding lookup put_key
lookup-put_other j k a [] d = rw (lookup, d) refl
lookup-put_other j k a ((x, b) ∷ m) d = elim (Bool-cases (x == j)) [
  | inl e ↦ let f : (x == k) ≡ false = rw (==→eq x j e) d in rw (put_key, e, lookup, d, f) refl
  | inr e ↦ elim (Bool-cases (x == k)) [
    | inl f ↦ rw (put_key, e, lookup, f) refl
    | inr f ↦ rw (put_key, e, lookup, f) (lookup-put_other j k a m d)
  ]
]

==_flip : (a b : ℕ) → (a == b) ≡ false → (b == a) ≡ false
==_flip a b h = ground arith

-- The group leaves its result in the map, and keeps its id.
pub record Recorded (g : Group) (r : GroupRun) : Type 0 where
  pub outcome : GroupOutcome
  pub recorded : r.result ≡ some outcome
  pub id : r.group.id ≡ g.id

pub run_group-Recorded :
    (turn : GroupTurn) (c : Change) (phase_id : ℕ) (g : Group) (b : Breaker)
    → turn.admitted ≡ true
    → Recorded g (run_group turn c phase_id g b)
unfolding run_group enter_group
run_group-Recorded turn c phase_id g b a = elim (Bool-cases (is_completed g.status)) [
  | inl p ↦ rw (run_group, p) (record { outcome = _; recorded = refl; id = refl })
  | inr p ↦ elim (Bool-cases (is_hard turn.waited)) [
    | inl q ↦ rw (run_group, p, q) (record { outcome = _; recorded = refl; id = refl })
    | inr q ↦
        let acquired = acquire_with_saturation_retries turn.governor turn.cancelled in
        elim (Option-cases (acquire_error acquired.result)) [
          | inl s ↦
              rw (run_group, p, q, enter_group, a, s)
                (record {
                  outcome = _;
                  recorded = refl;
                  id = run_team_lead_id turn.lead c phase_id g b;
                })
          | inr (e, s) ↦
              rw (run_group, p, q, enter_group, a, s)
                (record { outcome = _; recorded = refl; id = refl })
        ]
  ]
]

-- The goroutines of other groups leave the result of a group alone.
pub results_elsewhere :
    (turn : ℕ → GroupTurn) (c : Change) (phase_id k : ℕ) (gs : List Group) (b : Breaker)
    (rs : Results)
    → All (λ g. (k == g.id) ≡ false) gs
    → lookup k (run_groups turn c phase_id gs b rs).results ≡ lookup k rs
unfolding run_groups
results_elsewhere turn c phase_id k [] b rs d = refl
results_elsewhere turn c phase_id k (g ∷ gs) b rs d =
    let run = run_group (turn g.id) c phase_id g b in
    let rest =
      results_elsewhere turn c phase_id k gs run.breaker (put_result g.id run.result rs) d.1 in
    elim (Option-cases run.result) [
      | inl e ↦ rest ∙ rw (e) refl
      | inr (o, e) ↦ rest ∙ rw (e) (lookup-put_other g.id k o rs (==_flip k g.id d.0))
    ]

-- The result of the first group stays until the end.
pub head_result :
    (turn : ℕ → GroupTurn) (c : Change) (phase_id : ℕ) (g : Group) (gs : List Group) (b : Breaker)
    (rs : Results) (r : Recorded g (run_group (turn g.id) c phase_id g b))
    → All (λ h. (g.id == h.id) ≡ false) gs
    → lookup
        (run_group (turn g.id) c phase_id g b).group.id
        (run_groups turn c phase_id (g ∷ gs) b rs).results
      ≡ some r.outcome
unfolding run_groups
head_result turn c phase_id g gs b rs r d =
    let run = run_group (turn g.id) c phase_id g b in
    let rest =
      results_elsewhere turn c phase_id g.id gs run.breaker (put_result g.id run.result rs) d in
    rw (r.id) (rest ∙ rw (r.recorded) (lookup-put_same g.id r.outcome rs))
