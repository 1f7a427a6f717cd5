-- ===== src/Apply/Dag/Total.antt =====
-- The fuel of the walk, and its verdict against the dependency graph.
use sophia_orchestrator.Prelude.{
  ℕ, zero, suc, ◌+◌, ◌≤◌, ◌<◌, List, [], ◌∷◌, some, ◌≡◌, ◌≢◌, refl, sym, ◌∙◌, ◌⊎◌, inl, inr, ◌↔◌,
  Memᴰ, arith, length,
}
use sophia_orchestrator.Apply.Group.{Group}
use sophia_orchestrator.Apply.Dag.{
  Color, unseen, visiting, State, update, Index, Outcome, ok, cycle, out_of_fuel, visit_deps,
  finish, visit, visit_all, by_id, Verdict, valid, err_cycle, no_fuel, conclude, validate_dag,
}
use sophia_orchestrator.Apply.Dag.Graph.{Acyclic, by_id-Indexes, DistinctIds}
use sophia_orchestrator.Apply.Dag.Steps.{
  skipped, entered, stopped, visit_deps-Round, on_stack, finished, explored, visit-Visit, went,
  halted, visit_all-Turn,
}
use sophia_orchestrator.Apply.Dag.Frame.{unseen_back, visit-Ext}
use sophia_orchestrator.Apply.Dag.Sound.{validate_dag_sound}
use sophia_orchestrator.Apply.Dag.Complete.{validate_dag_complete}

abbrev tally : Color → ℕ
tally unseen = 1
tally _ = 0

-- How many of the groups are unseen.
abbrev unseen_count : State → List Group → ℕ
unseen_count s [] = 0
unseen_count s (g ∷ gs) = tally (s g.id) + unseen_count s gs

tally_mono : (c d : Color) → (d ≡ unseen → c ≡ unseen) → tally d ≤ tally c
tally_mono c d h = ground arith

unseen_count_mono :
    (s t : State)
    → ((x : ℕ) → t x ≡ unseen → s x ≡ unseen)
    → (gs : List Group) → unseen_count t gs ≤ unseen_count s gs
unseen_count_mono s t back [] = omega arith
unseen_count_mono s t back (g ∷ gs) =
    omega (arith, tally_mono (s g.id) (t g.id) (back g.id), unseen_count_mono s t back gs)

push_back : (s : State) (k x : ℕ) → update s k visiting x ≡ unseen → s x ≡ unseen
push_back s k x h = ground arith

-- A visit of an unseen group takes one from the count.
unseen_count_push :
    (s : State) (g : Group) (gs : List Group)
    → Memᴰ g gs
    → s g.id ≡ unseen
    → unseen_count (update s g.id visiting) gs < unseen_count s gs
unseen_count_push s g [] m fresh = elim m [ ]
unseen_count_push s g (x ∷ xs) (Memᴰ.head e) fresh =
    let rest = unseen_count_mono s (update s g.id visiting) (push_back s g.id) xs in
    rw (← e) (ground (arith, rest))
unseen_count_push s g (x ∷ xs) (Memᴰ.tail m) fresh = omega (
  arith,
  unseen_count_push s g xs m fresh,
  tally_mono (s x.id) (update s g.id visiting x.id) (push_back s g.id x.id),
)

finish-no_fuel : (k : ℕ) (o : Outcome) → finish k o ≡ out_of_fuel → o ≡ out_of_fuel
finish-no_fuel k (ok s) h = absurd (cc)
finish-no_fuel k cycle h = absurd (cc)
finish-no_fuel k out_of_fuel h = refl

module _ (ids : Index) (gs : List Group)
    (known : (k : ℕ) (g : Group) → ids k ≡ some g → Memᴰ g gs) where
  deps_total :
      (f : ℕ)
      → ((g : Group) (s : State)
          → Memᴰ g gs
          → unseen_count s gs < f
          → visit f ids g s ≢ out_of_fuel)
      → (ds : List ℕ) (s : State) → unseen_count s gs < f
      → visit_deps (visit f ids) ids ds s ≢ out_of_fuel
  unfolding visit_deps
  deps_total f ih [] s enough h = cc
  deps_total f ih (d ∷ ds) s enough h = elim (visit_deps-Round (visit f ids) ids d ds s) [
    | skipped gone r ↦ deps_total f ih ds s enough (r ∙ h)
    | entered dep t here w r ↦
        deps_total f ih ds t
          (omega (arith, unseen_count_mono s t (unseen_back (visit-Ext f ids dep s t w)) gs))
          (r ∙ h)
    | stopped dep here w _ ↦ ih dep s (known d dep here) enough (w ∙ h)
  ]

  visit_total :
      (f : ℕ) (g : Group) (s : State)
      → Memᴰ g gs
      → unseen_count s gs < f
      → visit f ids g s ≢ out_of_fuel
  visit_total zero g s m enough h = absurd (omega arith)
  visit_total (suc f) g s m enough h = elim (visit-Visit f ids g s) [
    | on_stack e r ↦ absurd (cc)
    | finished e r ↦ absurd (cc)
    | explored e r ↦
        deps_total f (visit_total f) g.depends_on (update s g.id visiting)
          (omega (arith, unseen_count_push s g gs m e)) (finish-no_fuel g.id _ (sym r ∙ h))
  ]

  visit_all_total :
      (f : ℕ) (hs : List Group) (s : State)
      → ((g : Group) → Memᴰ g hs → Memᴰ g gs)
      → unseen_count s gs < f
      → visit_all f ids hs s ≢ out_of_fuel
  unfolding visit_all
  visit_all_total f [] s sub enough h = cc
  visit_all_total f (g ∷ hs) s sub enough h = elim (visit_all-Turn f ids g hs s) [
    | went t e r ↦
        visit_all_total f hs t (λ x m. sub x (Memᴰ.tail m))
          (omega (arith, unseen_count_mono s t (unseen_back (visit-Ext f ids g s t e)) gs)) (r ∙ h)
    | halted e _ ↦ visit_total f g s (sub g (Memᴰ.head refl)) enough (e ∙ h)
  ]

unseen_count_start : (gs : List Group) → unseen_count (λ _. unseen) gs ≡ length gs
unseen_count_start [] = refl
unseen_count_start (g ∷ gs) = omega (arith, unseen_count_start gs)

conclude-no_fuel : (o : Outcome) → conclude o ≡ no_fuel → o ≡ out_of_fuel
conclude-no_fuel (ok s) h = absurd (cc)
conclude-no_fuel cycle h = absurd (cc)
conclude-no_fuel out_of_fuel h = refl

-- The walk always ends with nil or ErrCycle, also if ids are repeated or unknown.
pub validate_dag_total : (gs : List Group) → validate_dag gs ≢ no_fuel
unfolding validate_dag
validate_dag_total gs h =
    visit_all_total (by_id gs) gs (by_id-Indexes gs).member (suc (length gs)) gs (λ _. unseen)
      (λ g m. m) (omega (arith, unseen_count_start gs)) (conclude-no_fuel _ h)

verdict_cases : (v : Verdict) → (v ≡ valid) ⊎ ((v ≡ err_cycle) ⊎ (v ≡ no_fuel))
verdict_cases valid = inl refl
verdict_cases err_cycle = inr (inl refl)
verdict_cases no_fuel = inr (inr refl)

-- If the ids of the groups differ, `validate_dag` returns nil exactly for the acyclic boards, and
-- ErrCycle for all others.
pub validate_dag_decides :
    (gs : List Group)
    → DistinctIds gs
    → ((validate_dag gs ≡ valid) ↔ Acyclic gs) × ((validate_dag gs ≡ err_cycle) ↔ (¬ Acyclic gs))
validate_dag_decides gs distinct = elim (verdict_cases (validate_dag gs)) [
  | inl v ↦
      let acyclic = validate_dag_complete gs distinct v in
      ((λ _. acyclic, λ _. v), (λ h. absurd (cc), λ no_way. absurd (no_way acyclic)))
  | inr (inl c) ↦
      let (a, path) = validate_dag_sound gs distinct c in
      (
        (λ h. absurd (cc), λ acyclic. absurd (acyclic a path)),
        (λ _ acyclic. acyclic a path, λ _. c),
      )
  | inr (inr n) ↦ absurd (validate_dag_total gs n)
]
