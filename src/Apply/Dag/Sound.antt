-- ===== src/Apply/Dag/Sound.antt =====
-- What an ErrCycle of the walk says of the groups.
use sophia_orchestrator.Prelude.{
  ℕ, zero, suc, ◌==◌, List, [], ◌∷◌, some, ◌≡◌, refl, sym, ◌∙◌, subst, ◌⊎◌, inl, inr, Memᴰ, arith,
  Bool-cases, length,
}
use sophia_orchestrator.Apply.Group.{Group}
use sophia_orchestrator.Apply.Dag.{
  unseen, visiting, State, update, Index, Outcome, ok, cycle, out_of_fuel, visit_deps, finish,
  visit, visit_all, by_id, err_cycle, conclude, validate_dag,
}
use sophia_orchestrator.Apply.Dag.Graph.{
  Edge, edge, Reaches, one, more, by_id-Indexes, DistinctIds, by_id_hit,
}
use sophia_orchestrator.Apply.Dag.Steps.{
  skipped, entered, stopped, visit_deps-Round, on_stack, finished, explored, visit-Visit, went,
  halted, visit_all-Turn,
}
use sophia_orchestrator.Apply.Dag.Frame.{visit-Ext}

abbrev pub HasCycle : Index → Type 0
HasCycle ids = (a : ℕ) × Reaches ids a a

-- Every group on the stack depends on the group `k`, directly or not.
abbrev Leads : Index → ℕ → State → Type 0
Leads ids k s = (x : ℕ) → s x ≡ visiting → Reaches ids x k

-- So does every group on the stack but `k` itself.
abbrev LeadsTo : Index → ℕ → State → Type 0
LeadsTo ids k s = (x : ℕ) → s x ≡ visiting → (x ≡ k) ⊎ Reaches ids x k

push-LeadsTo :
    (ids : Index) (k : ℕ) (s : State) → Leads ids k s → LeadsTo ids k (update s k visiting)
push-LeadsTo ids k s l x v = elim (Bool-cases (x == k)) [
  | inl hit ↦ inl (ground arith)
  | inr miss ↦ inr (l x (ground arith))
]

LeadsTo-dep : {ids : Index} {k d : ℕ} {s : State} → LeadsTo ids k s → Edge ids k d → Leads ids d s
LeadsTo-dep {ids} {k} {d} l e x v = elim (l x v) [
  | inl same ↦ one (subst (λ y. Edge ids y d) (sym same) e)
  | inr path ↦ more path e
]

finish-cycle : (k : ℕ) (o : Outcome) → finish k o ≡ cycle → o ≡ cycle
finish-cycle k (ok s) h = absurd (cc)
finish-cycle k cycle h = refl
finish-cycle k out_of_fuel h = absurd (cc)

module _ (ids : Index) (named : (k : ℕ) (g : Group) → ids k ≡ some g → g.id ≡ k) where
  -- The loop of `visit`, for the dependencies from `ds` on.
  deps_sound :
      (f : ℕ)
      → ((g : Group) (s : State)
          → ids g.id ≡ some g
          → Leads ids g.id s
          → visit f ids g s ≡ cycle
          → HasCycle ids)
      → (g : Group) → ids g.id ≡ some g
      → (ds : List ℕ) → ((d : ℕ) → Memᴰ d ds → Memᴰ d g.depends_on)
      → (s : State) → LeadsTo ids g.id s
      → visit_deps (visit f ids) ids ds s ≡ cycle
      → HasCycle ids
  unfolding visit_deps
  deps_sound f ih g known [] sub s l h = absurd (cc)
  deps_sound f ih g known (d ∷ ds) sub s l h = elim (visit_deps-Round (visit f ids) ids d ds s) [
    | skipped e r ↦ deps_sound f ih g known ds (λ x m. sub x (Memᴰ.tail m)) s l (r ∙ h)
    | entered dep t e v r ↦
        deps_sound f ih g known ds (λ x m. sub x (Memᴰ.tail m)) t
          (λ x vis. l x ((visit-Ext f ids dep s t v).visiting_back x vis)) (r ∙ h)
    | stopped dep e v _ ↦
        let link : Edge ids g.id dep.id =
          subst (Edge ids g.id) (sym (named d dep e))
            (edge g dep known (sub d (Memᴰ.head refl)) e) in
        ih dep s (subst (λ y. ids y ≡ some dep) (sym (named d dep e)) e) (LeadsTo-dep l link)
          (v ∙ h)
  ]

  visit_sound :
      (f : ℕ) (g : Group) (s : State)
      → ids g.id ≡ some g
      → Leads ids g.id s
      → visit f ids g s ≡ cycle
      → HasCycle ids
  unfolding visit
  visit_sound zero g s known l h = absurd (cc)
  visit_sound (suc f) g s known l h = elim (visit-Visit f ids g s) [
    | on_stack e r ↦ (g.id, l g.id e)
    | finished e r ↦ absurd (cc)
    | explored e r ↦
        deps_sound f (visit_sound f) g known g.depends_on (λ d m. m) (update s g.id visiting)
          (push-LeadsTo ids g.id s l) (finish-cycle g.id _ (sym r ∙ h))
  ]

  visit_all_sound :
      (f : ℕ) (gs : List Group) (s : State)
      → ((g : Group) → Memᴰ g gs → ids g.id ≡ some g)
      → ((x : ℕ) → ¬ (s x ≡ visiting))
      → visit_all f ids gs s ≡ cycle
      → HasCycle ids
  unfolding visit_all
  visit_all_sound f [] s known idle h = absurd (cc)
  visit_all_sound f (g ∷ gs) s known idle h = elim (visit_all-Turn f ids g gs s) [
    | went t e r ↦
        visit_all_sound f gs t (λ x m. known x (Memᴰ.tail m))
          (λ x v. idle x ((visit-Ext f ids g s t e).visiting_back x v)) (r ∙ h)
    | halted e _ ↦ visit_sound f g s (known g (Memᴰ.head refl)) (λ x v. absurd (idle x v)) (e ∙ h)
  ]

conclude-cycle : (o : Outcome) → conclude o ≡ err_cycle → o ≡ cycle
conclude-cycle (ok s) h = absurd (cc)
conclude-cycle cycle h = refl
conclude-cycle out_of_fuel h = absurd (cc)

-- If the ids of the groups differ and `validate_dag` returns ErrCycle, then some group depends on
-- itself, through one dependency or more.
pub validate_dag_sound :
    (gs : List Group)
    → DistinctIds gs
    → validate_dag gs ≡ err_cycle
    → (a : ℕ) × Reaches (by_id gs) a a
unfolding validate_dag
validate_dag_sound gs distinct h =
    visit_all_sound (by_id gs) (by_id-Indexes gs).named (suc (length gs)) gs (λ _. unseen)
      (by_id_hit gs distinct) (λ x v. cc) (conclude-cycle _ h)
