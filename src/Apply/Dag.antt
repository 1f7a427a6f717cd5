-- ===== src/Apply/Dag.antt =====
-- `ValidateDAG` of internal/domain/apply/group.go: a depth-first walk with three colours over the
-- dependencies of the groups. `visit` takes fuel: one more than the number of groups is enough.
pub mod Graph
pub mod Steps
pub mod Frame
pub mod Sound
pub mod Complete
pub mod Total
use sophia_orchestrator.Prelude.{
  ℕ, zero, suc, ◌==◌, List, [], ◌∷◌, Option, none, some, length, if◌then◌else◌,
}
use sophia_orchestrator.Apply.Group.{Group}

pub data Color : Type 0 where
  unseen visiting done : Color

-- The map `state`: the zero value of a missing key is `unseen`.
abbrev pub State : Type 0
State = ℕ → Color

abbrev pub update : State → ℕ → Color → State
update s k c x = if x == k then c else s x

-- The map `byID`: a later group with the same id takes the place of an earlier one.
abbrev pub Index : Type 0
Index = ℕ → Option Group

abbrev pub insert : Group → Index → Index
insert g ids x = if x == g.id then some g else ids x

pub index_groups : List Group → Index → Index
index_groups [] ids = ids
index_groups (g ∷ gs) ids = index_groups gs (insert g ids)

unfoldable pub by_id : List Group → Index
unfolding index_groups
by_id gs = index_groups gs (λ _. none)

pub data Outcome : Type 0 where
  ok : State → Outcome
  cycle : Outcome
  out_of_fuel : Outcome

-- The loop over `g.dependsOn`; ids that no group has are skipped.
unfoldable pub visit_deps : (Group → State → Outcome) → Index → List ℕ → State → Outcome
visit_deps visitor ids [] s = ok s
visit_deps visitor ids (d ∷ ds) s = elim (ids d) [
  | none ↦ visit_deps visitor ids ds s
  | some dep ↦ elim (visitor dep s) [
    | ok t ↦ visit_deps visitor ids ds t
    | cycle ↦ cycle
    | out_of_fuel ↦ out_of_fuel
  ]
]

-- `state[g.id] = done` after the loop, unless it returned an error.
abbrev pub finish : ℕ → Outcome → Outcome
finish k (ok s) = ok (update s k done)
finish k cycle = cycle
finish k out_of_fuel = out_of_fuel

unfoldable pub visit : ℕ → Index → Group → State → Outcome
unfolding visit_deps
visit zero ids g s = out_of_fuel
visit (suc f) ids g s = elim (s g.id) [
  | visiting ↦ cycle
  | done ↦ ok s
  | unseen ↦ finish g.id (visit_deps (visit f ids) ids g.depends_on (update s g.id visiting))
]

-- The last loop of `ValidateDAG`.
unfoldable pub visit_all : ℕ → Index → List Group → State → Outcome
visit_all f ids [] s = ok s
visit_all f ids (g ∷ gs) s = elim (visit f ids g s) [
  | ok t ↦ visit_all f ids gs t
  | cycle ↦ cycle
  | out_of_fuel ↦ out_of_fuel
]

-- The returned error: nil, `ErrCycle`, or no answer for want of fuel.
pub data Verdict : Type 0 where
  valid err_cycle no_fuel : Verdict

abbrev pub conclude : Outcome → Verdict
conclude (ok _) = valid
conclude cycle = err_cycle
conclude out_of_fuel = no_fuel

unfoldable pub validate_dag : List Group → Verdict
unfolding by_id visit_all visit
validate_dag gs = conclude (visit_all (suc (length gs)) (by_id gs) gs (λ _. unseen))
