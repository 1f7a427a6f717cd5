-- ===== src/Apply/Build.antt =====
-- internal/application/apply/run.go, buildBoard and stripGroupPrefix: the board of a tasks list. The
-- generator of ids is a sequence, of which the calls take one element after the other; `none` is an id
-- that does not parse.
pub mod Built
pub mod Prefix
use sophia_orchestrator.Prelude.{
  ℕ, suc, String, List, [], ◌∷◌, ◌++◌, Option, none, some, str_eq, if◌then◌else◌,
}
use Prim.Native.String.{len, slice}
use text.Mathlib.Text.{starts_with}
use sophia_orchestrator.Apply.Task
use sophia_orchestrator.Apply.Task.{Task}
use sophia_orchestrator.Apply.Group
use sophia_orchestrator.Apply.Group.{Group, add_task}
use sophia_orchestrator.Apply.Board
use sophia_orchestrator.Apply.Board.{Board, add_group}
use sophia_orchestrator.Apply.Dag.{validate_dag, valid, err_cycle, no_fuel}
use sophia_orchestrator.PhaseService.{Answer, ok, err, text_append}

pub record TaskItemSpec : Type 0 where
  pub description : String
  pub files_pattern : List String

pub record TaskGroupSpec : Type 0 where
  pub name : String
  pub depends_on : List String
  pub tasks : List TaskItemSpec

pub record TasksList : Type 0 where
  pub groups : List TaskGroupSpec

-- What the generator of ids and the repository answer.
pub record Site : Type 0 where
  -- `FindBoardByPhaseID`, `none` for an error.
  pub existing : Option Board
  pub ids : ℕ → Option ℕ
  pub save_board : Option String
  pub save_group : Group → Option String
  pub save_task : Task → Option String
  pub id_error_text : String
  pub task_error_text : Task.Error → String
  pub group_error_text : Group.Error → String
  pub board_error_text : Board.Error → String
  pub cycle_text : String

abbrev pub and_then : {A B : Type 0} → Answer A → (A → Answer B) → Answer B
and_then (ok a) f = f a
and_then (err text) f = err text

-- `strings.TrimPrefix`
unfoldable pub trim_prefix : String → String → String
trim_prefix p prefix = if starts_with p prefix then slice p (len prefix) (len p) else p

unfoldable pub strip_group_prefix : String → List String → List String
unfolding trim_prefix
strip_group_prefix group_name [] = []
strip_group_prefix group_name (p ∷ ps) =
    trim_prefix p (text_append group_name "/") ∷ strip_group_prefix group_name ps

-- The map `idByName`.
abbrev pub Names : Type 0
Names = List (String × ℕ)

unfoldable pub lookup_name : String → Names → Option ℕ
lookup_name s [] = none
lookup_name s ((t, x) ∷ m) = let rest = lookup_name s m in if str_eq t s then some x else rest

abbrev pub put_name : String → ℕ → Names → Names
put_name s x m = (s, x) ∷ m

-- The first loop: the ids from call `n` on. A later group takes the place of one with its name.
unfoldable pub name_groups : Site → ℕ → List TaskGroupSpec → Names → Answer (ℕ × Names)
name_groups site n [] m = ok (n, m)
name_groups site n (g ∷ gs) m = elim (site.ids n) [
  | none ↦ err (text_append "group id: " site.id_error_text)
  | some x ↦ name_groups site (suc n) gs (put_name g.name x m)
]

-- The ids of the dependencies; a name that no group has is skipped.
unfoldable pub resolve_deps : Names → List String → List ℕ
unfolding lookup_name
resolve_deps m [] = []
resolve_deps m (s ∷ ss) =
    let rest = resolve_deps m ss in elim (lookup_name s m) [ none ↦ rest | some x ↦ x ∷ rest ]

abbrev pub add_new_task : Site → Task.Created → Group → Answer Group
add_new_task site (Task.err x) g = err (text_append "new task: " (site.task_error_text x))
add_new_task site (Task.ok t) g = elim (add_task t g).1 [
  | some x ↦ err (site.group_error_text x)
  | none ↦ ok (add_task t g).0
]

-- The tasks of one group, with the calls for ids from `n` on.
unfoldable pub build_tasks : Site → ℕ → List TaskItemSpec → Group → Answer (ℕ × Group)
unfolding Task.new add_task strip_group_prefix
build_tasks site n [] g = ok (n, g)
build_tasks site n (t ∷ ts) g = elim (site.ids n) [
  | none ↦ err (text_append "group id: " site.id_error_text)
  | some tid ↦
      and_then
        (add_new_task site
          (Task.new tid g.id t.description (strip_group_prefix g.name t.files_pattern)) g)
        (λ g'. build_tasks site (suc n) ts g')
]

unfoldable pub save_tasks : Site → List Task → Option String
save_tasks site [] = none
save_tasks site (t ∷ ts) = elim (site.save_task t) [
  | some text ↦ some (text_append "save task: " text)
  | none ↦ save_tasks site ts
]

abbrev pub save_built : Site → Group → Board → Answer Board
save_built site g b = elim (site.save_group g) [
  | some text ↦ err (text_append "save group: " text)
  | none ↦ elim (save_tasks site g.tasks) [ some text ↦ err text | none ↦ ok b ]
]

-- The graph is checked before the group is added; then the group and its tasks are saved.
unfoldable pub attach_group : Site → Group → Board → Answer Board
unfolding add_group save_tasks validate_dag
attach_group site g b = elim (validate_dag (b.groups ++ g ∷ [])) [
  | err_cycle ↦ err site.cycle_text
  | no_fuel ↦ err site.cycle_text
  | valid ↦ elim (add_group g b).1 [
    | some x ↦ err (site.board_error_text x)
    | none ↦ save_built site g (add_group g b).0
  ]
]

-- `idByName[gs.Name]`
abbrev pub id_of : String → Names → ℕ
id_of s m = elim (lookup_name s m) [ none ↦ 0 | some x ↦ x ]

unfoldable pub build_groups : Site → ℕ → ℕ → Names → List TaskGroupSpec → Board → Answer Board
unfolding build_tasks attach_group resolve_deps lookup_name Group.new
build_groups site n bid m [] b = ok b
build_groups site n bid m (gs ∷ gss) b =
    let g = Group.new (id_of gs.name m) bid gs.name (resolve_deps m gs.depends_on) in
    and_then (build_tasks site n gs.tasks g) (λ built.
      and_then (attach_group site built.1 b) (λ b'. build_groups site built.0 bid m gss b'))

-- The board of the phase: the existing one, or a new one that is saved first.
unfoldable pub build_board : Site → ℕ → TasksList → Answer Board
unfolding build_groups name_groups Board.new
build_board site phase_id tl = elim site.existing [
  | some b ↦ ok b
  | none ↦ elim (site.ids 0) [
    | none ↦ err (text_append "board id: " site.id_error_text)
    | some bid ↦ elim site.save_board [
      | some text ↦ err (text_append "save board (initial): " text)
      | none ↦
          and_then (name_groups site 1 tl.groups [])
            (λ named. build_groups site named.0 bid named.1 tl.groups (Board.new bid phase_id))
    ]
  ]
]
