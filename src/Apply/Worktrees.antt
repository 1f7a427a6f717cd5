-- ===== src/Apply/Worktrees.antt =====
-- internal/application/apply/run.go, createWorktrees and materializeWorktrees: the directory of each
-- group, and the copies of the delivered ones. Whether a command of the runtime succeeds is given. The
-- events before a failing save are left out.
use sophia_orchestrator.Prelude.{
  ℕ, suc, String, Bool, false, ◌||◌, not, List, [], ◌∷◌, ◌++◌, Option, none, some, str_eq,
  if◌then◌else◌,
}
use sophia_orchestrator.Change.{Change}
use sophia_orchestrator.Apply.Group.{Group, assign_worktree}
use sophia_orchestrator.Apply.Tasks.{lookup}
use sophia_orchestrator.Apply.TeamLead.{GroupOutcome}
use sophia_orchestrator.PhaseService.{Answer, ok, err, text_append}

pub record Shell : Type 0 where
  -- `filepath.Join(WorktreeRoot, change id, group name)`
  pub path : Group → String
  pub save_group : Group → Option String
  pub mkdir : Group → Bool
  pub cp : Group → Bool
  pub worktree_init_is_empty : Bool
  pub source_repo_path : String
  pub target_path : String
  pub mkdir_target : Group → Bool
  pub cp_to_target : Group → Bool

pub data Event : Type 0 where
  mkdir_error cp_error target_mkdir_error target_cp_error : ℕ → Event
  materialize_started : String → Event
  materialize_completed : String → ℕ → Event

abbrev copies_source : Shell → Bool
copies_source s = not (s.worktree_init_is_empty || str_eq s.source_repo_path "")

-- The commands for one group: their errors are published, and fail nothing.
unfoldable pub fill_worktree : Shell → Group → List Event
fill_worktree s g =
    if not (s.mkdir g)
    then mkdir_error g.id ∷ []
    else if not (copies_source s)
    then []
    else if s.cp g
    then []
    else cp_error g.id ∷ []

abbrev pub assigned : Shell → Change → Group → Group
assigned s c g =
    assign_worktree (s.path g) (text_append "sophia/" (text_append c.name (text_append "/" g.name)))
      g

-- The groups with their directories and the events, or the error of the save that ends the loop.
unfoldable pub create_worktrees : Shell → Change → List Group → Answer (List Group × List Event)
unfolding assign_worktree fill_worktree
create_worktrees s c [] = ok ([], [])
create_worktrees s c (g ∷ gs) = elim (s.save_group (assigned s c g)) [
  | some text ↦ err (text_append "persist worktree assignment: " text)
  | none ↦ elim (create_worktrees s c gs) [
    | err text ↦ err text
    | ok rest ↦ ok (assigned s c g ∷ rest.0, fill_worktree s g ++ rest.1)
  ]
]

-- A group without a result, with a failed one, or without a directory is passed over.
abbrev is_delivered : Group → Option GroupOutcome → Bool
is_delivered g none = false
is_delivered g (some o) = not (o.failed || str_eq g.worktree_path "")

-- The loop of `materializeWorktrees`: the events, and the number of the groups copied.
unfoldable pub materialize_groups : Shell → List (ℕ × GroupOutcome) → List Group → List Event × ℕ
unfolding lookup
materialize_groups s rs [] = ([], 0)
materialize_groups s rs (g ∷ gs) =
    let (es, n) = materialize_groups s rs gs in
    if not (is_delivered g (lookup g.id rs))
    then (es, n)
    else if not (s.mkdir_target g)
    then (target_mkdir_error g.id ∷ es, n)
    else if not (s.cp_to_target g)
    then (target_cp_error g.id ∷ es, n)
    else (es, suc n)

unfoldable pub materialize_worktrees : Shell → List (ℕ × GroupOutcome) → List Group → List Event
unfolding materialize_groups
materialize_worktrees s rs gs =
    let (es, n) = materialize_groups s rs gs in
    materialize_started s.target_path ∷ es ++ materialize_completed s.target_path n ∷ []
