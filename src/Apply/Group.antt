-- ===== src/Apply/Group.antt =====
-- internal/domain/apply/group.go: a set of tasks with its dependencies and its build gate.
use sophia_orchestrator.Prelude.{
  ℕ, ◌+◌, String, leb, Bool, true, false, not, List, [], ◌∷◌, ◌++◌, Option, none, some,
  if◌then◌else◌,
}
use sophia_orchestrator.Apply.Task.{Task, max_attempts}

pub data GroupStatus : Type 0 where
  pending running completed failed : GroupStatus
  unknown : String → GroupStatus

pub data GroupBuildStatus : Type 0 where
  pending skipped passed failed : GroupBuildStatus
  unknown : String → GroupBuildStatus

pub data Error : Type 0 where
  invalid_group_transition invalid_group_build_transition build_budget_exhausted : Error

pub record Group : Type 0 where
  pub id : ℕ
  pub board_id : ℕ
  pub name : String
  pub depends_on : List ℕ
  pub tasks : List Task
  pub status : GroupStatus
  pub worktree_path : String
  pub branch_name : String
  pub build_status : GroupBuildStatus
  pub build_attempts : ℕ

unfoldable pub new : ℕ → ℕ → String → List ℕ → Group
new id board_id name depends_on = record {
  id = id;
  board_id = board_id;
  name = name;
  depends_on = depends_on;
  tasks = [];
  status = GroupStatus.pending;
  worktree_path = "";
  branch_name = "";
  build_status = GroupBuildStatus.pending;
  build_attempts = 0;
}

abbrev pub is_pending : GroupStatus → Bool
is_pending GroupStatus.pending = true
is_pending _ = false

abbrev pub is_running : GroupStatus → Bool
is_running GroupStatus.running = true
is_running _ = false

-- Completed or failed.
abbrev pub is_closed : GroupStatus → Bool
is_closed GroupStatus.completed = true
is_closed GroupStatus.failed = true
is_closed _ = false

abbrev pub is_ungated : GroupBuildStatus → Bool
is_ungated GroupBuildStatus.pending = true
is_ungated _ = false

unfoldable pub add_task : Task → Group → Group × Option Error
add_task t g =
    if not (is_pending g.status)
    then (g, some invalid_group_transition)
    else (record g { tasks = g.tasks ++ t ∷ [] }, none)

unfoldable pub assign_worktree : String → String → Group → Group
assign_worktree path branch g = record g { worktree_path = path; branch_name = branch }

unfoldable pub start : Group → Group × Option Error
start g =
    if not (is_pending g.status)
    then (g, some invalid_group_transition)
    else (record g { status = GroupStatus.running }, none)

unfoldable pub complete : Group → Group × Option Error
complete g =
    if not (is_running g.status)
    then (g, some invalid_group_transition)
    else (record g { status = GroupStatus.completed }, none)

unfoldable pub fail : Group → Group × Option Error
fail g =
    if is_closed g.status
    then (g, some invalid_group_transition)
    else (record g { status = GroupStatus.failed }, none)

unfoldable pub skip_build : Group → Group × Option Error
skip_build g =
    if not (is_ungated g.build_status)
    then (g, some invalid_group_build_transition)
    else (record g { build_status = GroupBuildStatus.skipped }, none)

unfoldable pub record_build_attempt : Bool → Group → Group × Option Error
record_build_attempt success g =
    let h = record g { build_attempts = g.build_attempts + 1 } in
    if success
    then (record h { build_status = GroupBuildStatus.passed }, none)
    else if leb max_attempts h.build_attempts
    then (record h { build_status = GroupBuildStatus.failed }, some build_budget_exhausted)
    else (h, none)

unfoldable pub attach_task_to_group : Group → Task → Group
attach_task_to_group g t = record g { tasks = g.tasks ++ t ∷ [] }
