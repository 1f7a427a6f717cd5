-- ===== src/Examples/Builds.antt =====
-- internal/application/apply/run.go, buildBoard, at a tasks list of two groups, and a governor that
-- stays saturated.
use sophia_orchestrator.Prelude.{
  ℕ, String, map, ◌≤◌, ◌<◌, ◌+◌, false, List, [], ◌∷◌, Option, none, some, ◌≡◌, refl,
}
use sophia_orchestrator.Apply.Task.{TaskStatus}
use sophia_orchestrator.Apply.Group.{Group, GroupStatus, GroupBuildStatus}
use sophia_orchestrator.Apply.Board.{Board, BoardStatus}
use sophia_orchestrator.Apply.Dag.{validate_dag, valid}
use sophia_orchestrator.Apply.Saturation.{
  granted, saturated, Acquired, err_saturated, acquire_with_saturation_retries,
  saturation_retry_budget,
}
use sophia_orchestrator.Apply.Saturation.Bounds.{total, saturation_bounded}
use sophia_orchestrator.Apply.Build
use sophia_orchestrator.Apply.Build.{
  TasksList, TaskGroupSpec, TaskItemSpec, build_board, strip_group_prefix,
}
use sophia_orchestrator.Apply.Build.Built.{group_names, build_board-Built}
use sophia_orchestrator.Apply.Build.Prefix.{strip_group_prefix_joined}

abbrev pub build_site : Option Board → Build.Site
build_site b = record {
  existing = b;
  ids = λ n. some (n + 100);
  save_board = none;
  save_group = λ _. none;
  save_task = λ _. none;
  id_error_text = "";
  task_error_text = λ _. "";
  group_error_text = λ _. "";
  board_error_text = λ _. "";
  cycle_text = "cycle";
}

abbrev pub tasks_list : TasksList
tasks_list = record {
  groups =
      record {
        name = "api";
        depends_on = [];
        tasks = record { description = "write it"; files_pattern = "api/main.go" ∷ [] } ∷ [];
      }
      ∷ record {
        name = "ui";
        depends_on = "api" ∷ [];
        tasks = record { description = "show it"; files_pattern = "ui/a.ts" ∷ [] } ∷ [];
      }
      ∷ [];
}

-- The board of `tasks_list`.
abbrev new_group : ℕ → ℕ → String → List ℕ → String → String → Group
new_group i t name deps description pattern = record {
  id = i;
  board_id = 100;
  name = name;
  depends_on = deps;
  tasks =
      record {
        id = t;
        group_id = i;
        description = description;
        files_pattern = pattern ∷ [];
        status = TaskStatus.pending;
        claimed_by = none;
        attempts = 0;
        envelope = none;
      }
      ∷ [];
  status = GroupStatus.pending;
  worktree_path = "";
  branch_name = "";
  build_status = GroupBuildStatus.pending;
  build_attempts = 0;
}

abbrev new_board : Board
new_board = record {
  id = 100;
  phase_id = 4;
  status = BoardStatus.building;
  groups =
      new_group 101 103 "api" [] "write it" "main.go"
      ∷ new_group 102 104 "ui" (101 ∷ []) "show it" "a.ts"
      ∷ [];
}

build_board-Built_example :
    (validate_dag new_board.groups ≡ valid)
    × (new_board.status ≡ BoardStatus.building)
    × (group_names new_board.groups ≡ map (λ g. g.name) tasks_list.groups)
unfolding build_board
build_board-Built_example = build_board-Built (build_site none) 4 tasks_list new_board refl refl

saturation_bounded_example :
    let r = acquire_with_saturation_retries (λ _. saturated) (λ _. false) in
    (total r.waits ≤ 121500)
    × (r.result ≡ Acquired.ok → saturated ≡ granted)
    × (r.result ≡ err_saturated
        → (total r.waits ≡ 121500)
          × ((k : ℕ) → k < saturation_retry_budget → saturated ≡ saturated))
saturation_bounded_example = saturation_bounded (λ _. saturated) (λ _. false)

strip_group_prefix_joined_example :
    (strip_group_prefix "api" ("api/main.go" ∷ []) ≡ "main.go" ∷ [])
    × (strip_group_prefix "api" ("apis/a.go" ∷ []) ≡ "apis/a.go" ∷ [])
strip_group_prefix_joined_example =
    strip_group_prefix_joined "api" ("main.go" ∷ []) ("apis/a.go" ∷ []) (refl, tt)
