-- ===== src/Apply/Board.antt =====
-- internal/domain/apply/board.go: the groups of one apply phase.
use sophia_orchestrator.Prelude.{
  ℕ, String, Bool, true, false, not, List, [], ◌∷◌, ◌++◌, Option, none, some, if◌then◌else◌,
}
use sophia_orchestrator.Apply.Group.{Group}

pub data BoardStatus : Type 0 where
  building running completed failed : BoardStatus
  unknown : String → BoardStatus

pub data Error : Type 0 where
  invalid_board_transition : Error

pub record Board : Type 0 where
  pub id : ℕ
  pub phase_id : ℕ
  pub status : BoardStatus
  pub groups : List Group

unfoldable pub new : ℕ → ℕ → Board
new id phase_id = record {
  id = id;
  phase_id = phase_id;
  status = BoardStatus.building;
  groups = [];
}

abbrev pub is_building : BoardStatus → Bool
is_building BoardStatus.building = true
is_building _ = false

abbrev pub is_running : BoardStatus → Bool
is_running BoardStatus.running = true
is_running _ = false

-- Completed or failed.
abbrev pub is_closed : BoardStatus → Bool
is_closed BoardStatus.completed = true
is_closed BoardStatus.failed = true
is_closed _ = false

unfoldable pub add_group : Group → Board → Board × Option Error
add_group g b =
    if not (is_building b.status)
    then (b, some invalid_board_transition)
    else (record b { groups = b.groups ++ g ∷ [] }, none)

unfoldable pub start : Board → Board × Option Error
start b =
    if not (is_building b.status)
    then (b, some invalid_board_transition)
    else (record b { status = BoardStatus.running }, none)

unfoldable pub complete : Board → Board × Option Error
complete b =
    if not (is_running b.status)
    then (b, some invalid_board_transition)
    else (record b { status = BoardStatus.completed }, none)

unfoldable pub fail : Board → Board × Option Error
fail b =
    if is_closed b.status
    then (b, some invalid_board_transition)
    else (record b { status = BoardStatus.failed }, none)
