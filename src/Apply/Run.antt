-- ===== src/Apply/Run.antt =====
-- internal/application/apply/run.go, Execute: the apply phase from its tasks list to its envelope.
-- The metrics and the audit entry at the end are left out, and so is the event of a failed save of the
-- finished board.
pub mod Delivered
pub mod Blocked
pub mod Cancelled
use sophia_orchestrator.Prelude.{
  ℕ, zero, suc, String, Bool, true, false, List, [], ◌∷◌, ◌++◌, map, str_eq, Option, none, some,
  length, is_nil, if◌then◌else◌,
}
use sophia_orchestrator.Envelope.{Envelope}
use sophia_orchestrator.Change.{Change}
use sophia_orchestrator.Apply.Board
use sophia_orchestrator.Apply.Board.{Board, BoardStatus, is_building}
use sophia_orchestrator.Apply.QuotaBreaker
use sophia_orchestrator.Apply.QuotaBreaker.{Breaker}
use sophia_orchestrator.Apply.Worktrees
use sophia_orchestrator.Apply.Worktrees.{Shell, create_worktrees, materialize_worktrees}
use sophia_orchestrator.Apply.Build
use sophia_orchestrator.Apply.Build.{TasksList, build_board}
use sophia_orchestrator.Apply.Finalize.{finalize, fail_env}
use sophia_orchestrator.Apply.Groups
use sophia_orchestrator.Apply.Groups.{GroupTurn, GroupsRun, Results, run_groups}
use sophia_orchestrator.PhaseService.{Answer, text_append}

-- What the steps before the groups answer.
pub record Site : Type 0 where
  -- `loadTasksList`
  pub tasks_list : Answer TasksList
  pub prior_context : Option String
  pub build : Build.Site
  pub shell : Shell
  pub save_board : Option String
  -- `QuotaBreakerThreshold`, 0 for a value below 0.
  pub threshold : ℕ
  pub turn : ℕ → GroupTurn
  pub count_text : ℕ → String

pub data Event : Type 0 where
  board_created : ℕ → ℕ → Event
  group_event : Groups.Event → Event
  worktree_event : Worktrees.Event → Event
  -- The threshold, the streak and the last quota error.
  quota_aborted : ℕ → ℕ → Option ℕ → Event

-- The envelope, whether an error comes with it, and the board, if there is one.
pub record Execution : Type 0 where
  pub envelope : Envelope
  pub failed : Bool
  pub board : Option Board
  pub events : List Event

abbrev pub pre_flight_failure : Change → String → Option Board → Execution
pre_flight_failure c reason b = record {
  envelope = fail_env c reason;
  failed = true;
  board = b;
  events = [];
}

abbrev pub quota_reason : String
quota_reason =
    "provider quota exhausted; resets 1st of month 00:00 UTC, or set SOPHIA_DISPATCHER_FALLBACK_MODEL to a model with quota"

-- The threshold in force.
abbrev pub resolve_threshold : ℕ → ℕ
resolve_threshold zero = 3
resolve_threshold (suc n) = suc n

-- The board before the groups run: a board that is not building is a reused one.
unfoldable pub start_board : Site → Board → Board × Option String
unfolding Board.start
start_board site b =
    if is_building b.status then ((Board.start b).0, site.save_board) else (b, none)

-- With a target path the delivered groups are copied there.
unfoldable pub copies : Site → GroupsRun → List Worktrees.Event
unfolding materialize_worktrees
copies site run =
    if str_eq site.shell.target_path ""
    then []
    else materialize_worktrees site.shell run.results run.groups

-- What follows the groups.
unfoldable pub conclude_run : Site → Change → Board → GroupsRun → Execution
unfolding finalize fail_env copies
conclude_run site c b run =
    let ended = record b { groups = run.groups } in
    let final = finalize site.count_text c ended run.results in
    let seen = board_created b.id (length b.groups) ∷ map group_event run.events in
    if run.breaker.tripped
    then record {
      envelope = fail_env c quota_reason;
      failed = false;
      board = some ended;
      events =
          seen
          ++ quota_aborted run.breaker.threshold run.breaker.streak run.breaker.last_quota_err ∷ [];
    }
    else record {
      envelope = final.1;
      failed = false;
      board = some final.0;
      events = seen ++ map worktree_event (copies site run);
    }

unfoldable pub run_board : Site → Change → ℕ → Board → Execution
unfolding start_board run_groups conclude_run QuotaBreaker.new
run_board site c phase_id b =
    let (b', refused) = start_board site b in
    let breaker = QuotaBreaker.new (resolve_threshold site.threshold) in
    let run = run_groups site.turn c phase_id b'.groups breaker [] in
    elim refused [
      | some text ↦ pre_flight_failure c (text_append "save board: " text) (some b')
      | none ↦ conclude_run site c b' run
    ]

-- The steps from a tasks list with groups to the board.
unfoldable pub set_up : Site → Change → ℕ → TasksList → Answer (Board × List Event)
unfolding build_board create_worktrees
set_up site c phase_id tl = elim site.prior_context [
  | some text ↦ Answer.err (text_append "load prior context: " text)
  | none ↦ elim (build_board site.build phase_id tl) [
    | Answer.err text ↦ Answer.err (text_append "build board: " text)
    | Answer.ok b ↦ elim (create_worktrees site.shell c b.groups) [
      | Answer.err text ↦ Answer.err (text_append "create worktrees: " text)
      | Answer.ok made ↦ Answer.ok (record b { groups = made.0 }, map worktree_event made.1)
    ]
  ]
]

-- The steps before the board starts.
unfoldable pub prepare : Site → Change → ℕ → Answer (Board × List Event)
unfolding set_up
prepare site c phase_id = elim site.tasks_list [
  | Answer.err text ↦ Answer.err (text_append "load tasks: " text)
  | Answer.ok tl ↦
      if is_nil tl.groups then Answer.err "tasks list has no groups" else set_up site c phase_id tl
]

abbrev pub after_set_up : List Event → Execution → Execution
after_set_up es x = record x { events = es ++ x.events }

unfoldable pub execute : Site → Change → ℕ → Execution
unfolding prepare run_board fail_env
execute site c phase_id = elim (prepare site c phase_id) [
  | Answer.err text ↦ pre_flight_failure c text none
  | Answer.ok (b, es) ↦ after_set_up es (run_board site c phase_id b)
]
