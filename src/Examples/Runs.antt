-- ===== src/Examples/Runs.antt =====
-- internal/application/apply/run.go at a concrete board: two groups, of which the second waits for the
-- first, with one task each.
use sophia_orchestrator.Prelude.{
  ℕ, ◌*◌, Bool, true, false, List, [], ◌∷◌, none, some, ◌≡◌, refl, pos, All, Memᴰ,
}
use sophia_orchestrator.Envelope
use sophia_orchestrator.Envelope.{Envelope}
use sophia_orchestrator.Phase.Types.{PhaseType}
use sophia_orchestrator.Change
use sophia_orchestrator.Change.{Change}
use sophia_orchestrator.Session
use sophia_orchestrator.Session.{Session, Provider}
use sophia_orchestrator.Apply.Task.{Task, TaskStatus}
use sophia_orchestrator.Apply.Group.{Group, GroupStatus, GroupBuildStatus}
use sophia_orchestrator.Apply.Board.{Board, BoardStatus}
use sophia_orchestrator.Apply.BuildFeedback.{absent}
use sophia_orchestrator.Apply.Coordinator.{ready}
use sophia_orchestrator.Apply.QuotaBreaker
use sophia_orchestrator.Apply.Implement.{answered, failed, claimed}
use sophia_orchestrator.Apply.Saturation.{granted}
use sophia_orchestrator.Apply.TeamLead.{Answers, run_team_lead}
use sophia_orchestrator.Apply.TeamLead.Sound.{Delivered, run_team_lead-Delivered}
use sophia_orchestrator.Apply.TeamLead.Cancelled.{lead_session_never_starts}
use sophia_orchestrator.Apply.Run
use sophia_orchestrator.Apply.Run.{execute}
use sophia_orchestrator.Apply.Run.Delivered.{Whole, execute_done_delivers}
use sophia_orchestrator.Apply.Run.Blocked.{failed_group_blocks}
use sophia_orchestrator.Apply.Run.Cancelled.{cancelled_run_reports_done}
use sophia_orchestrator.PhaseService.{ok}
use sophia_orchestrator.Examples.Builds.{build_site, tasks_list}

abbrev done_envelope : Envelope
done_envelope = record {
  schema_version = "v1";
  phase = "apply";
  change_name = "add-login";
  project = "shop";
  status = Envelope.Status.done;
  confidence = pos 900_000;
  executive_summary = "";
  artifacts_saved = [];
  next_recommended = [];
  risks = [];
  payload = "";
}

abbrev shop : Change
shop = record {
  id = 2;
  name = "add-login";
  project = "shop";
  status = Change.Status.active;
  current_phase = PhaseType.apply;
  artifact_store = Change.ArtifactStoreMode.inline;
  base_ref = "main";
  created_at = 1;
  updated_at = 1;
}

abbrev one_task : ℕ → Task
one_task i = record {
  id = i;
  group_id = 1;
  description = "write it";
  files_pattern = "main.go" ∷ [];
  status = TaskStatus.pending;
  claimed_by = none;
  attempts = 0;
  envelope = none;
}

abbrev one_group : ℕ → GroupStatus → List ℕ → Group
one_group i s deps = record {
  id = i;
  board_id = 9;
  name = "api";
  depends_on = deps;
  tasks = one_task (10 * i) ∷ [];
  status = s;
  worktree_path = "";
  branch_name = "";
  build_status = GroupBuildStatus.pending;
  build_attempts = 0;
}

-- The agents answer with done, as far as they get a turn: `admitted`.
abbrev lead : Bool → Answers
lead admitted = record {
  saves_start = true;
  spawn = record {
    session_id = some 30;
    provider = Provider.opencode;
    hash_prompt = λ _. "hash";
    now = 5;
    saved = true;
  };
  task_turn = λ _. record {
    admitted = admitted;
    has_fallback = false;
    claim = claimed;
    turns = λ _. record {
      cancelled = false;
      acquired = true;
      primary = answered done_envelope;
      fallback = failed;
    };
  };
  fuel = 3;
  detection = absent;
  builds = λ _. true;
  saves_end = true;
  saves_session = true;
  now = 60;
  count_text = λ _. "";
}

abbrev board : GroupStatus → Board
board s = record {
  id = 9;
  phase_id = 4;
  status = BoardStatus.building;
  groups = one_group 1 s [] ∷ one_group 2 GroupStatus.pending (1 ∷ []) ∷ [];
}

abbrev site : Bool → GroupStatus → Run.Site
site admitted s = record {
  tasks_list = ok tasks_list;
  prior_context = none;
  build = build_site (some (board s));
  shell = record {
    path = λ _. "/w";
    save_group = λ _. none;
    mkdir = λ _. true;
    cp = λ _. true;
    worktree_init_is_empty = false;
    source_repo_path = "/src";
    target_path = "/out";
    mkdir_target = λ _. true;
    cp_to_target = λ _. true;
  };
  save_board = none;
  threshold = 0;
  turn = λ _. record {
    waited = ready;
    admitted = admitted;
    governor = λ _. granted;
    cancelled = λ _. false;
    lead = lead true;
  };
  count_text = λ _. "";
}

abbrev in_worktree : Group → Group
in_worktree g = record g { worktree_path = "/w"; branch_name = "sophia/add-login/api" }

-- The board once its groups have their directories.
abbrev set_up : GroupStatus → Board
set_up s = record (board s) {
  groups =
      in_worktree (one_group 1 s []) ∷ in_worktree (one_group 2 GroupStatus.pending (1 ∷ [])) ∷ [];
}

execute_done_delivers_example :
    (ended : Board) × ((execute (site true GroupStatus.pending) shop 4).board ≡ some ended)
    × All Whole ended.groups
unfolding execute
execute_done_delivers_example =
    execute_done_delivers (site true GroupStatus.pending) shop 4 (set_up GroupStatus.pending) []
      refl ((refl, tt), (tt, tt))
      (
        record {
          admitted = refl;
          runnable = record { admitted = (refl, tt); distinct = (tt, tt); idle = (refl, tt) };
          earlier = λ h. absurd (cc);
        },
        (
          record {
            admitted = refl;
            runnable = record { admitted = (refl, tt); distinct = (tt, tt); idle = (refl, tt) };
            earlier = λ h. absurd (cc);
          },
          tt,
        ),
      )
      refl

failed_group_blocks_example :
    (execute (site true GroupStatus.failed) shop 4).envelope.status ≡ Envelope.Status.blocked
unfolding execute
failed_group_blocks_example =
    failed_group_blocks (site true GroupStatus.failed) shop 4 (set_up GroupStatus.failed) []
      (in_worktree (one_group 1 GroupStatus.failed [])) refl ((refl, tt), (tt, tt))
      (refl, (refl, tt)) (Memᴰ.head refl) refl

cancelled_run_reports_done_example :
    ((execute (site false GroupStatus.pending) shop 4).envelope.status ≡ Envelope.Status.done)
    × ((ended : Board) × ((execute (site false GroupStatus.pending) shop 4).board ≡ some ended)
        × (ended.groups ≡ (set_up GroupStatus.pending).groups))
unfolding execute
cancelled_run_reports_done_example =
    cancelled_run_reports_done (site false GroupStatus.pending) shop 4 (set_up GroupStatus.pending)
      [] refl refl
      (
        record { unfinished = refl; past = refl; refused = refl },
        (record { unfinished = refl; past = refl; refused = refl }, tt),
      )

run_team_lead-Delivered_example :
    Delivered
      (run_team_lead (lead true) shop 4 (one_group 1 GroupStatus.pending []) (QuotaBreaker.new 3))
unfolding run_team_lead
run_team_lead-Delivered_example =
    run_team_lead-Delivered (lead true) shop 4 (one_group 1 GroupStatus.pending [])
      (QuotaBreaker.new 3)
      (record { admitted = (refl, tt); distinct = (tt, tt); idle = (refl, tt) }) refl

-- The session that the team lead makes.
abbrev lead_session : Session
lead_session = record {
  id = 30;
  change_id = 2;
  phase_id = 4;
  role = Session.AgentRole.team_lead;
  provider = Provider.opencode;
  worktree_id = none;
  prompt_sha256 = "hash";
  command = "team-lead orchestrating api";
  status = Session.Status.pending;
  exit_code = none;
  envelope = none;
  started_at = 5;
  ended_at = none;
}

lead_session_never_starts_example : lead_session.status ≡ Session.Status.pending
unfolding run_team_lead
lead_session_never_starts_example =
    lead_session_never_starts (lead true) shop 4 (one_group 1 GroupStatus.pending [])
      (QuotaBreaker.new 3) lead_session refl
