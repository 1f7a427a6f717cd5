-- ===== src/Session.antt =====
-- internal/domain/session and internal/adapters/outbound/pg/session_repo.go: one call of an agent
-- process. A method on `*Session` returns the new record with the error, `none` for nil.
use sophia_orchestrator.Prelude.{
  ℕ, zero, ◌==◌, String, ℤ, pos, Bool, true, false, not, List, [], ◌∷◌, Option, none, some, str_eq,
  if◌then◌else◌,
}
use sophia_orchestrator.Envelope.{Envelope}
use sophia_orchestrator.Phase.Types.{PhaseType}

-- `unknown s` is a text `s` that is none of the constants.
pub data AgentRole : Type 0 where
  sdd_init sdd_explore sdd_proposal sdd_spec sdd_design sdd_tasks sdd_verify sdd_archive team_lead
        implement :
      AgentRole
  unknown : String → AgentRole

abbrev pub is_role : AgentRole → Bool
is_role (AgentRole.unknown _) = false
is_role _ = true

pub data Provider : Type 0 where
  opencode ollama aider claude_code cursor gemini mcp : Provider
  unknown : String → Provider

abbrev pub is_provider : Provider → Bool
is_provider (Provider.unknown _) = false
is_provider _ = true

pub data Status : Type 0 where
  pending running done failed timeout : Status
  unknown : String → Status

unfoldable pub is_terminal : Status → Bool
is_terminal Status.done = true
is_terminal Status.failed = true
is_terminal Status.timeout = true
is_terminal _ = false

pub data Error : Type 0 where
  invalid_role invalid_provider empty_prompt_hash empty_command terminal not_running : Error

pub record Session : Type 0 where
  pub id : ℕ
  pub change_id : ℕ
  pub phase_id : ℕ
  pub role : AgentRole
  pub provider : Provider
  pub worktree_id : Option ℕ
  pub prompt_sha256 : String
  pub command : String
  pub status : Status
  pub exit_code : Option ℤ
  pub envelope : Option Envelope
  pub started_at : ℕ
  pub ended_at : Option ℕ

pub data Created : Type 0 where
  ok : Session → Created
  err : Error → Created

unfoldable pub new : ℕ → ℕ → ℕ → AgentRole → Provider → String → String → ℕ → Created
new id change_id phase_id role provider prompt_sha256 command started_at =
    if not (is_role role)
    then err invalid_role
    else if not (is_provider provider)
    then err invalid_provider
    else if str_eq prompt_sha256 ""
    then err empty_prompt_hash
    else if str_eq command ""
    then err empty_command
    else ok (record {
      id = id;
      change_id = change_id;
      phase_id = phase_id;
      role = role;
      provider = provider;
      worktree_id = none;
      prompt_sha256 = prompt_sha256;
      command = command;
      status = Status.pending;
      exit_code = none;
      envelope = none;
      started_at = started_at;
      ended_at = none;
    })

abbrev is_pending : Status → Bool
is_pending Status.pending = true
is_pending _ = false

abbrev is_running : Status → Bool
is_running Status.running = true
is_running _ = false

unfoldable pub assign_worktree : ℕ → Session → Session
assign_worktree wid s = record s { worktree_id = some wid }

unfoldable pub mark_running : Session → Session × Option Error
mark_running s =
    if not (is_pending s.status)
    then (s, some terminal)
    else (record s { status = Status.running }, none)

-- `exit == 0`
abbrev exit_status : ℤ → Status
exit_status (pos zero) = Status.done
exit_status _ = Status.failed

unfoldable pub record_outcome : Option Envelope → ℤ → ℕ → Session → Session × Option Error
record_outcome env exit ended_at s = if not (is_running s.status) then (s, some not_running) else (
  record s {
    envelope = env;
    exit_code = some exit;
    ended_at = some ended_at;
    status = exit_status exit;
  },
  none,
)

unfoldable pub mark_timeout : ℕ → Session → Session × Option Error
unfolding is_terminal
mark_timeout ended_at s =
    if is_terminal s.status
    then (s, some terminal)
    else (record s { status = Status.timeout; ended_at = some ended_at }, none)

-- The role of `roleFor` in internal/application/phase/service.go.
unfoldable pub role_for : PhaseType → AgentRole
role_for PhaseType.init = AgentRole.sdd_init
role_for PhaseType.explore = AgentRole.sdd_explore
role_for PhaseType.proposal = AgentRole.sdd_proposal
role_for PhaseType.spec = AgentRole.sdd_spec
role_for PhaseType.design = AgentRole.sdd_design
role_for PhaseType.tasks = AgentRole.sdd_tasks
role_for PhaseType.verify = AgentRole.sdd_verify
role_for PhaseType.archive = AgentRole.sdd_archive
role_for PhaseType.apply = AgentRole.team_lead
role_for (PhaseType.unknown _) = AgentRole.sdd_explore

-- The row of the session in `agent_sessions`: one that exists takes the columns of the update.
unfoldable pub save : Session → List Session → List Session
save s [] = s ∷ []
save s (r ∷ rs) =
    let rest = save s rs in
    if r.id == s.id
    then record r {
      status = s.status;
      exit_code = s.exit_code;
      envelope = s.envelope;
      ended_at = s.ended_at;
      worktree_id = s.worktree_id;
    }
      ∷ rs
    else r ∷ rest
