-- ===== src/Lib.antt =====
-- The orchestrator of SDD changes (sophia-orchestrator): a change is driven through nine phases. A
-- phase agent answers with an envelope, which the discipline layer validates and may coerce; the
-- phase aggregate records it within its retry budget, and the change aggregate advances to the
-- next phase of the canonical order. The apply phase splits its work into a board of groups and
-- tasks: the groups wait for each other through the coordinator, agents are spawned under the cap
-- of the spawn governor, failed tasks escalate after three attempts, a circuit breaker stops the
-- run on repeated quota errors, and a build gate closes a group. Around these stand the outbox
-- with its relay, the event stream, the rate guard of the bootstrap, the recovery at boot, the
-- trace ids and the skills.
--
-- The parts and their files (paths from the root of the repository):
--   Envelope: internal/domain/envelope. `parse` and `validate` are Parse and Envelope.Validate.
--   Phase: internal/domain/phase, with Types (type.go) and Statuses (status.go). `start`,
--     `complete`, `mark_interrupted`, `restart` and `set_concerns` are the methods of Phase.
--     Lifecycle is about sequences of calls, Completion about `complete`.
--   Change: internal/domain/change. Sequence is about the order of the phases.
--   Discipline: internal/application/discipline and internal/domain/ironlaw. Validator is
--     validator.go, IronLaw is laws.go with ironlaw_checker.go, SpawnGovernor is spawn_governor.go
--     with internal/adapters/outbound/pg/spawn_governor_state.go.
--   Apply: internal/domain/apply and internal/application/apply. Task, Group and Board are the
--     aggregates, Dag is ValidateDAG in group.go, Coordinator is dag.go, BuildFeedback is the loop
--     of build_feedback.go, QuotaBreaker is quotaBreaker in run.go, Implement is
--     runImplementWithRetry in teamlead.go, Tasks and TeamLead are runTeamLead there, Saturation is
--     acquireWithSaturationRetries. Of run.go, Build is buildBoard, Worktrees createWorktrees and
--     materializeWorktrees, Groups runAllGroups, Finalize finalize and failEnv, Run Execute. The
--     goroutines of groups and tasks stand in the order of the board: they share the breaker and a
--     map with one key each, and what each meets (its wait, its slot, its agents, a context that is
--     done) is given. A member without a slot writes no entry into the map.
--   Recovery: internal/application/recovery/service.go.
--   Outbox: internal/domain/outbox, internal/application/outbox/relay.go and the statements of
--     internal/adapters/outbound/pg/outbox_repo.go.
--   EventStream: internal/application/eventstream/stream.go.
--   RateGuard: internal/application/bootstrap/rateguard.go.
--   Trace: internal/domain/trace/trace.go.
--   Skill: internal/domain/skill (Statuses, Lifecycle, Techniques, Aggregate), and
--     internal/application/skill (Transition: PatchStatus in service.go and transition_path.go).
--   Session and SkillUsage: internal/domain/session, internal/domain/skillusage and their tables.
--   Worktree: internal/domain/worktree; the directories of the apply groups do not use it.
--   Store: the tables, with the statements of internal/adapters/outbound/pg (Phases: phase_repo.go
--     over migrations/postgres/002_phases.up.sql, Changes: change_repo.go and the transaction of
--     outbox_repo.go). Unique and Latest are about the keys and the queries of the phases,
--     Read is about the row of a saved change.
--   PhaseService: internal/application/phase. Requests is Run and Resume, Gate is Approve and
--     Reject, Work is runAsync with its init and apply branches, Agent the flow of a single agent,
--     Finish and Advance its end, Failing is failPhase.
--   ChangeService: internal/application/change/service.go.
--   Prelude holds the shared names and lemmas, Examples the properties at concrete inputs.
--
-- How the code is rendered. A method on a pointer takes the record and returns it with the error,
-- `none` for nil. A string enumeration is a data type with a constructor for each constant and
-- `unknown` for every other text. float64 confidences are integers in units of 10^-6, identifiers
-- and times are natural numbers. What a mutex, an advisory lock or a single SQL statement makes
-- atomic is one step, and concurrency is a list of such steps in any order. External answers (the
-- JSON decoder, HTTP deliveries, SQL writes, builds, random bytes, the scheduler) are arguments; for the
-- phase service they are the record `Answers`, which says for each place in the code whether the
-- statement there works. A request of the service gives the store after it with its answer; the work
-- that it schedules is a `Job`, which `run_async` carries out as one step.
--
-- Bounds. ValidateDAG recurses on fuel, the number of groups plus one: each nested visit colours
-- one more group. The build loop takes fuel for the attempts that are left. The search of
-- transition_path.go takes fuel for its six statuses and two more. The governor's loop runs over
-- the list of the answers that it meets.
--
-- Not modelled: the prior context of prompts and the bootstrap trigger of the phase service, the
-- reading of the tasks list and the prior context of the apply phase, the dispatch of an implement
-- agent, the reevaluation of skills, prompts, the project detectors, HTTP
-- handlers, clients and dispatchers, SQL statements other than those named above, configuration,
-- wiring, logs and metrics.
pub mod Prelude
pub mod Envelope
pub mod Phase
pub mod Discipline
pub mod Change
pub mod Apply
pub mod Recovery
pub mod Outbox
pub mod EventStream
pub mod RateGuard
pub mod Trace
pub mod Skill
pub mod Examples
pub mod ChangeService
pub mod PhaseService
pub mod Session
pub mod Worktree
pub mod SkillUsage
pub mod Store
