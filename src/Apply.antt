-- ===== src/Apply.antt =====
-- internal/domain/apply and internal/application/apply: the task board of the apply phase.
pub mod Task
pub mod Group
pub mod Board
pub mod Dag
pub mod Coordinator
pub mod BuildFeedback
pub mod QuotaBreaker
pub mod Implement
pub mod Tasks
pub mod TeamLead
pub mod Saturation
pub mod Build
pub mod Worktrees
pub mod Groups
pub mod Finalize
pub mod Run
