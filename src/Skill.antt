-- ===== src/Skill.antt =====
-- internal/domain/skill and internal/application/skill: the skills and their life cycle.
pub mod Statuses
pub mod Techniques
pub mod Lifecycle
pub mod Transition
pub mod Aggregate
