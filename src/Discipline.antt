-- ===== src/Discipline.antt =====
-- internal/application/discipline: what the orchestrator demands of its agents.
pub mod Validator
pub mod IronLaw
pub mod SpawnGovernor
