-- ===== src/Examples.antt =====
-- The properties at concrete inputs: runs of the model that meet the hypotheses.
mod Builds
mod Runs
mod Services
mod Boards
mod Phases
mod Disciplines
mod Deliveries
mod Traces
mod Skills
mod Streams
