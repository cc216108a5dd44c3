-- ===== src/Validate.antt =====
-- infra/engine/scheduler/types.go: what a workflow definition must satisfy before it is accepted.
-- An error is a constructor for each message, with the values that the message shows.
pub mod Name
pub mod Node
pub mod Names
pub mod Tasks
pub mod Distinct
pub mod Samples
