-- ===== src/Execution.antt =====
-- infra/engine/scheduler/execution_manager.go and advanced_executor.go: the execution of the task
-- groups of a workflow.
pub mod Control
pub mod Run
pub mod Approval
pub mod Parallel
pub mod Loop
pub mod FanOut
pub mod SubWorkflow
pub mod Advanced
pub mod Operations
pub mod Built
mod Samples
mod NodeSamples
mod BuiltSamples
