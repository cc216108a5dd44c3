-- ===== src/Worker.antt =====
-- infra/engine/runtime: what a worker does before and after it runs a task.
pub mod Lock
pub mod Queue
pub mod Registry
pub mod Reporter
pub mod Executor
pub mod Heartbeat
pub mod Serve
mod Samples
mod ServeSamples
