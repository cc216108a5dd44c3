-- ===== src/Scheduler.antt =====
-- infra/engine/scheduler: the master.
pub mod State
pub mod Backoff
pub mod Saga
pub mod Failure
pub mod Events
pub mod Lifecycle
pub mod History
pub mod Rollback
pub mod Outcome
pub mod Init
pub mod Reload
pub mod Dispatch
pub mod Watchers
pub mod Listeners
pub mod Snapshot
pub mod Persist
pub mod Deltas
pub mod Trigger
pub mod Webhook
pub mod Workers
pub mod Closed
pub mod Samples
mod CallSamples
mod DispatchSamples
mod WatchSamples
mod StoreSamples
mod RecoverySamples
mod FleetSamples
