-- ===== src/Model.antt =====
-- domain/model: what master and worker share.
pub mod Value
pub mod Context
pub mod Workflow
pub mod Policy
pub mod Index
pub mod Builder
pub mod Delta
pub mod Mapping
pub mod Samples
