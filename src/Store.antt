-- ===== src/Store.antt =====
-- infra/store/model.go: the records that master and workers exchange through etcd.
pub mod Scan
mod Samples
use vibeflow.Prelude.{ℕ, Bool, String, List, ℤ}
use vibeflow.Model.Value.{Output}
use vibeflow.Worker.Registry.{TaskType}

pub data TaskStatus : Type 0 where
  pending running completed failed : TaskStatus

-- `TaskPayload` without its tracing fields. A retry count and a backoff are not negative.
pub record TaskPayload : Type 0 where
  pub workflow_id : String
  pub task_name : String
  pub status : TaskStatus
  pub priority : ℤ
  pub params : Output
  pub input : Output
  pub output : Output
  pub result : String
  pub retry_count : ℕ
  pub max_retries : ℤ
  pub timeout_sec : ℤ
  pub base_backoff : ℕ
  pub rollback : Bool
  pub no_retry : Bool
  pub etcd_mod_revision : ℕ
  pub etcd_key : String

-- A worker's heartbeat; times are in nanoseconds.
pub record HeartbeatPayload : Type 0 where
  pub worker_id : String
  pub tasks : List String
  pub task_types : List TaskType
  pub task_types_hash : String
  pub started_at : ℕ
  pub alive_at : ℕ
