-- ===== src/Scheduler/Workers.antt =====
-- infra/engine/scheduler/worker_manager.go: the workers that the master knows, and their counts.
-- Each event is handled under the manager's lock. Time is in nanoseconds.
pub mod Counts
pub mod Types
use vibeflow.Prelude.{
  ℕ, zero, suc, ◌+◌, Bool, true, false, String, List, [], ◌∷◌, Map, Option, none, some, ℤ, pos,
  negsuc, ◌+ℤ◌, lookup, insert, delete, string_eq, ltb, if◌then◌else◌,
}
use vibeflow.Worker.Registry.{TaskType}
use vibeflow.Store.{HeartbeatPayload}

-- domain/model/worker.go.
pub data WorkerStatus : Type 0 where
  alive dead : WorkerStatus

pub record WorkerState : Type 0 where
  pub worker_id : String
  pub tasks : List String
  pub status : WorkerStatus
  pub started_at : ℕ
  pub alive_at : ℕ

pub record WorkerManager : Type 0 where
  pub workers : Map String WorkerState
  pub task_registry : Map String TaskType
  pub worker_type_hash : Map String String
  pub alive_count : ℤ
  pub dead_count : ℤ

abbrev pub minus_one : ℤ → ℤ
minus_one n = n +ℤ negsuc 0

abbrev pub plus_one : ℤ → ℤ
plus_one n = n +ℤ pos 1

unfoldable pub leave_dead : WorkerStatus → ℤ → ℤ
leave_dead dead n = minus_one n
leave_dead alive n = n

-- The branch `EventPut` of `processHeartbeatEvents`, up to the task types.
unfoldable pub put_heartbeat : HeartbeatPayload → WorkerManager → WorkerManager
unfolding leave_dead
put_heartbeat hb m = elim (lookup hb.worker_id m.workers) [
  | some w ↦ record m {
    workers =
        insert hb.worker_id (record w { status = alive; alive_at = hb.alive_at; tasks = hb.tasks })
          m.workers;
    dead_count = leave_dead w.status m.dead_count;
  }
  | none ↦ record m {
    workers =
        insert hb.worker_id
          (record {
            worker_id = hb.worker_id;
            tasks = hb.tasks;
            status = alive;
            started_at = hb.started_at;
            alive_at = hb.alive_at;
          })
          m.workers;
    alive_count = plus_one m.alive_count;
  }
]

unfoldable pub count_out : WorkerStatus → WorkerManager → WorkerManager
count_out alive m = record m { alive_count = minus_one m.alive_count }
count_out dead m = record m { dead_count = minus_one m.dead_count }

-- The branch `EventDelete`.
unfoldable pub delete_worker : String → WorkerManager → WorkerManager
unfolding count_out
delete_worker id m = elim (lookup id m.workers) [
  | none ↦ m
  | some w ↦ count_out w.status (record m { workers = delete id m.workers })
]

unfoldable pub mark_one : WorkerState → WorkerState
mark_one w = record w { status = dead }

unfoldable pub is_stale : WorkerStatus → ℕ → ℕ → ℕ → Bool
is_stale dead now threshold at = false
is_stale alive now threshold at = ltb (at + threshold) now

-- The workers after the check, and how many have been found dead.
unfoldable pub mark_all : ℕ → ℕ → Map String WorkerState → Map String WorkerState × ℕ
unfolding mark_one is_stale
mark_all now threshold [] = ([], 0)
mark_all now threshold ((id, w) ∷ m) =
    let rest = mark_all now threshold m in
    if is_stale w.status now threshold w.alive_at
    then ((id, mark_one w) ∷ rest.0, suc rest.1)
    else ((id, w) ∷ rest.0, rest.1)

abbrev pub minus : ℤ → ℕ → ℤ
minus n zero = n
minus n (suc k) = n +ℤ negsuc k

-- `markStaleWorkers`.
unfoldable pub mark_stale_workers : ℕ → ℕ → WorkerManager → WorkerManager
unfolding mark_all
mark_stale_workers now threshold m =
    let marked = mark_all now threshold m.workers in
    record m {
      workers = marked.0;
      alive_count = minus m.alive_count marked.1;
      dead_count = m.dead_count +ℤ pos marked.1;
    }

-- `TotalCount`.
unfoldable pub total_count : WorkerManager → ℤ
total_count m = m.alive_count +ℤ m.dead_count
