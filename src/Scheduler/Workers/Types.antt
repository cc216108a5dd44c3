-- ===== src/Scheduler/Workers/Types.antt =====
-- infra/engine/scheduler/worker_manager.go: the task types that the master knows from heartbeats.
pub mod Announced
use vibeflow.Prelude.{
  Bool, true, false, not, ◌&&◌, ◌==◌, String, List, [], ◌∷◌, Map, Option, none, some, pos, lookup,
  insert, string_eq, length, if◌then◌else◌,
}
use vibeflow.Worker.Registry.{Param, TaskType}
use vibeflow.Store.{HeartbeatPayload}
use vibeflow.Scheduler.Workers.{WorkerState, WorkerManager, alive, put_heartbeat}

-- `deep_equal` is `reflect.DeepEqual`.
module _ (deep_equal : List Param → List Param → Bool) where
  same_type : TaskType → TaskType → Bool
  same_type old new = old.description == new.description && deep_equal old.params new.params

  -- `RegisterTaskType`, on the registry.
  unfoldable pub register_task_type : TaskType → Map String TaskType → Map String TaskType
  unfolding same_type
  register_task_type t m = elim (lookup t.name m) [
    | none ↦ insert t.name t m
    | some old ↦ if same_type old t then m else insert t.name t m
  ]

  unfoldable pub register_task_types : List TaskType → Map String TaskType → Map String TaskType
  unfolding register_task_type
  register_task_types [] m = m
  register_task_types (t ∷ ts) m = register_task_types ts (register_task_type t m)

  abbrev pub type_hash_of : String → WorkerManager → String
  type_hash_of id m = elim (lookup id m.worker_type_hash) [ none ↦ "" | some h ↦ h ]

  -- What the heartbeat says of the task types, once the worker is noted.
  unfoldable pub note_types : HeartbeatPayload → WorkerManager → WorkerManager
  unfolding register_task_types
  note_types hb m =
      if not (hb.task_types_hash == "") && hb.task_types_hash == type_hash_of hb.worker_id m
      then m
      else record m {
        worker_type_hash = insert hb.worker_id hb.task_types_hash m.worker_type_hash;
        task_registry = register_task_types hb.task_types m.task_registry;
      }

  -- The whole branch `EventPut` of `processHeartbeatEvents`.
  unfoldable pub hear : HeartbeatPayload → WorkerManager → WorkerManager
  unfolding note_types put_heartbeat
  hear hb m = note_types hb (put_heartbeat hb m)

  -- The watch delivers what was written, in order.
  unfoldable pub hear_written : Option HeartbeatPayload → WorkerManager → WorkerManager
  unfolding hear
  hear_written none m = m
  hear_written (some hb) m = hear hb m

  unfoldable pub hear_all : List (Option HeartbeatPayload) → WorkerManager → WorkerManager
  unfolding hear_written
  hear_all [] m = m
  hear_all (o ∷ os) m = hear_all os (hear_written o m)

-- One record of `scanExistingWorkers`, under the lock of the manager.
unfoldable pub scanned : String → HeartbeatPayload → WorkerManager → WorkerManager
scanned id hb m = record m {
  workers =
      insert id
        (record {
          worker_id = hb.worker_id;
          tasks = hb.tasks;
          status = alive;
          started_at = hb.started_at;
          alive_at = hb.alive_at;
        })
        m.workers;
  worker_type_hash = insert id hb.task_types_hash m.worker_type_hash;
}

-- There is no manager where `RegisterTaskType` is called: it waits for the lock that the scan holds.
unlocked : List TaskType → WorkerManager → Option WorkerManager
unlocked [] m = some m
unlocked (t ∷ ts) m = none

-- The loop of `scanExistingWorkers` over workers and what could be decoded of their records.
unfoldable pub scan_records :
    List (String × Option HeartbeatPayload) → WorkerManager → Option WorkerManager
unfolding scanned unlocked
scan_records [] m = some m
scan_records ((id, none) ∷ kvs) m = scan_records kvs m
scan_records ((id, some hb) ∷ kvs) m =
    let rest = scan_records kvs (scanned id hb m) in
    if id == ""
    then scan_records kvs m
    else elim (unlocked hb.task_types m) [ none ↦ none | some m' ↦ rest ]

counted : Option WorkerManager → Option WorkerManager
counted none = none
counted (some m) = some (record m { alive_count = pos (length m.workers) })

-- `scanExistingWorkers`; no records where etcd fails, and the scan then ends.
unfoldable pub scan_existing_workers :
    Option (List (String × Option HeartbeatPayload)) → WorkerManager → Option WorkerManager
unfolding scan_records counted
scan_existing_workers none m = some m
scan_existing_workers (some kvs) m = counted (scan_records kvs m)
