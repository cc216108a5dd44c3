-- ===== src/Scheduler/Watchers/Rescan/Keys.antt =====
-- infra/engine/scheduler/watch.go: what becomes of the key of a task whose end the scan brings.
use vibeflow.Prelude.{◌≡◌, refl, false, String, Option, some, has, string_eq, ◌==◌, if_false}
use vibeflow.Store.{TaskPayload}
use vibeflow.Scheduler.State.{Entry, System, delete_key, emit, lock_entry}
use vibeflow.Scheduler.Events.{record_task_completed, record_task_failed, cleanup_task_etcd_key}
use vibeflow.Scheduler.Watchers.Rescan.{
  TaskKeyValue, unstored, deserialize, fan_out_payload, is_missed, missed_among, missed_payload,
}

at_key : TaskKeyValue → TaskPayload → TaskPayload
unfolding unstored
at_key kv p = record (unstored p) { etcd_key = kv.key }

completed-at_key :
    (uuid : String) (kv : TaskKeyValue) (p : TaskPayload) (e : Entry) (s : System)
    → (kv.key == "") ≡ false
    → lock_entry uuid s ≡ some e
    → record_task_completed uuid (at_key kv p) s
      ≡ emit (delete_key kv.key) (record_task_completed uuid (unstored p) s)
unfolding record_task_completed cleanup_task_etcd_key at_key unstored
completed-at_key uuid kv p e s k there = rw (there, record_task_completed) (if_false _ _ _ k)

failed-at_key :
    (uuid : String) (kv : TaskKeyValue) (p : TaskPayload) (s : System)
    → (kv.key == "") ≡ false
    → record_task_failed uuid (at_key kv p) s
      ≡ emit (delete_key kv.key) (record_task_failed uuid (unstored p) s)
unfolding record_task_failed cleanup_task_etcd_key at_key unstored
failed-at_key uuid kv p s k = if_false _ _ _ k

-- That the records of the watch and of the scan are there, and that the record of the watch does all
-- that the one of the scan does, and takes the key away then.
abbrev pub LeavesKey :
    String → TaskKeyValue → System → Option TaskPayload → Option TaskPayload → Type 0
LeavesKey uuid kv t (some f) (some q) =
    (record_task_completed uuid f t ≡ emit (delete_key kv.key) (record_task_completed uuid q t))
    × (record_task_failed uuid f t ≡ emit (delete_key kv.key) (record_task_failed uuid q t))
LeavesKey uuid kv t f q = ⊥

-- For a stored record of a task that its running workflow has neither as completed nor as failed, the scan
-- hands out a record as the watch does. Recording the task as completed, or as failed, while the
-- workflow still runs, then does the same with both, except that after the scan the key stays in etcd.
pub missed_payload-LeavesKey :
    (unmarshal : String → Option TaskPayload) (kv : TaskKeyValue) (p : TaskPayload) (e d : Entry)
    (s t : System)
    → unmarshal kv.value ≡ some p
    → lock_entry p.workflow_id s ≡ some e
    → has p.task_name e.state.completed_tasks ≡ false
    → has p.task_name e.state.failed_tasks ≡ false
    → (kv.key == "") ≡ false
    → lock_entry p.workflow_id t ≡ some d
    → LeavesKey p.workflow_id kv t (fan_out_payload unmarshal kv) (missed_payload unmarshal s kv)
unfolding fan_out_payload missed_payload missed_among deserialize is_missed at_key unstored
missed_payload-LeavesKey unmarshal kv p e d s t read there c f k still =
    let fanned : fan_out_payload unmarshal kv ≡ some (at_key kv p) =
      rw (read, fan_out_payload) refl in
    let missed : missed_payload unmarshal s kv ≡ some (unstored p) =
      rw (read, missed_payload) (rw (there, missed_among) (rw (c, f) refl)) in
    rw (fanned, missed)
      (completed-at_key p.workflow_id kv p d t k still, failed-at_key p.workflow_id kv p t k)
