-- ===== src/Scheduler/Events.antt =====
-- infra/engine/scheduler/watch.go: one task event of a workflow, as `watchWorkflowStatus` handles it.
use vibeflow.Prelude.{
  Bool, true, false, not, ◌&&◌, ◌||◌, String, none, some, has, insert, string_eq, if◌then◌else◌,
  ◌==◌,
}
use vibeflow.Model.Workflow.{WorkflowState}
use vibeflow.Store.{TaskPayload, TaskStatus}
use vibeflow.Scheduler.State.{
  task_completed, task_failed, broadcast, notify_listener, release_slot, snapshot, save_task_record,
  delete_key, Entry, System, emit, lock_entry, put_entry,
}
use vibeflow.Scheduler.Saga.{handle_rollback_completed}
use vibeflow.Scheduler.Failure.{handle_task_failed}

-- `cleanupTaskEtcdKey`; a failed delete is only logged.
unfoldable pub cleanup_task_etcd_key : TaskPayload → System → System
unfolding emit
cleanup_task_etcd_key p s = if p.etcd_key == "" then s else emit (delete_key p.etcd_key) s

unfoldable pub record_task_completed : String → TaskPayload → System → System
unfolding emit put_entry cleanup_task_etcd_key
record_task_completed uuid p s = elim (lock_entry uuid s) [
  | none ↦ s
  | some e ↦
      let st = record (e.state) {
        completed_tasks = insert p.task_name p.output e.state.completed_tasks;
      } in
      cleanup_task_etcd_key p (
        emit (broadcast task_completed uuid) (
          emit (save_task_record uuid p.task_name)
            (emit (snapshot uuid) (put_entry uuid (record e { state = st }) s))))
]

unfoldable pub record_task_failed : String → TaskPayload → System → System
unfolding emit put_entry cleanup_task_etcd_key
record_task_failed uuid p s =
    let marked : System = elim (lock_entry uuid s) [
      | none ↦ s
      | some e ↦
          let st = record (e.state) {
            failed_tasks = insert p.task_name p.result e.state.failed_tasks;
          } in
          put_entry uuid (record e { state = st }) s
    ] in
    cleanup_task_etcd_key p (emit (broadcast task_failed uuid) (emit (snapshot uuid) marked))

-- Whether the event is an old one, to be passed over.
unfoldable pub is_stale : Entry → TaskPayload → Bool
is_stale e p =
    (not p.rollback && has p.task_name e.state.failed_tasks)
    || (e.recovered && has p.task_name e.state.completed_tasks)

unfoldable pub handle_event : TaskStatus → String → WorkflowState → TaskPayload → System → System
unfolding handle_rollback_completed record_task_completed record_task_failed handle_task_failed emit
handle_event TaskStatus.completed uuid st p s =
    if p.rollback
    then handle_rollback_completed uuid p s
    else emit (release_slot uuid)
        (emit (notify_listener uuid p.task_name p) (record_task_completed uuid p s))
handle_event TaskStatus.failed uuid st p s =
    if p.rollback
    then handle_rollback_completed uuid p s
    else handle_task_failed uuid st.workflow p
        (emit (notify_listener uuid p.task_name p) (record_task_failed uuid p s))
handle_event _ uuid st p s = s

-- One round of the loop: the new state, and whether the loop goes on.
unfoldable pub watch_event : String → TaskPayload → System → System × Bool
unfolding handle_event is_stale
watch_event uuid p s = elim (lock_entry uuid s) [
  | none ↦ (s, false)
  | some e ↦ if is_stale e p then (s, true) else (handle_event p.status uuid e.state p s, true)
]
