-- ===== src/Scheduler/Failure.antt =====
-- infra/engine/scheduler/watch.go and error_policy.go: what a failed task leads to.
use vibeflow.Prelude.{
  true, false, String, [], ◌∷◌, none, some, pos, ltb_ℤ, insert, delete, string_eq, if◌then◌else◌,
  ◌<>◌,
}
use vibeflow.Model.Value.{Output, bool, string}
use vibeflow.Model.Workflow.{
  Workflow, WorkflowState, WorkflowStatus, ErrorPolicy, ErrorPolicyType, TimeoutPolicy,
}
use vibeflow.Model.Policy.{get_task_error_policy, is_skippable, get_timeout_policy}
use vibeflow.Store.{TaskPayload, TaskStatus}
use vibeflow.Scheduler.State.{
  workflow_failed, task_skipped, broadcast, notify_listener, release_slot, retry_task,
  fire_task_failed, Entry, System, emit, lock_entry, put_entry, persist_workflow_locked,
}
use vibeflow.Scheduler.Backoff.{backoff, whole_seconds}
use vibeflow.Scheduler.Saga.{start_saga_rollback}

pub data ErrorPolicyAction : Type 0 where
  retry rollback skip fail_fast : ErrorPolicyAction

-- `defaultAction`.
unfoldable pub default_action : TaskPayload → ErrorPolicyAction
default_action p =
    if p.no_retry
    then rollback
    else if ltb_ℤ (pos p.retry_count) p.max_retries
    then retry
    else rollback

action_for : ErrorPolicyType → ErrorPolicy → TaskPayload → ErrorPolicyAction
unfolding default_action
action_for ErrorPolicyType.rollback ep p = rollback
action_for ErrorPolicyType.skip ep p = if is_skippable (some ep) p.task_name then skip else retry
action_for ErrorPolicyType.fail_fast ep p = fail_fast
action_for _ ep p = default_action p

-- `ResolveErrorPolicy`, which nothing in the repository calls.
unfoldable pub resolve_error_policy : WorkflowState → TaskPayload → ErrorPolicyAction
unfolding action_for default_action
resolve_error_policy st p = elim st.workflow.error_policy [
  | none ↦ default_action p
  | some ep ↦ action_for (get_task_error_policy (some ep) p.task_name) ep p
]

-- `markWorkflowFailed`. The listeners of the failure are told by the trigger manager.
unfoldable pub mark_workflow_failed : TaskPayload → String → System → System
unfolding persist_workflow_locked emit
mark_workflow_failed p err_msg s = emit (fire_task_failed p.workflow_id p.task_name) (
    emit (broadcast workflow_failed p.workflow_id) (elim (lock_entry p.workflow_id s) [
      | none ↦ s
      | some e ↦
          let st = record (e.state) {
            failed_tasks = insert p.task_name err_msg e.state.failed_tasks;
            status = WorkflowStatus.failed;
            error = err_msg;
          } in
          persist_workflow_locked p.workflow_id st
            (put_entry p.workflow_id (record e { state = st }) s)
    ]))

-- `ExecuteFailFast`.
unfoldable pub execute_fail_fast : String → TaskPayload → System → System
unfolding mark_workflow_failed emit
execute_fail_fast uuid p s =
    emit (broadcast workflow_failed uuid)
      (mark_workflow_failed p ("任务 " <> p.task_name <> " 失败（策略=fail_fast）: " <> p.result) s)

-- A payload that the master makes up itself.
abbrev pub fake_payload : String → String → String → TaskPayload
fake_payload uuid task result = record {
  workflow_id = uuid;
  task_name = task;
  status = TaskStatus.failed;
  priority = pos 0;
  params = [];
  input = [];
  output = [];
  result = result;
  retry_count = 0;
  max_retries = pos 0;
  timeout_sec = pos 0;
  base_backoff = 0;
  rollback = false;
  no_retry = false;
  etcd_mod_revision = 0;
  etcd_key = "";
}

-- `ExecuteRollback`.
unfoldable pub execute_rollback : String → TaskPayload → System → System
unfolding emit start_saga_rollback
execute_rollback uuid p s =
    start_saga_rollback uuid
      (fake_payload uuid p.task_name ("任务 " <> p.task_name <> " 失败（策略=rollback）: " <> p.result))
      (emit (broadcast workflow_failed uuid) s)

abbrev pub skip_output : TaskPayload → Output
skip_output p =
    ("_skipped", bool true)
    ∷ ("_error", string p.result)
    ∷ ("_skip_reason", string "error_policy_skip")
    ∷ []

-- The branch of `handleTaskFailed` for a task that may be skipped, with `ExecuteSkip`.
unfoldable pub execute_skip : String → TaskPayload → System → System
unfolding persist_workflow_locked emit
execute_skip uuid p s =
    let marked : System = elim (lock_entry uuid s) [
      | none ↦ s
      | some e ↦
          let st = record (e.state) {
            completed_tasks = insert p.task_name (skip_output p) e.state.completed_tasks;
            failed_tasks = delete p.task_name e.state.failed_tasks;
          } in
          persist_workflow_locked uuid st (put_entry uuid (record e { state = st }) s)
    ] in
    let skipped = record (fake_payload uuid p.task_name "") {
      status = TaskStatus.completed;
      output = skip_output p;
    } in
    emit (release_slot uuid)
      (emit (notify_listener uuid p.task_name skipped) (emit (broadcast task_skipped uuid) marked))

unfoldable pub fail_workflow : String → TaskPayload → System → System
unfolding emit start_saga_rollback
fail_workflow uuid p s =
    emit (release_slot uuid) (start_saga_rollback uuid p (emit (broadcast workflow_failed uuid) s))

-- The part of `handleTaskFailed` after the error policy.
unfoldable pub default_failure : String → TaskPayload → System → System
unfolding fail_workflow emit
default_failure uuid p s =
    if p.no_retry
    then fail_workflow uuid p s
    else if ltb_ℤ (pos p.retry_count) p.max_retries
    then emit (retry_task p (whole_seconds (backoff p))) (emit (release_slot uuid) s)
    else fail_workflow uuid p s

unfoldable pub failure_by : ErrorPolicyType → ErrorPolicy → String → TaskPayload → System → System
unfolding execute_fail_fast execute_rollback execute_skip default_failure emit
failure_by ErrorPolicyType.fail_fast ep uuid p s =
    emit (release_slot uuid) (execute_fail_fast uuid p s)
failure_by ErrorPolicyType.rollback ep uuid p s =
    emit (release_slot uuid) (execute_rollback uuid p s)
failure_by ErrorPolicyType.skip ep uuid p s =
    if is_skippable (some ep) p.task_name then execute_skip uuid p s else default_failure uuid p s
failure_by _ ep uuid p s = default_failure uuid p s

-- `handleTaskFailed`, with the workflow that the caller read.
unfoldable pub handle_task_failed : String → Workflow → TaskPayload → System → System
unfolding failure_by default_failure
handle_task_failed uuid wf p s = elim wf.error_policy [
  | none ↦ default_failure uuid p s
  | some ep ↦ failure_by (get_task_error_policy (some ep) p.task_name) ep uuid p s
]

unfoldable pub timeout_by : TimeoutPolicy → String → String → System → System
unfolding mark_workflow_failed start_saga_rollback
timeout_by TimeoutPolicy.fail uuid shown s =
    let msg = "工作流执行超时（策略=fail，" <> shown <> "）" in
    mark_workflow_failed (fake_payload uuid "__timeout__" msg) msg s
timeout_by _ uuid shown s =
    start_saga_rollback uuid (fake_payload uuid "__timeout__" ("工作流执行超时（" <> shown <> "）")) s

unfoldable pub timeout_in : WorkflowStatus → String → String → Entry → System → System
unfolding timeout_by persist_workflow_locked
timeout_in WorkflowStatus.pending uuid shown e s = s
timeout_in WorkflowStatus.rolling_back uuid shown e s = s
timeout_in WorkflowStatus.rolled_back uuid shown e s = s
timeout_in WorkflowStatus.completed uuid shown e s = s
timeout_in WorkflowStatus.failed uuid shown e s = s
timeout_in _ uuid shown e s =
    let st = record (e.state) { error = "工作流执行超时（" <> shown <> "）" } in
    timeout_by (get_timeout_policy st.workflow.error_policy) uuid shown
      (persist_workflow_locked uuid st (put_entry uuid (record e { state = st }) s))

-- `timeoutAfter` once the time is over, with `HandleTimeoutPolicy`; `shown` is the timeout as
-- `fmt` prints it.
unfoldable pub timeout_after : String → String → System → System
unfolding timeout_in
timeout_after uuid shown s = elim (lock_entry uuid s) [
  | none ↦ s
  | some e ↦ timeout_in e.state.status uuid shown e s
]
