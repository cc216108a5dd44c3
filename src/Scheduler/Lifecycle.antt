-- ===== src/Scheduler/Lifecycle.antt =====
-- infra/engine/scheduler/workflow_manager.go: the calls that start, stop and steer a workflow.
-- A deep copy (a JSON round trip) gives the same workflow and is taken to succeed.
use vibeflow.Prelude.{
  ℕ, suc, false, not, ◌&&◌, String, List, [], ◌∷◌, Option, none, some, pos, ltb_ℤ, lookup, delete,
  has, string_eq, nat_eq, length, ltb, nat_beq, keep, if◌then◌else◌, ◌==◌,
}
use vibeflow.Model.Value.{Output}
use vibeflow.Model.Context.{skip_groups_key, branch_key, approval_key}
use vibeflow.Model.Workflow.{Workflow, WorkflowState, WorkflowStatus}
use vibeflow.Model.Index.{build_task_group_index, build_branch_task_index}
use vibeflow.Validate.Name.{NameError, validate_workflow_name}
use vibeflow.Validate.Node.{TaskError, ok, err}
use vibeflow.Validate.Tasks.{validate_workflow_tasks}
use vibeflow.Scheduler.State.{
  workflow_submitted, workflow_cancelled, workflow_approved, workflow_rejected, workflow_completed,
  broadcast, execute_workflow, start_timeout, watch_status, init_mysql, Entry, Manager, System,
  emit, lock_entry, put_entry, remove_first, remove_history_by_uuid, persist_workflow_locked,
}
use vibeflow.Scheduler.Saga.{start_saga_rollback}
use vibeflow.Scheduler.Failure.{fake_payload, handle_task_failed}

pub data CallError : Type 0 where
  bad_name : NameError → CallError
  no_tasks : String → CallError
  bad_tasks : TaskError → CallError
  not_found already_running not_running not_in_history inconsistent_history : String → CallError
  not_paused : String → WorkflowStatus → CallError

-- An error leaves the state as the call leaves it.
pub data Outcome : Type 0 where
  done : System → Outcome
  failed : CallError → System → Outcome

abbrev pub initial_state : Workflow → ℕ → WorkflowState
initial_state wf now = record {
  workflow = wf;
  status = WorkflowStatus.running;
  started_at = now;
  completed_tasks = [];
  failed_tasks = [];
  rolled_back = [];
  error = "";
  paused_task_name = "";
  paused_task_output = [];
  paused_group_idx = 0;
  task_group_index = some (build_task_group_index wf.task_groups);
  branch_task_index = build_branch_task_index wf.task_groups;
  workflow_uuid = wf.uuid;
  workflow_id = 0;
  execution_id = 0;
  snapshotted = [];
}

-- The effects that start the goroutines of an execution.
unfoldable pub launch : Workflow → System → System
unfolding emit
launch wf s =
    let stored = if s.wm.has_history_store then emit (init_mysql wf.uuid) s else s in
    let told = emit (broadcast workflow_submitted wf.uuid) stored in
    let timed =
      if ltb_ℤ (pos 0) wf.timeout_sec
      then emit (start_timeout wf.uuid wf.timeout_sec) told
      else told in
    emit (execute_workflow wf.uuid [] 0) (emit (watch_status wf.uuid) timed)

unfoldable pub submit_checked : Workflow → ℕ → System → Outcome
unfolding launch put_entry
submit_checked wf now s =
    done
      (launch wf (put_entry wf.uuid (record { state = initial_state wf now; recovered = false }) s))

unfoldable pub submit_groups : Workflow → ℕ → System → Outcome
unfolding submit_checked validate_workflow_tasks
submit_groups wf now s =
    if nat_beq (length wf.task_groups) 0
    then failed (no_tasks wf.name) s
    else elim (validate_workflow_tasks wf) [
      | ok _ ↦ submit_checked wf now s
      | err e ↦ failed (bad_tasks e) s
    ]

unfoldable pub submit_workflow : Workflow → ℕ → System → Outcome
unfolding submit_groups
submit_workflow wf now s = elim (validate_workflow_name wf.name) [
  | some e ↦ failed (bad_name e) s
  | none ↦ submit_groups wf now s
]

unfoldable pub run_workflow : String → ℕ → System → Outcome
unfolding submit_workflow
run_workflow uuid now s = elim (lookup uuid s.wm.registered_workflows) [
  | none ↦ failed (not_found uuid) s
  | some wf ↦
      if has uuid s.wm.running_entries
      then failed (already_running uuid) s
      else submit_workflow wf now s
]

abbrev pub cancelled_task : WorkflowStatus → String → String
cancelled_task WorkflowStatus.paused name = if name == "" then "__cancelled__" else name
cancelled_task _ name = "__cancelled__"

unfoldable pub cancel_entry : String → Entry → System → Outcome
unfolding persist_workflow_locked emit put_entry start_saga_rollback
cancel_entry uuid e s =
    let st = record (e.state) { error = "用户已取消" } in
    let archived = persist_workflow_locked uuid st (put_entry uuid (record e { state = st }) s) in
    done (
      start_saga_rollback uuid
        (fake_payload uuid (cancelled_task e.state.status e.state.paused_task_name) "用户已取消")
        (emit (broadcast workflow_cancelled uuid) archived))

unfoldable pub cancel_in : WorkflowStatus → String → Entry → System → Outcome
unfolding cancel_entry
cancel_in WorkflowStatus.running uuid e s = cancel_entry uuid e s
cancel_in WorkflowStatus.paused uuid e s = cancel_entry uuid e s
cancel_in _ uuid e s = failed (not_running uuid) s

unfoldable pub cancel_workflow : String → System → Outcome
unfolding cancel_in
cancel_workflow uuid s = elim (lock_entry uuid s) [
  | none ↦ failed (not_found uuid) s
  | some e ↦ cancel_in e.state.status uuid e s
]

-- The output of the approved task, without the marks that steer the workflow.
abbrev pub clean_output : Output → Output
clean_output o =
    keep
      (λ e. not (e.0 == skip_groups_key) && (not (e.0 == branch_key) && not (e.0 == approval_key)))
      o

unfoldable pub complete_entry : String → System → System
unfolding persist_workflow_locked emit put_entry
complete_entry uuid s = emit (broadcast workflow_completed uuid) (elim (lock_entry uuid s) [
  | none ↦ s
  | some e ↦
      let st = record (e.state) { status = WorkflowStatus.completed } in
      persist_workflow_locked uuid st (put_entry uuid (record e { state = st }) s)
])

unfoldable pub approve_entry : String → Entry → System → Outcome
unfolding emit put_entry complete_entry
approve_entry uuid e s =
    let st = record (e.state) { status = WorkflowStatus.running } in
    let told =
      emit (broadcast workflow_approved uuid) (put_entry uuid (record e { state = st }) s) in
    let count = length st.workflow.task_groups in
    if ltb (suc st.paused_group_idx) count
    then done (
        emit
          (execute_workflow uuid (clean_output st.paused_task_output ∷ [])
            (suc st.paused_group_idx))
          told)
    else if nat_beq (suc st.paused_group_idx) count
    then done (complete_entry uuid told)
    else done told

unfoldable pub approve_in : WorkflowStatus → String → Entry → System → Outcome
unfolding approve_entry
approve_in WorkflowStatus.paused uuid e s = approve_entry uuid e s
approve_in status uuid e s = failed (not_paused uuid status) s

unfoldable pub approve_workflow : String → System → Outcome
unfolding approve_in
approve_workflow uuid s = elim (lock_entry uuid s) [
  | none ↦ failed (not_found uuid) s
  | some e ↦ approve_in e.state.status uuid e s
]

unfoldable pub reject_in : WorkflowStatus → String → Entry → String → System → Outcome
unfolding emit handle_task_failed
reject_in WorkflowStatus.paused uuid e reason s =
    let shown = if reason == "" then "审批被驳回" else reason in
    done (
      handle_task_failed uuid e.state.workflow (fake_payload uuid e.state.paused_task_name shown)
        (emit (broadcast workflow_rejected uuid) s))
reject_in status uuid e reason s = failed (not_paused uuid status) s

unfoldable pub reject_workflow : String → String → System → Outcome
unfolding reject_in
reject_workflow uuid reason s = elim (lock_entry uuid s) [
  | none ↦ failed (not_found uuid) s
  | some e ↦ reject_in e.state.status uuid e reason s
]

abbrev pub last_id : List ℕ → Option ℕ
last_id [] = none
last_id (x ∷ []) = some x
last_id (x ∷ (y ∷ ys)) = last_id (y ∷ ys)

abbrev pub latest_id : Option (List ℕ) → Option ℕ
latest_id none = none
latest_id (some ids) = last_id ids

-- The latest execution of a workflow leaves the history.
unfoldable pub take_from_history : String → ℕ → Manager → Manager
unfolding remove_history_by_uuid remove_first
take_from_history uuid id m = record m {
  workflow_history = delete id m.workflow_history;
  history_by_uuid = remove_history_by_uuid uuid id m.history_by_uuid;
  history_order = remove_first id m.history_order;
}

unfoldable pub retry_from_history : String → ℕ → ℕ → System → Outcome
unfolding take_from_history submit_workflow
retry_from_history uuid id now s = elim (lookup id s.wm.workflow_history) [
  | none ↦ failed (inconsistent_history uuid) s
  | some st ↦ submit_workflow st.workflow now (record s { wm = take_from_history uuid id s.wm })
]

unfoldable pub retry_workflow : String → ℕ → System → Outcome
unfolding retry_from_history
retry_workflow uuid now s =
    if has uuid s.wm.running_entries
    then failed (already_running uuid) s
    else elim (latest_id (lookup uuid s.wm.history_by_uuid)) [
      | none ↦ failed (not_in_history uuid) s
      | some id ↦ retry_from_history uuid id now s
    ]

-- `GetHistory` as far as the memory answers it; `none` is where the code asks MySQL.
unfoldable pub get_history : String → System → Option WorkflowState
get_history uuid s = elim (latest_id (lookup uuid s.wm.history_by_uuid)) [
  | none ↦ none
  | some id ↦ lookup id s.wm.workflow_history
]
