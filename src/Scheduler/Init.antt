-- ===== src/Scheduler/Init.antt =====
-- infra/engine/scheduler/workflow_manager.go: what MySQL is told of a workflow that starts, its end
-- without an archive, the registration of a definition, and the lists.
pub mod Orphan
pub mod Lost
use vibeflow.Prelude.{
  ℕ, Bool, true, false, String, List, [], ◌∷◌, Map, Option, none, some, has, insert, delete, lookup,
  string_eq, nat_eq,
}
use vibeflow.Model.Workflow.{Workflow, WorkflowState}
use vibeflow.Validate.Name.{NameError, validate_workflow_name}
use vibeflow.Validate.Node.{TaskError, ok, err}
use vibeflow.Validate.Tasks.{validate_workflow_tasks}
use vibeflow.Scheduler.State.{
  Entry, Manager, System, emit, lock_entry, put_entry, cancel_context, cleanup_watcher,
  cleanup_listeners, clean_snapshot_throttle,
}

unfoldable pub take_out : String → System → System
take_out uuid s = record s {
  wm = record (s.wm) { running_entries = delete uuid s.wm.running_entries };
}

-- `cleanupWorkflowState`; the cancel function of an entry is always set.
unfoldable pub cleanup_workflow_state : String → System → System
unfolding take_out emit
cleanup_workflow_state uuid s =
    let out : System = elim (lock_entry uuid s) [
      | none ↦ s
      | some e ↦ emit (cancel_context uuid) (take_out uuid s)
    ] in
    emit (clean_snapshot_throttle uuid)
      (emit (cleanup_listeners uuid) (emit (cleanup_watcher uuid) out))

-- What MySQL and the JSON library answer; an id is of the row written. The answer to the last call,
-- `UpdateWorkflowStatus`, is only logged.
pub record InitAnswers : Type 0 where
  pub saved : Option ℕ
  pub serialized : Bool
  pub created : Option ℕ

unfoldable pub numbered : String → ℕ → System → System
unfolding put_entry
numbered uuid id s = elim (lock_entry uuid s) [
  | none ↦ s
  | some e ↦ put_entry uuid (record e { state = record (e.state) { execution_id = id } }) s
]

-- From `CreateExecution` on.
unfoldable pub created_init : String → Option ℕ → System → System × Option ℕ
unfolding numbered cleanup_workflow_state
created_init uuid none s = (cleanup_workflow_state uuid s, none)
created_init uuid (some id) s = (numbered uuid id s, some id)

unfoldable pub serialized_init :
    String → Bool → Option ℕ → (System → System) → System → System × Option ℕ
unfolding created_init
serialized_init uuid false created meanwhile s = (cleanup_workflow_state uuid s, none)
serialized_init uuid true created meanwhile s = created_init uuid created (meanwhile s)

unfoldable pub saved_init :
    String → Option ℕ → Bool → Option ℕ → (System → System) → System → System × Option ℕ
unfolding serialized_init cleanup_workflow_state
saved_init uuid none serialized created meanwhile s = (cleanup_workflow_state uuid s, none)
saved_init uuid (some id) serialized created meanwhile s = elim (lock_entry uuid s) [
  | none ↦ (s, none)
  | some e ↦
      serialized_init uuid serialized created meanwhile
        (put_entry uuid (record e { state = record (e.state) { workflow_id = id } }) s)
]

-- `asyncInitMySQL`, and what others do to the state while `CreateExecution` is under way: the state
-- then, and the id of the row of the execution, if it was written. It is written as RUNNING.
unfoldable pub async_init_mysql :
    String → InitAnswers → (System → System) → System → System × Option ℕ
unfolding saved_init
async_init_mysql uuid a meanwhile s = saved_init uuid a.saved a.serialized a.created meanwhile s

-- `clearFailedTask`.
unfoldable pub clear_failed_task : String → String → System → System
unfolding put_entry
clear_failed_task uuid task_name s = elim (lock_entry uuid s) [
  | none ↦ s
  | some e ↦
      let st = record (e.state) {
        failed_tasks = delete task_name e.state.failed_tasks;
        snapshotted = delete task_name e.state.snapshotted;
      } in
      put_entry uuid (record e { state = st }) s
]

-- How `RegisterWorkflow` ends; `locked_up` is the return with the manager's lock held. The upsert in
-- MySQL changes nothing here.
pub data Registration : Type 0 where
  bad_name : NameError → Registration
  bad_tasks : TaskError → Registration
  locked_up : Registration
  registered : Manager → Registration

register_copy : Option Workflow → String → Manager → Registration
register_copy none uuid m = locked_up
register_copy (some wf) uuid m =
    registered (record m { registered_workflows = insert uuid wf m.registered_workflows })

register_named : (Workflow → Option Workflow) → Workflow → Manager → Registration
unfolding register_copy
register_named copy wf m = elim (validate_workflow_tasks wf) [
  | err e ↦ bad_tasks e
  | ok seen ↦ register_copy (copy wf) wf.uuid m
]

-- `RegisterWorkflow`; `copy` is the deep copy through JSON, or its failure.
unfoldable pub register_workflow : (Workflow → Option Workflow) → Workflow → Manager → Registration
unfolding register_named
register_workflow copy wf m = elim (validate_workflow_name wf.name) [
  | some e ↦ bad_name e
  | none ↦ register_named copy wf m
]

-- `ListWorkflowStates`.
entries_states : Map String Entry → List WorkflowState
entries_states [] = []
entries_states ((uuid, e) ∷ m) = e.state ∷ entries_states m

unfoldable pub list_workflow_states : System → List WorkflowState
unfolding entries_states
list_workflow_states s = entries_states s.wm.running_entries
