-- ===== src/Execution/Operations.antt =====
-- infra/engine/scheduler: the operations on the state of the master's manager, in any order. Each is one
-- step under the locks, and the writes of a workflow's start to MySQL are not interrupted here.
pub mod Kept
pub mod Remembered
use vibeflow.Prelude.{ℕ, String, List, [], ◌∷◌, ℤ}
use vibeflow.Model.Value.{Output}
use vibeflow.Model.Workflow.{Workflow, TaskGroup}
use vibeflow.Store.{TaskPayload}
use vibeflow.Scheduler.State.{System}
use vibeflow.Scheduler.Lifecycle.{
  submit_workflow, run_workflow, cancel_workflow, approve_workflow, reject_workflow, retry_workflow,
}
use vibeflow.Scheduler.Failure.{timeout_after}
use vibeflow.Scheduler.Events.{watch_event}
use vibeflow.Scheduler.Init.{
  InitAnswers, async_init_mysql, clear_failed_task, cleanup_workflow_state,
}
use vibeflow.Scheduler.Init.Orphan.{state_after}
use vibeflow.Execution.Control.{
  GroupKind, GroupResult, Next, ended, run_groups, out_of_range, group_done,
}

-- The calls of the manager, an event of a task, the end of a workflow's time, the end of a task group
-- with whatever its tasks report, and what follows the start of a workflow.
pub data Operation : Type 0 where
  submits : Workflow → ℕ → Operation
  runs retries : String → ℕ → Operation
  cancels approves cleans_up : String → Operation
  rejects times_out clears_failed : String → String → Operation
  sees_event : String → TaskPayload → Operation
  ends_group : String → List TaskGroup → ℕ → List Output → GroupKind → GroupResult → Operation
  initializes : String → InitAnswers → Operation

abbrev pub state_of : Next → System
state_of (ended s) = s
state_of (run_groups delay groups upstream idx s) = s
state_of (out_of_range idx s) = s

unfoldable pub perform : Operation → System → System
unfolding submit_workflow run_workflow retry_workflow cancel_workflow approve_workflow
    reject_workflow timeout_after watch_event group_done async_init_mysql clear_failed_task
    cleanup_workflow_state
perform (submits wf now) s = state_after (submit_workflow wf now s)
perform (runs uuid now) s = state_after (run_workflow uuid now s)
perform (retries uuid now) s = state_after (retry_workflow uuid now s)
perform (cancels uuid) s = state_after (cancel_workflow uuid s)
perform (approves uuid) s = state_after (approve_workflow uuid s)
perform (cleans_up uuid) s = cleanup_workflow_state uuid s
perform (rejects uuid reason) s = state_after (reject_workflow uuid reason s)
perform (times_out uuid shown) s = timeout_after uuid shown s
perform (clears_failed uuid task) s = clear_failed_task uuid task s
perform (sees_event uuid p) s = (watch_event uuid p s).0
perform (ends_group uuid groups idx upstream kind result) s =
    state_of (group_done uuid groups idx upstream kind result s)
perform (initializes uuid answers) s = (async_init_mysql uuid answers (λ t. t) s).0

unfoldable pub performs : List Operation → System → System
unfolding perform
performs [] s = s
performs (o ∷ os) s = performs os (perform o s)
