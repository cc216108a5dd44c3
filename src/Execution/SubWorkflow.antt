-- ===== src/Execution/SubWorkflow.antt =====
-- infra/engine/scheduler/advanced_executor.go: a node that runs another workflow. The state that the
-- tracking goroutine sees at its `i`th tick is an argument, since all else goes on meanwhile.
use vibeflow.Prelude.{
  ℕ, zero, suc, String, List, [], ◌∷◌, ◌++◌, Map, Option, none, some, lookup, string_eq, ◌<>◌,
}
use vibeflow.Model.Value.{Output}
use vibeflow.Model.Workflow.{TaskNode, Workflow, WorkflowState, WorkflowStatus, fields}
use vibeflow.Scheduler.State.{System, lock_entry}
use vibeflow.Scheduler.Lifecycle.{get_history}
use vibeflow.Execution.Control.{GroupResult, outputs, error}
use vibeflow.Execution.Run.{World, Waits, Ending, finished, execute_groups}

-- `Execute` of the serial executor; `none` when the fuel is used up.
unfoldable pub execute : World → Waits → ℕ → String → List Output → ℕ → System → Option Ending
unfolding execute_groups
execute world waits fuel uuid upstream idx s = elim (lock_entry uuid s) [
  | none ↦ some (finished s)
  | some e ↦ execute_groups world waits fuel uuid e.state.workflow.task_groups upstream idx s
]

-- Under which UUID the sub-workflow is executed.
unfoldable pub sub_uuid : String → TaskNode → Workflow → String
sub_uuid parent n sub = elim (fields n).sub_workflow_params [
  | [] ↦ sub.uuid
  | p ∷ ps ↦ parent <> ("__sub__" <> (fields n).name)
]

-- The parameters are one more output from upstream, if the sub-workflow has a group.
unfoldable pub sub_upstream : TaskNode → Workflow → List Output → List Output
sub_upstream n sub upstream = elim (fields n).sub_workflow_params [
  | [] ↦ upstream
  | p ∷ ps ↦ elim sub.task_groups [ [] ↦ upstream | g ∷ gs ↦ upstream ++ (p ∷ ps) ∷ [] ]
]

-- `collectCompletedOutputs`.
unfoldable pub collect_completed_outputs : Map String Output → List Output
collect_completed_outputs [] = []
collect_completed_outputs ((name, o) ∷ m) = o ∷ collect_completed_outputs m

abbrev pub show_workflow_status : WorkflowStatus → String
show_workflow_status WorkflowStatus.pending = "PENDING"
show_workflow_status WorkflowStatus.running = "RUNNING"
show_workflow_status WorkflowStatus.paused = "PAUSED"
show_workflow_status WorkflowStatus.rolling_back = "ROLLING_BACK"
show_workflow_status WorkflowStatus.rolled_back = "ROLLED_BACK"
show_workflow_status WorkflowStatus.completed = "COMPLETED"
show_workflow_status WorkflowStatus.failed = "FAILED"

-- What a tick says of a workflow that runs, and of one in the history; `none` is to wait on.
unfoldable pub running_result : WorkflowStatus → String → WorkflowState → Option GroupResult
unfolding collect_completed_outputs
running_result WorkflowStatus.completed uuid st =
    some (outputs (collect_completed_outputs st.completed_tasks))
running_result WorkflowStatus.failed uuid st =
    some (error ("子工作流 " <> uuid <> " 执行失败: " <> st.error))
running_result WorkflowStatus.rolled_back uuid st =
    some (error ("子工作流 " <> uuid <> " 执行失败: " <> st.error))
running_result _ uuid st = none

unfoldable pub ended_result : WorkflowStatus → String → WorkflowState → GroupResult
unfolding collect_completed_outputs
ended_result WorkflowStatus.completed uuid st =
    outputs (collect_completed_outputs st.completed_tasks)
ended_result t uuid st = error ("子工作流 " <> uuid <> " 已结束，状态: " <> show_workflow_status t)

history_result : String → Option WorkflowState → Option GroupResult
unfolding ended_result
history_result uuid none = none
history_result uuid (some st) = some (ended_result st.status uuid st)

abbrev pub or_stored : Option WorkflowState → Option WorkflowState → Option WorkflowState
or_stored (some st) stored = some st
or_stored none stored = stored

-- `stored` is what MySQL answers where `GetHistory` asks it.
unfoldable pub tick : String → System → Option WorkflowState → Option GroupResult
unfolding running_result history_result get_history
tick uuid s stored = elim (lock_entry uuid s) [
  | some e ↦ running_result e.state.status uuid e.state
  | none ↦ history_result uuid (or_stored (get_history uuid s) stored)
]

-- What the goroutine sees at a tick; `cancelled` is the error of a context that has ended by then.
pub record Tick : Type 0 where
  pub cancelled : Option String
  pub system : System
  pub stored : Option WorkflowState

-- The loop of `executeAndTrackSubWorkflow` for `k` ticks, from tick `i` on. `none` is that there is no
-- result so far.
unfoldable pub poll : (ℕ → Tick) → String → ℕ → ℕ → Option GroupResult
unfolding tick
poll ticks uuid zero i = none
poll ticks uuid (suc k) i =
    let rest = poll ticks uuid k (suc i) in
    elim (ticks i).cancelled [
      | some e ↦ some (error e)
      | none ↦ elim (tick uuid (ticks i).system (ticks i).stored) [ some r ↦ some r | none ↦ rest ]
    ]

-- What comes of the sub-workflow: it is refused, or `ExecuteWorkflow` is called for the UUID with
-- the outputs, and then its state is looked at, until there is a result.
pub data Started : Type 0 where
  refused : String → Started
  tracked : String → List Output → Started

-- `ExecuteSubWorkflow`; `copy` is the deep copy through JSON, or its error.
unfoldable pub execute_sub_workflow :
    (Workflow → Option Workflow) → String → String → TaskNode → List Output → System → Started
unfolding sub_uuid sub_upstream
execute_sub_workflow copy copy_error parent n upstream s =
    elim (lookup (fields n).sub_workflow s.wm.registered_workflows) [
      | none ↦ refused ("子工作流 " <> (fields n).sub_workflow <> " 未注册或不存在")
      | some def ↦ elim (copy def) [
        | none ↦ refused ("深拷贝子工作流 " <> (fields n).sub_workflow <> " 失败: " <> copy_error)
        | some sub ↦ tracked (sub_uuid parent n sub) (sub_upstream n sub upstream)
      ]
    ]
