-- ===== src/Model/Delta.antt =====
-- domain/model/workflow.go: incremental snapshots and how they are put back into a state.
pub mod Laws
use vibeflow.Prelude.{Bool, true, String, List, [], ◌∷◌, insert, string_eq}
use vibeflow.Model.Value.{Output}
use vibeflow.Model.Workflow.{WorkflowState}

pub data Action : Type 0 where
  completed failed rolled_back : Action
  other : String → Action

pub record TaskDelta : Type 0 where
  pub task_name : String
  pub action : Action
  pub output : Output
  pub result : String

unfoldable pub apply_delta : Action → TaskDelta → WorkflowState → WorkflowState
apply_delta completed d s = record s {
  completed_tasks = insert d.task_name d.output s.completed_tasks;
}
apply_delta failed d s = record s { failed_tasks = insert d.task_name d.result s.failed_tasks }
apply_delta rolled_back d s = record s { rolled_back = insert d.task_name true s.rolled_back }
apply_delta (other a) d s = s

unfoldable pub apply_deltas : List TaskDelta → WorkflowState → WorkflowState
unfolding apply_delta
apply_deltas [] s = s
apply_deltas (d ∷ ds) s = apply_deltas ds (apply_delta d.action d s)
