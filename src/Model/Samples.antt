-- ===== src/Model/Samples.antt =====
-- A small workflow (domain/model/workflow.go), an execution of it, and the theorems on the model.
use vibeflow.Prelude.{String, List, [], ◌∷◌, none, some, pos, string_eq}
use vibeflow.Model.Value.{int}
use vibeflow.Model.Workflow.{
  TaskNode, NodeFields, TaskGroup, TriggerType, Workflow, WorkflowState, WorkflowStatus,
}
use vibeflow.Model.Builder.{named_fields, named_node}

abbrev pub plain_fields : String → NodeFields
plain_fields = named_fields

abbrev pub plain : String → TaskNode
plain = named_node

abbrev pub two_groups : List TaskGroup
two_groups = (plain "fetch" ∷ []) ∷ (plain "write" ∷ plain "notify" ∷ []) ∷ []

abbrev pub flow : Workflow
flow = record {
  uuid = "u1";
  name = "deploy";
  task_groups = two_groups;
  trigger = TriggerType.manual;
  cron_expr = "";
  event_trigger = none;
  timeout_sec = pos 60;
  task_timeout_sec = pos 0;
  max_retries = pos 2;
  base_backoff = pos 1;
  priority = pos 0;
  error_policy = none;
}

abbrev pub running_state : WorkflowState
running_state = record {
  workflow = flow;
  status = WorkflowStatus.running;
  started_at = 5;
  completed_tasks = ("fetch", ("size", int (pos 3)) ∷ []) ∷ [];
  failed_tasks = [];
  rolled_back = [];
  error = "";
  paused_task_name = "";
  paused_task_output = [];
  paused_group_idx = 0;
  task_group_index = some (("fetch", 0) ∷ ("write", 1) ∷ ("notify", 1) ∷ []);
  branch_task_index = [];
  workflow_uuid = "u1";
  workflow_id = 4;
  execution_id = 9;
  snapshotted = [];
}
