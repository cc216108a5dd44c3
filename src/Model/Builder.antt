-- ===== src/Model/Builder.antt =====
-- domain/model/workflow.go: the methods that build a workflow. The nil map and the nil slice are empty.
use vibeflow.Prelude.{false, Bool, String, List, [], ◌∷◌, ◌++◌, Map, Option, none, some, ℤ, pos}
use vibeflow.Model.Value.{Output}
use vibeflow.Model.Workflow.{
  TaskNode, task_node, NodeFields, Branches, no_branches, no_fan_out, fan_out_def,
  LoopConditionType, TaskNodeType, TaskGroup, TriggerType, EventTriggerType, ErrorPolicyType,
  TimeoutPolicy, ErrorPolicy, Workflow,
}

-- `TaskNode{Name: name}`.
abbrev pub named_fields : String → NodeFields
named_fields name = record {
  type = TaskNodeType.unset;
  name = name;
  params = [];
  delay_sec = pos 0;
  default_branch = "";
  parallel_branch = false;
  sub_workflow = "";
  sub_workflow_params = [];
  loop = none;
  input_mapping = [];
}

abbrev pub named_node : String → TaskNode
named_node name = task_node (named_fields name) no_branches no_fan_out

abbrev pub new_workflow : String → Workflow
new_workflow name = record {
  uuid = name;
  name = name;
  task_groups = [];
  trigger = TriggerType.manual;
  cron_expr = "";
  event_trigger = none;
  timeout_sec = pos 0;
  task_timeout_sec = pos 0;
  max_retries = pos 0;
  base_backoff = pos 0;
  priority = pos 0;
  error_policy = none;
}

unfoldable pub add_task_node_group : TaskGroup → Workflow → Workflow
add_task_node_group nodes wf = record wf { task_groups = wf.task_groups ++ nodes ∷ [] }

unfoldable pub named_nodes : List String → TaskGroup
named_nodes [] = []
named_nodes (name ∷ names) = named_node name ∷ named_nodes names

unfoldable pub add_task_group : List String → Workflow → Workflow
unfolding add_task_node_group named_nodes
add_task_group tasks wf = add_task_node_group (named_nodes tasks) wf

unfoldable pub add_sub_workflow_group_with_params : String → String → Output → Workflow → Workflow
unfolding add_task_node_group
add_sub_workflow_group_with_params name uuid params wf =
    let f : NodeFields = record (named_fields name) {
      type = TaskNodeType.sub_workflow;
      sub_workflow = uuid;
      sub_workflow_params = params;
    } in
    add_task_node_group (task_node f no_branches no_fan_out ∷ []) wf

unfoldable pub add_sub_workflow_group : String → String → Workflow → Workflow
unfolding add_sub_workflow_group_with_params
add_sub_workflow_group name uuid wf = add_sub_workflow_group_with_params name uuid [] wf

unfoldable pub add_fan_out_group_with_options :
    String → String → TaskNode → ℤ → String → Workflow → Workflow
unfolding add_task_node_group
add_fan_out_group_with_options name iterator_key task max_parallel output_key wf =
    let f : NodeFields = record (named_fields name) { type = TaskNodeType.fan_out } in
    let o = fan_out_def iterator_key task max_parallel output_key in
    add_task_node_group (task_node f no_branches o ∷ []) wf

unfoldable pub add_fan_out_group : String → String → String → Workflow → Workflow
unfolding add_fan_out_group_with_options
add_fan_out_group name iterator_key task_name wf =
    add_fan_out_group_with_options name iterator_key (named_node task_name) (pos 0) "" wf

unfoldable pub add_loop_group_with_params :
    String → Output → ℤ → LoopConditionType → String → Workflow → Workflow
unfolding add_task_node_group
add_loop_group_with_params task_name params max_iterations type key wf =
    let f : NodeFields = record (named_fields task_name) {
      params = params;
      loop =
          some (record {
            max_iterations = max_iterations;
            condition_type = type;
            condition_key = key;
          });
    } in
    add_task_node_group (task_node f no_branches no_fan_out ∷ []) wf

unfoldable pub add_loop_group : String → ℤ → LoopConditionType → String → Workflow → Workflow
unfolding add_loop_group_with_params
add_loop_group task_name max_iterations type key wf =
    add_loop_group_with_params task_name [] max_iterations type key wf

-- A task past the mappings has none.
unfoldable pub mapped_nodes : List String → List (Map String String) → TaskGroup
mapped_nodes [] ms = []
mapped_nodes (name ∷ names) [] = named_node name ∷ mapped_nodes names []
mapped_nodes (name ∷ names) (m ∷ ms) =
    task_node (record (named_fields name) { input_mapping = m }) no_branches no_fan_out
    ∷ mapped_nodes names ms

unfoldable pub add_task_group_with_input_mapping :
    List String → List (Map String String) → Workflow → Workflow
unfolding add_task_node_group mapped_nodes
add_task_group_with_input_mapping tasks mappings wf =
    add_task_node_group (mapped_nodes tasks mappings) wf

unfoldable pub add_branch_node_group : String → Branches → String → Bool → Workflow → Workflow
unfolding add_task_node_group
add_branch_node_group task_name branches default_branch parallel wf =
    let f : NodeFields = record (named_fields task_name) {
      default_branch = default_branch;
      parallel_branch = parallel;
    } in
    add_task_node_group (task_node f branches no_fan_out ∷ []) wf

unfoldable pub set_event_trigger : EventTriggerType → String → Workflow → Workflow
set_event_trigger type filter wf = record wf {
  trigger = TriggerType.event;
  event_trigger = some (record { event_type = type; filter = filter; webhook_secret = "" });
}

unfoldable pub set_error_policy_with_details : Option ErrorPolicy → Workflow → Workflow
set_error_policy_with_details policy wf = record wf { error_policy = policy }

unfoldable pub set_error_policy : ErrorPolicyType → TimeoutPolicy → Workflow → Workflow
set_error_policy on_task_failure on_timeout wf = record wf {
  error_policy = some (record {
    on_task_failure = on_task_failure;
    on_timeout = on_timeout;
    skippable_tasks = [];
    task_policies = [];
  });
}
