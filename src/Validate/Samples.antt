-- ===== src/Validate/Samples.antt =====
-- The theorems on validation (infra/engine/scheduler/types.go) at small inputs.
use vibeflow.Prelude.{◌≡◌, refl, [], ◌∷◌, ◌++◌, lookup, insert}
use vibeflow.Model.Workflow.{branches_of}
use vibeflow.Model.Samples.{flow, two_groups}
use vibeflow.Validate.Node.{ok, validate_task_node}
use vibeflow.Validate.Tasks.{validate_workflow_tasks}
use vibeflow.Validate.Names.{
  Seen, declare_nodes, declare_groups, declare, declare_all_branches, declare_all_branches_of,
  declare_branches,
}
use vibeflow.Model.Policy.{validate}
use vibeflow.Validate.Distinct.{
  Distinct, main_names, all_branch_names, validate_workflow_tasks-Distinct,
}

abbrev pub flow_names : Seen
flow_names = ("fetch", 1) ∷ ("write", 2) ∷ ("notify", 2) ∷ []

pub flow_accepted : validate_workflow_tasks flow ≡ ok flow_names
unfolding validate_workflow_tasks validate branches_of declare_groups declare_nodes
    validate_task_node declare lookup insert declare_all_branches declare_all_branches_of
    declare_branches
flow_accepted = refl

validate_workflow_tasks-Distinct_example :
    Distinct (main_names 1 two_groups ++ all_branch_names two_groups)
validate_workflow_tasks-Distinct_example =
    validate_workflow_tasks-Distinct flow flow_names flow_accepted
