-- ===== src/Execution/BuiltSamples.antt =====
-- The theorem on the builders (domain/model/workflow.go) at a small workflow.
use vibeflow.Prelude.{refl, true, String, List, [], ◌∷◌, none, pos}
use vibeflow.Model.Workflow.{TaskNode, no_branches, branches_of, LoopConditionType, Workflow}
use vibeflow.Model.Builder.{
  named_node, add_task_group, add_sub_workflow_group_with_params, add_fan_out_group_with_options,
  add_loop_group_with_params, add_task_group_with_input_mapping, add_branch_node_group,
  new_workflow, add_loop_group, add_fan_out_group, add_sub_workflow_group,
}
use vibeflow.Execution.Control.{plain, loop, fan_out, sub_workflow}
use vibeflow.Execution.Built.{
  AddsTasks, AddsNode, BranchesBy, LoopsBy, FansOutBy, RunsWorkflow, builders-Adds,
}
use vibeflow.Model.Value.{Output, int}

abbrev flow : Workflow
flow = new_workflow "deploy"

abbrev notify : TaskNode
notify = named_node "notify"

abbrev two_names : List String
two_names = "fetch" ∷ "write" ∷ []

abbrev sizes : Output
sizes = ("size", int (pos 3)) ∷ []

builders-Adds_example :
    AddsTasks two_names [] flow (add_task_group two_names flow)
    × AddsTasks two_names [] flow (add_task_group_with_input_mapping two_names [] flow)
    × AddsNode plain "pick"
        (BranchesBy none "slow" true)
        flow
        (add_branch_node_group "pick" no_branches "slow" true flow)
    × AddsNode loop "pick"
        (LoopsBy [] (pos 3) LoopConditionType.key "more")
        flow
        (add_loop_group "pick" (pos 3) LoopConditionType.key "more" flow)
    × AddsNode loop "pick"
        (LoopsBy sizes (pos 3) LoopConditionType.key "more")
        flow
        (add_loop_group_with_params "pick" sizes (pos 3) LoopConditionType.key "more" flow)
    × AddsNode fan_out "pick"
        (FansOutBy "files" (named_node "copy") (pos 0) "")
        flow
        (add_fan_out_group "pick" "files" "copy" flow)
    × AddsNode fan_out "pick"
        (FansOutBy "files" notify (pos 4) "sent")
        flow
        (add_fan_out_group_with_options "pick" "files" notify (pos 4) "sent" flow)
    × AddsNode sub_workflow "pick"
        (RunsWorkflow "u1" [])
        flow
        (add_sub_workflow_group "pick" "u1" flow)
    × AddsNode sub_workflow "pick"
        (RunsWorkflow "u1" sizes)
        flow
        (add_sub_workflow_group_with_params "pick" "u1" sizes flow)
unfolding branches_of
builders-Adds_example =
    builders-Adds flow two_names [] "pick" no_branches "slow" true sizes (pos 3)
      LoopConditionType.key "more" "files" "copy" notify (pos 4) "sent" "u1" sizes refl
