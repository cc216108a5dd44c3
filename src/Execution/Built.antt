-- ===== src/Execution/Built.antt =====
-- domain/model/workflow.go and infra/engine/scheduler/execution_manager.go: which executor a group goes
-- to that a builder has added.
use vibeflow.Prelude.{
  ◌≡◌, refl, ap, false, Bool, String, List, [], ◌∷◌, ◌++◌, Map, map, Option, some, ℤ, pos, ◌==◌,
  string_eq,
}
use vibeflow.Model.Value.{Output}
use vibeflow.Model.Workflow.{
  TaskNode, task_node, no_fan_out, TaskGroup, Branches, LoopConditionType, Workflow, fields,
  name_of, branches_of, get_task_node_type, fan_out_of,
}
use vibeflow.Model.Builder.{
  named_nodes, mapped_nodes, add_task_node_group, add_task_group,
  add_sub_workflow_group_with_params, add_fan_out_group_with_options, add_loop_group_with_params,
  add_task_group_with_input_mapping, add_branch_node_group, named_fields, named_node,
  add_sub_workflow_group, add_fan_out_group, add_loop_group,
}
use vibeflow.Execution.Control.{
  GroupKind, plain, loop, fan_out, sub_workflow, detect_advanced_nodes,
}

-- The tasks have these input mappings, those past the list none.
abbrev pub Mapped : List (Map String String) → TaskGroup → Type 0
Mapped ms [] = Unit {0}
Mapped [] (n ∷ ns) = ((fields n).input_mapping ≡ []) × Mapped [] ns
Mapped (m ∷ ms) (n ∷ ns) = ((fields n).input_mapping ≡ m) × Mapped ms ns

-- The second workflow is the first with one more group at the end, of tasks with these names and input
-- mappings, which go to the workers.
abbrev pub AddsTasks : List String → List (Map String String) → Workflow → Workflow → Type 0
AddsTasks names mappings wf wf' =
    (g : TaskGroup) × (wf' ≡ record wf { task_groups = wf.task_groups ++ g ∷ [] })
    × (detect_advanced_nodes g ≡ plain)
    × (map name_of g ≡ names)
    × Mapped mappings g

-- The second workflow is the first with one more group at the end, of one node with this name, which goes
-- to this executor and has what is asked of it.
abbrev pub AddsNode : GroupKind → String → (TaskNode → Type 0) → Workflow → Workflow → Type 0
AddsNode kind name P wf wf' =
    (n : TaskNode) × (wf' ≡ record wf { task_groups = wf.task_groups ++ (n ∷ []) ∷ [] })
    × (detect_advanced_nodes (n ∷ []) ≡ kind)
    × (name_of n ≡ name)
    × P n

-- What the executors read in the node.
abbrev pub LoopsBy : Output → ℤ → LoopConditionType → String → TaskNode → Type 0
LoopsBy params bound type key n =
    ((fields n).params ≡ params)
    × ((fields n).loop
        ≡ some (record { max_iterations = bound; condition_type = type; condition_key = key }))

abbrev pub FansOutBy : String → TaskNode → ℤ → String → TaskNode → Type 0
FansOutBy iterator_key task max_parallel output_key n =
    fan_out_of n
    ≡ some (record {
      iterator_key = iterator_key;
      task = task;
      max_parallel = max_parallel;
      output_key = output_key;
    })

abbrev pub RunsWorkflow : String → Output → TaskNode → Type 0
RunsWorkflow uuid params n =
    ((fields n).sub_workflow ≡ uuid) × ((fields n).sub_workflow_params ≡ params)

abbrev pub BranchesBy : Option (Map String (List TaskGroup)) → String → Bool → TaskNode → Type 0
BranchesBy branches default parallel n =
    (branches_of n ≡ branches)
    × ((fields n).default_branch ≡ default)
    × ((fields n).parallel_branch ≡ parallel)

named_nodes-tasks :
    (names : List String)
    → (detect_advanced_nodes (named_nodes names) ≡ plain)
      × (map name_of (named_nodes names) ≡ names)
      × Mapped [] (named_nodes names)
unfolding detect_advanced_nodes named_nodes get_task_node_type
named_nodes-tasks [] = (refl, refl, tt)
named_nodes-tasks (name ∷ names) =
    let (kind, same, ms') = named_nodes-tasks names in (kind, ap (λ l. name ∷ l) same, (refl, ms'))

mapped_nodes-tasks :
    (names : List String) (ms : List (Map String String))
    → (detect_advanced_nodes (mapped_nodes names ms) ≡ plain)
      × (map name_of (mapped_nodes names ms) ≡ names)
      × Mapped ms (mapped_nodes names ms)
unfolding detect_advanced_nodes mapped_nodes get_task_node_type
mapped_nodes-tasks [] [] = (refl, refl, tt)
mapped_nodes-tasks [] (m ∷ ms) = (refl, refl, tt)
mapped_nodes-tasks (name ∷ names) [] =
    let (kind, same, ms') = mapped_nodes-tasks names [] in
    (kind, ap (λ l. name ∷ l) same, (refl, ms'))
mapped_nodes-tasks (name ∷ names) (m ∷ ms) =
    let (kind, same, ms') = mapped_nodes-tasks names ms in
    (kind, ap (λ l. name ∷ l) same, (refl, ms'))

-- Each builder that is given names or a template adds one group at the end and leaves the rest: of tasks
-- with these names and input mappings, or of one node with its name, its branches, its loop, its Fan-Out or its sub-workflow as
-- given. A loop and a Fan-Out go to their executor, a sub-workflow to its own where its UUID is not empty, and
-- all else to the workers.
pub builders-Adds :
    (wf : Workflow) (names : List String) (mappings : List (Map String String)) (name : String)
    → (def : Branches) (default : String) (parallel : Bool)
    → (loop_params : Output) (bound : ℤ) (type : LoopConditionType) (condition_key : String)
    → (iterator_key task_name : String) (task : TaskNode) (max_parallel : ℤ) (output_key : String)
    → (uuid : String) (sub_params : Output) → (uuid == "") ≡ false
    → AddsTasks names [] wf (add_task_group names wf)
      × AddsTasks names mappings wf (add_task_group_with_input_mapping names mappings wf)
      × AddsNode plain name
          (BranchesBy (branches_of (task_node (named_fields name) def no_fan_out)) default parallel)
          wf
          (add_branch_node_group name def default parallel wf)
      × AddsNode loop name
          (LoopsBy [] bound type condition_key)
          wf
          (add_loop_group name bound type condition_key wf)
      × AddsNode loop name
          (LoopsBy loop_params bound type condition_key)
          wf
          (add_loop_group_with_params name loop_params bound type condition_key wf)
      × AddsNode fan_out name
          (FansOutBy iterator_key (named_node task_name) (pos 0) "")
          wf
          (add_fan_out_group name iterator_key task_name wf)
      × AddsNode fan_out name
          (FansOutBy iterator_key task max_parallel output_key)
          wf
          (add_fan_out_group_with_options name iterator_key task max_parallel output_key wf)
      × AddsNode sub_workflow name (RunsWorkflow uuid []) wf (add_sub_workflow_group name uuid wf)
      × AddsNode sub_workflow name
          (RunsWorkflow uuid sub_params)
          wf
          (add_sub_workflow_group_with_params name uuid sub_params wf)
unfolding add_task_node_group add_task_group add_sub_workflow_group
    add_sub_workflow_group_with_params add_fan_out_group add_fan_out_group_with_options
    add_loop_group add_loop_group_with_params add_task_group_with_input_mapping
    add_branch_node_group detect_advanced_nodes get_task_node_type fan_out_of branches_of
builders-Adds wf names mappings name def default parallel loop_params bound type condition_key
      iterator_key task_name task max_parallel output_key uuid sub_params some_uuid =
    let named = named_nodes-tasks names in
    let mapped = mapped_nodes-tasks names mappings in
    (
      (named_nodes names, refl, named.0, named.1, named.2),
      (mapped_nodes names mappings, refl, mapped.0, mapped.1, mapped.2),
      (_, refl, refl, refl, (refl, refl, refl)),
      (_, refl, refl, refl, (refl, refl)),
      (_, refl, refl, refl, (refl, refl)),
      (_, refl, refl, refl, refl),
      (_, refl, refl, refl, refl),
      (_, refl, rw (some_uuid, detect_advanced_nodes) refl, refl, (refl, refl)),
      (_, refl, rw (some_uuid, detect_advanced_nodes) refl, refl, (refl, refl)),
    )
