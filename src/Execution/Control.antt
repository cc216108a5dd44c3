-- ===== src/Execution/Control.antt =====
-- infra/engine/scheduler/execution_manager.go: what follows the end of a task group.
-- The index of a group and a skip count are 64-bit `int`s: a sum from 2 ^ 63 on wraps to a negative one.
use vibeflow.Prelude.{
  ℕ, suc, ◌+◌, ◌^◌, not, String, List, [], ◌∷◌, ◌++◌, Map, Option, none, some, ℤ, pos, ltb_ℤ,
  pos_part, lookup, string_eq, length, leb, get_elem?, if◌then◌else◌, ◌==◌, ◌<>◌, decimal,
}
use vibeflow.Model.Value.{Output}
use vibeflow.Model.Context.{new_context_from_map, get_approval, get_branch, get_skip_groups}
use vibeflow.Model.Workflow.{
  TaskNode, TaskGroup, TaskNodeType, WorkflowState, WorkflowStatus, fields, name_of, branches_of,
  fan_out_of, get_task_node_type,
}
use vibeflow.Scheduler.State.{
  workflow_failed, workflow_paused, broadcast, snapshot, fire_workflow_completed, System, emit,
  lock_entry, put_entry, persist_workflow_locked,
}
use vibeflow.Scheduler.Lifecycle.{complete_entry}

-- The executor that a group goes to.
pub data GroupKind : Type 0 where
  plain loop fan_out sub_workflow : GroupKind

kind_by_type : TaskNodeType → TaskNode → GroupKind
unfolding fan_out_of
kind_by_type TaskNodeType.fan_out n = elim (fan_out_of n) [ none ↦ plain | some d ↦ fan_out ]
kind_by_type TaskNodeType.sub_workflow n =
    if (fields n).sub_workflow == "" then plain else sub_workflow
kind_by_type _ n = plain

node_kind : TaskNode → GroupKind
unfolding kind_by_type get_task_node_type
node_kind n = elim (fields n).loop [ some l ↦ loop | none ↦ kind_by_type (get_task_node_type n) n ]

-- `detectAdvancedNodes`: the first node that is not plain decides.
unfoldable pub detect_advanced_nodes : TaskGroup → GroupKind
unfolding node_kind
detect_advanced_nodes [] = plain
detect_advanced_nodes (n ∷ ns) =
    let rest = detect_advanced_nodes ns in elim (node_kind n) [ plain ↦ rest | k ↦ k ]

-- What comes next: nothing, the groups from an index on, after a delay in seconds, or a panic, since an
-- index, here before it wraps, is negative.
pub data Next : Type 0 where
  ended : System → Next
  run_groups : ℤ → List TaskGroup → List Output → ℕ → System → Next
  out_of_range : ℕ → System → Next

unfoldable pub finish_workflow : String → System → System
unfolding complete_entry emit
finish_workflow uuid s = emit (fire_workflow_completed uuid) (complete_entry uuid s)

longest_delay : ℤ → TaskGroup → ℤ
longest_delay d [] = d
longest_delay d (n ∷ ns) =
    longest_delay (if ltb_ℤ d (fields n).delay_sec then (fields n).delay_sec else d) ns

abbrev pub group_or_none : Option TaskGroup → TaskGroup
group_or_none none = []
group_or_none (some g) = g

unfoldable pub advance_to_group : List TaskGroup → ℕ → List Output → System → Next
unfolding longest_delay
advance_to_group groups idx upstream s =
    run_groups (longest_delay (pos 0) (group_or_none (get_elem? groups idx))) groups upstream idx s

unfoldable pub push_branch_groups : String → List TaskGroup → List Output → ℕ → System → Next
unfolding finish_workflow advance_to_group
push_branch_groups uuid groups upstream idx s =
    if leb (length groups) idx
    then ended (finish_workflow uuid s)
    else advance_to_group groups idx upstream s

-- `findTaskNameInOutput`: the first task of the group.
unfoldable pub first_name : TaskGroup → String
first_name [] = ""
first_name (n ∷ ns) = name_of n

unfoldable pub paused_state : WorkflowState → ℕ → Output → WorkflowState → WorkflowState
unfolding first_name
paused_state seen idx output st = record st {
  status = WorkflowStatus.paused;
  paused_task_name = first_name (group_or_none (get_elem? seen.workflow.task_groups idx));
  paused_task_output = output;
  paused_group_idx = idx;
}

-- `pauseForApproval`; the message is only shown.
unfoldable pub pause_for_approval : String → WorkflowState → ℕ → Output → System → System
unfolding paused_state emit put_entry
pause_for_approval uuid seen idx output s = elim (lock_entry uuid s) [
  | none ↦ s
  | some e ↦ emit (broadcast workflow_paused uuid) (
      emit (snapshot uuid)
        (put_entry uuid (record e { state = paused_state seen idx output e.state }) s))
]

-- `findTaskNodeWithBranches`.
unfoldable pub node_with_branches : TaskGroup → Option (TaskNode × Map String (List TaskGroup))
unfolding branches_of
node_with_branches [] = none
node_with_branches (n ∷ ns) =
    let rest = node_with_branches ns in elim (branches_of n) [ none ↦ rest | some m ↦ some (n, m) ]

unfoldable pub branch_or_default :
    String → String → Map String (List TaskGroup) → Option (List TaskGroup)
branch_or_default name default m = elim (lookup name m) [
  | some gs ↦ some gs
  | none ↦ if default == "" then none else lookup default m
]

-- The groups of the branch that the output asks for, if there is one.
unfoldable pub branch_target : String → TaskGroup → Option (List TaskGroup)
unfolding node_with_branches branch_or_default
branch_target name g = if name == "" then none else elim (node_with_branches g) [
  | none ↦ none
  | some nm ↦ branch_or_default name (fields nm.0).default_branch nm.1
]

-- The end of `advanceWorkflow`.
unfoldable pub advance_next : String → List TaskGroup → ℕ → List Output → System → Next
unfolding finish_workflow advance_to_group
advance_next uuid groups next upstream s =
    if leb (length groups) next
    then ended (finish_workflow uuid s)
    else advance_to_group groups next upstream s

unfoldable pub skip_to : String → List TaskGroup → ℕ → List Output → System → Next
unfolding advance_next
skip_to uuid groups next upstream s =
    let inside = advance_next uuid groups next upstream s in
    if leb (2 ^ 63) next then out_of_range next s else inside

-- The loop of `advanceWorkflow` over the outputs of the group `idx`: the first output with a mark
-- decides.
unfoldable pub advance_outputs :
    String
    → WorkflowState
    → List TaskGroup
    → ℕ
    → List Output
    → List Output
    → List Output
    → System
    → Next
unfolding pause_for_approval branch_target push_branch_groups advance_next skip_to get_approval
    get_branch get_skip_groups
advance_outputs uuid st groups idx all merged [] s = advance_next uuid groups (suc idx) merged s
advance_outputs uuid st groups idx all merged (o ∷ os) s =
    let rest = advance_outputs uuid st groups idx all merged os s in
    let c = new_context_from_map o in
    let skip = get_skip_groups c in
    if not (get_approval c == "")
    then ended (pause_for_approval uuid st idx o s)
    else elim (branch_target (get_branch c) (group_or_none (get_elem? groups idx))) [
      | some branch ↦ push_branch_groups uuid branch all 0 s
      | none ↦
          if ltb_ℤ (pos 0) skip then skip_to uuid groups (suc idx + pos_part skip) all s else rest
    ]

unfoldable pub advance_workflow :
    String → WorkflowState → List TaskGroup → ℕ → List Output → List Output → System → Next
unfolding advance_outputs
advance_workflow uuid st groups idx outputs merged s =
    advance_outputs uuid st groups idx outputs merged outputs s

-- What the executor of a group reports.
pub data GroupResult : Type 0 where
  outputs : List Output → GroupResult
  error : String → GroupResult

unfoldable pub group_label : GroupKind → String
group_label plain = "任务组 "
group_label loop = "循环任务组 "
group_label _ = "高级任务组 "

unfoldable pub fail_group : String → String → System → System
unfolding persist_workflow_locked emit put_entry
fail_group uuid message s = emit (broadcast workflow_failed uuid) (elim (lock_entry uuid s) [
  | none ↦ s
  | some e ↦
      let st = record (e.state) { status = WorkflowStatus.failed; error = message } in
      persist_workflow_locked uuid st (put_entry uuid (record e { state = st }) s)
])

-- The callback at the end of a group.
unfoldable pub group_done :
    String → List TaskGroup → ℕ → List Output → GroupKind → GroupResult → System → Next
unfolding fail_group advance_workflow group_label
group_done uuid groups idx upstream kind (error e) s =
    ended (fail_group uuid (group_label kind <> decimal (suc idx) <> " 执行失败: " <> e) s)
group_done uuid groups idx upstream kind (outputs os) s = elim (lock_entry uuid s) [
  | none ↦ ended s
  | some e ↦ advance_workflow uuid e.state groups idx os (upstream ++ os) s
]
