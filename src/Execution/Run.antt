-- ===== src/Execution/Run.antt =====
-- infra/engine/scheduler/execution_manager.go: the execution of a workflow, group after group.
-- What the workers report for a group, and what other goroutines do to the state meanwhile, is a
-- function of the number of steps left, the group and its input: any function will do. Whether the context
-- ends while a group waits for its delay, and what the state is then, is one of the steps left and the delay.
pub mod Settled
pub mod Weight
pub mod Termination
use vibeflow.Prelude.{
  ℕ, zero, suc, ◌+◌, ◌≤◌, ◌<◌, ◌≡◌, refl, sym, ap, ◌∙◌, Bool, true, false, String, List, [], ◌∷◌,
  ◌++◌, Map, Option, none, some, ℤ, pos, lookup, string_eq, length, leb, get_elem?, drop, ltb_ℤ,
  if◌then◌else◌, ◌==◌, arith,
}
use vibeflow.Model.Value.{Output}
use vibeflow.Model.Workflow.{
  TaskNode, task_node, Branches, no_branches, branch_def, BranchMap, no_branch, branch, NodeGroups,
  no_group, group, Nodes, no_node, and_node, TaskGroup, nodes_list, groups_list, branch_list,
  branches_of, fields,
}
use vibeflow.Scheduler.State.{System}
use vibeflow.Execution.Control.{
  GroupKind, GroupResult, Next, ended, run_groups, out_of_range, detect_advanced_nodes,
  finish_workflow, group_done, group_or_none,
}

abbrev pub World : Type 0
World = ℕ → GroupKind → TaskGroup → List Output → System → GroupResult × System

-- How the wait for a delayed group ends: `none` if the time is up, else with the state as the context ends.
abbrev pub Waits : Type 0
Waits = ℕ → ℤ → System → Option System

-- An execution runs to its end, is given up when the context ends in a delay, or panics at an index, here
-- before it wraps.
pub data Ending : Type 0 where
  finished given_up : System → Ending
  panicked : ℕ → System → Ending

unfoldable pub cut_delay : Waits → ℕ → ℤ → System → Option System
cut_delay waits left delay s = if ltb_ℤ (pos 0) delay then waits left delay s else none

-- `executeGroups` and what follows it; `none` when the fuel is used up.
unfoldable pub execute_groups :
    World → Waits → ℕ → String → List TaskGroup → List Output → ℕ → System → Option Ending
unfolding finish_workflow group_done detect_advanced_nodes cut_delay
execute_groups world waits zero uuid groups upstream idx s = none
execute_groups world waits (suc fuel) uuid groups upstream idx s =
    let g = group_or_none (get_elem? groups idx) in
    let kind = detect_advanced_nodes g in
    let report = world fuel kind g upstream s in
    if leb (length groups) idx
    then some (finished (finish_workflow uuid s))
    else elim (group_done uuid groups idx upstream kind report.0 report.1) [
      | ended t ↦ some (finished t)
      | run_groups delay next outs j t ↦ elim (cut_delay waits fuel delay t) [
        | none ↦ execute_groups world waits fuel uuid next outs j t
        | some u ↦ some (given_up u)
      ]
      | out_of_range j t ↦ some (panicked j t)
    ]

-- The groups below a node, those of its branches at any depth.
unfoldable mutual
  pub size_node : TaskNode → ℕ
  size_node (task_node f b o) = size_branches b

  pub size_branches : Branches → ℕ
  size_branches no_branches = 0
  size_branches (branch_def m) = size_map m

  pub size_map : BranchMap → ℕ
  size_map no_branch = 0
  size_map (branch b gs m) = size_groups gs + size_map m

  pub size_groups : NodeGroups → ℕ
  size_groups no_group = 0
  size_groups (group g gs) = suc (size_nodes g + size_groups gs)

  pub size_nodes : Nodes → ℕ
  size_nodes no_node = 0
  size_nodes (and_node n ns) = size_node n + size_nodes ns
