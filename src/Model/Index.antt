-- ===== src/Model/Index.antt =====
-- domain/model/workflow.go: the flat views of a workflow's groups and the O(1) lookup tables.
pub mod Laws
use vibeflow.Prelude.{
  ℕ, zero, suc, Bool, true, false, String, List, [], ◌∷◌, ◌++◌, Map, Option, none, some, map,
  insert, string_eq, if◌then◌else◌, ◌==◌,
}
use vibeflow.Model.Workflow.{
  TaskNode, TaskNodeType, TaskGroup, name_of, FanOutDef, Workflow, BranchLocation, branches_of,
  fan_out_of, get_task_node_type,
}

abbrev non_empty : String → List String
non_empty s = if s == "" then [] else s ∷ []

template_names : Option FanOutDef → List String
template_names none = []
template_names (some f) = non_empty (name_of f.task)

main_names : TaskNodeType → TaskNode → List String
unfolding template_names fan_out_of
main_names TaskNodeType.sub_workflow n = non_empty (name_of n)
main_names TaskNodeType.fan_out n = non_empty (name_of n) ++ template_names (fan_out_of n)
main_names _ n = name_of n ∷ []

group_names : List TaskGroup → List String
group_names [] = []
group_names (g ∷ gs) = map name_of g ++ group_names gs

branch_names : Map String (List TaskGroup) → List String
unfolding group_names
branch_names [] = []
branch_names ((b, gs) ∷ m) = group_names gs ++ branch_names m

branch_task_names : Option (Map String (List TaskGroup)) → List String
unfolding branch_names
branch_task_names none = []
branch_task_names (some m) = branch_names m

node_names : List TaskNode → List String
unfolding main_names branch_task_names get_task_node_type branches_of
node_names [] = []
node_names (n ∷ ns) =
    main_names (get_task_node_type n) n ++ (branch_task_names (branches_of n) ++ node_names ns)

names_from : List TaskGroup → List String
unfolding node_names
names_from [] = []
names_from (g ∷ gs) = node_names g ++ names_from gs

unfoldable pub all_task_names : Workflow → List String
unfolding names_from
all_task_names wf = names_from wf.task_groups

-- `AllTaskNodes`.
unfoldable pub flatten_groups : List TaskGroup → List TaskNode
flatten_groups [] = []
flatten_groups (g ∷ gs) = g ++ flatten_groups gs

pub all_task_nodes : Workflow → List TaskNode
unfolding flatten_groups
all_task_nodes wf = flatten_groups wf.task_groups

unfoldable pub index_nodes : ℕ → List TaskNode → Map String ℕ → Map String ℕ
index_nodes gi [] idx = idx
index_nodes gi (n ∷ ns) idx = index_nodes gi ns (insert (name_of n) gi idx)

unfoldable pub index_groups : ℕ → List TaskGroup → Map String ℕ → Map String ℕ
unfolding index_nodes
index_groups gi [] idx = idx
index_groups gi (g ∷ gs) idx = index_groups (suc gi) gs (index_nodes gi g idx)

unfoldable pub build_task_group_index : List TaskGroup → Map String ℕ
unfolding index_groups
build_task_group_index groups = index_groups 0 groups []

locate_nodes :
    BranchLocation → List TaskNode → Map String BranchLocation → Map String BranchLocation
locate_nodes l [] idx = idx
locate_nodes l (n ∷ ns) idx = locate_nodes l ns (insert (name_of n) l idx)

locate_groups :
    BranchLocation → List TaskGroup → Map String BranchLocation → Map String BranchLocation
unfolding locate_nodes
locate_groups l [] idx = idx
locate_groups l (g ∷ gs) idx = locate_groups l gs (locate_nodes l g idx)

locate_branches :
    ℕ → String → Map String (List TaskGroup) → Map String BranchLocation → Map String BranchLocation
unfolding locate_groups
locate_branches gi parent [] idx = idx
locate_branches gi parent ((b, gs) ∷ m) idx = locate_branches gi parent m (
    locate_groups (record { parent_group_idx = gi; parent_node_name = parent; branch_name = b }) gs
      idx)

locate_node :
    ℕ
    → String
    → Option (Map String (List TaskGroup))
    → Map String BranchLocation
    → Map String BranchLocation
unfolding locate_branches
locate_node gi parent none idx = idx
locate_node gi parent (some m) idx = locate_branches gi parent m idx

locate_group : ℕ → List TaskNode → Map String BranchLocation → Map String BranchLocation
unfolding locate_node branches_of
locate_group gi [] idx = idx
locate_group gi (n ∷ ns) idx = locate_group gi ns (locate_node gi (name_of n) (branches_of n) idx)

locate_from : ℕ → List TaskGroup → Map String BranchLocation → Map String BranchLocation
unfolding locate_group
locate_from gi [] idx = idx
locate_from gi (g ∷ gs) idx = locate_from (suc gi) gs (locate_group gi g idx)

unfoldable pub build_branch_task_index : List TaskGroup → Map String BranchLocation
unfolding locate_from
build_branch_task_index groups = locate_from 0 groups []

-- `AllTaskNamesCached`.
pub all_task_names_cached : Map String ℕ → Map String BranchLocation → List String
all_task_names_cached group_index branch_index =
    map (λ e. e.0) group_index ++ map (λ e. e.0) branch_index
