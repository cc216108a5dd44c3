-- ===== src/Execution/Run/Weight.antt =====
-- domain/model/workflow.go: the groups of a workflow, counted through all branches; a branch of a
-- group has fewer than the group and what follows it.
use vibeflow.Prelude.{
  ℕ, zero, suc, ◌+◌, ◌≤◌, ◌<◌, ◌≡◌, refl, ap, ◌∙◌, String, List, [], ◌∷◌, Map, some, lookup,
  string_eq, length, get_elem?, drop, ◌==◌, arith, Option-cases, inl, inr, Bool-cases,
}
use vibeflow.Model.Workflow.{
  TaskNode, task_node, no_branches, branch_def, BranchMap, no_branch, branch, NodeGroups, no_group,
  group, Nodes, no_node, and_node, TaskGroup, nodes_list, groups_list, branch_list, branches_of,
  fields,
}
use vibeflow.Execution.Control.{group_or_none, node_with_branches, branch_or_default, branch_target}
use vibeflow.Execution.Run.{size_node, size_map, size_groups, size_nodes}

abbrev pub weight_nodes : TaskGroup → ℕ
weight_nodes [] = 0
weight_nodes (n ∷ ns) = size_node n + weight_nodes ns

-- The number of groups, those of the branches included.
abbrev pub weight : List TaskGroup → ℕ
weight [] = 0
weight (g ∷ gs) = suc (weight_nodes g + weight gs)

weight_nodes-list : (ns : Nodes) → weight_nodes (nodes_list ns) ≡ size_nodes ns
unfolding nodes_list size_nodes
weight_nodes-list no_node = refl
weight_nodes-list (and_node n ns) = omega (arith, weight_nodes-list ns)

weight-list : (gs : NodeGroups) → weight (groups_list gs) ≡ size_groups gs
unfolding groups_list size_groups
weight-list no_group = refl
weight-list (group g gs) = omega (arith, weight_nodes-list g, weight-list gs)

weight-lookup :
    (b : String) (m : BranchMap) (gs : List TaskGroup)
    → lookup b (branch_list m) ≡ some gs
    → weight gs ≤ size_map m
unfolding branch_list size_map lookup
weight-lookup b no_branch gs h = cc
weight-lookup b (branch c hs m) gs h = elim (Bool-cases (c == b)) [
  | inl same ↦
      let e : groups_list hs ≡ gs = ground (arith, same) in
      omega (arith, weight-list hs, ap weight e)
  | inr other ↦ let rest = weight-lookup b m gs (ground (arith, other)) in omega (arith, rest)
]

weight-branch_of :
    (b : String) (n : TaskNode) (m : Map String (List TaskGroup)) (gs : List TaskGroup)
    → branches_of n ≡ some m
    → lookup b m ≡ some gs
    → weight gs ≤ size_node n
unfolding branches_of size_node
weight-branch_of b (task_node f no_branches o) m gs e h = cc
weight-branch_of b (task_node f (branch_def d) o) m gs e h =
    let same : branch_list d ≡ m = ground arith in weight-lookup b d gs (ap (lookup b) same ∙ h)

weight-node_with_branches :
    (b : String) (g : TaskGroup) (n : TaskNode) (m : Map String (List TaskGroup))
    (gs : List TaskGroup)
    → node_with_branches g ≡ some (n, m)
    → lookup b m ≡ some gs
    → weight gs ≤ weight_nodes g
unfolding node_with_branches
weight-node_with_branches b [] n m gs e h = cc
weight-node_with_branches b (x ∷ xs) n m gs e h = elim (Option-cases (branches_of x)) [
  | inl absent ↦
      let rest = weight-node_with_branches b xs n m gs (ground (arith, absent, e)) h in
      omega (arith, rest)
  | inr (d, there) ↦
      let same : d ≡ m = ground (arith, there, e) in
      let small = weight-branch_of b x d gs there (ap (lookup b) same ∙ h) in omega (arith, small)
]

weight-branch_or_default :
    (name default : String) (m : Map String (List TaskGroup)) (gs : List TaskGroup)
    → branch_or_default name default m ≡ some gs
    → (b : String) × (lookup b m ≡ some gs)
unfolding branch_or_default
weight-branch_or_default name default m gs h = elim (Option-cases (lookup name m)) [
  | inl absent ↦ (default, ground (arith, absent, h))
  | inr (found, there) ↦ (name, ground (arith, there, h))
]

pub weight-branch_target :
    (name : String) (g : TaskGroup) (gs : List TaskGroup)
    → branch_target name g ≡ some gs
    → weight gs ≤ weight_nodes g
unfolding branch_target
weight-branch_target name g gs h = elim (Option-cases (node_with_branches g)) [
  | inl absent ↦ ground (arith, absent, h)
  | inr (nm, there) ↦
      let chosen : branch_or_default name (fields nm.0).default_branch nm.1 ≡ some gs =
        ground (arith, there, h) in
      let b = weight-branch_or_default name (fields nm.0).default_branch nm.1 gs chosen in
      weight-node_with_branches b.0 g nm.0 nm.1 gs there b.1
]

pub weight-drop-suc :
    (groups : List TaskGroup) (idx : ℕ)
    → idx < length groups
    → weight (drop idx groups)
      ≡ suc (weight_nodes (group_or_none (get_elem? groups idx)) + weight (drop (suc idx) groups))
weight-drop-suc [] idx h = absurd (omega arith)
weight-drop-suc (g ∷ gs) zero h = refl
weight-drop-suc (g ∷ gs) (suc idx) h = weight-drop-suc gs idx (omega arith)

weight-drop-le : (gs : List TaskGroup) (k : ℕ) → weight (drop k gs) ≤ weight gs
weight-drop-le gs zero = omega arith
weight-drop-le [] (suc k) = omega arith
weight-drop-le (g ∷ gs) (suc k) = omega (arith, weight-drop-le gs k)

pub weight-drop-add :
    (gs : List TaskGroup) (i k : ℕ) → weight (drop (i + k) gs) ≤ weight (drop i gs)
weight-drop-add gs zero k =
    let e : 0 + k ≡ k = omega arith in
    omega (arith, weight-drop-le gs k, ap (λ j. weight (drop j gs)) e)
weight-drop-add [] (suc i) k =
    let e : suc i + k ≡ suc (i + k) = omega arith in omega (arith, ap (λ j. weight (drop j [])) e)
weight-drop-add (g ∷ gs) (suc i) k =
    let e : suc i + k ≡ suc (i + k) = omega arith in
    omega (arith, weight-drop-add gs i k, ap (λ j. weight (drop j (g ∷ gs))) e)
