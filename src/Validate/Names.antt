-- ===== src/Validate/Names.antt =====
-- The names that a workflow declares, checked against one another: the last two phases of
-- `validateWorkflowTasks` (infra/engine/scheduler/types.go).
use vibeflow.Prelude.{
  ℕ, suc, String, List, [], ◌∷◌, Map, Option, none, some, lookup, insert, string_eq, if◌then◌else◌,
  ◌==◌,
}
use vibeflow.Model.Workflow.{TaskNode, TaskGroup, name_of, branches_of}
use vibeflow.Validate.Node.{
  TaskError, twice_in_group, twice, branch_no_name, branch_twice_in_group, branch_conflict, Checked,
  ok, err, ◌>>=◌, validate_task_node,
}

-- A name with the number of the group that declared it.
abbrev pub Seen : Type 0
Seen = Map String ℕ

abbrev unless_seen {ℓ κ} :
    {A : Type ℓ} {B : Type κ} → Option B → (B → TaskError) → Checked A → Checked A
unless_seen none e k = k
unless_seen (some b) e k = err (e b)

-- One name: first against its own group, then against the whole workflow.
unfoldable pub declare : String → ℕ → Seen → Seen → Checked (Seen × Seen)
declare name group in_group seen =
    unless_seen (lookup name in_group) (λ g. twice_in_group group name)
      (unless_seen (lookup name seen) (λ prev. twice name prev group)
        (ok (insert name group in_group, insert name group seen)))

unfoldable pub declare_nodes : ℕ → List TaskNode → Seen → Seen → Checked Seen
declare_nodes group [] in_group seen = ok seen
declare_nodes group (n ∷ ns) in_group seen = do
  name ← validate_task_node n group
  s ← declare name group in_group seen
  declare_nodes group ns s.0 s.1

unfoldable pub declare_groups : ℕ → List TaskGroup → Seen → Checked Seen
declare_groups group [] seen = ok seen
declare_groups group (g ∷ gs) seen = do
  s ← declare_nodes group g [] seen
  declare_groups (suc group) gs s

-- One task of a branch of the node `parent`.
unfoldable pub declare_branch_task :
    ℕ → String → String → String → Seen → Seen → Checked (Seen × Seen)
declare_branch_task group parent branch name in_group seen =
    if name == ""
    then err (branch_no_name group parent branch)
    else unless_seen (lookup name in_group) (λ g. branch_twice_in_group group parent branch name)
        (unless_seen (lookup name seen) (λ prev. branch_conflict name group parent branch prev)
          (ok (insert name group in_group, insert name group seen)))

unfoldable pub declare_branch_nodes :
    ℕ → String → String → List TaskNode → Seen → Seen → Checked Seen
declare_branch_nodes group parent branch [] in_group seen = ok seen
declare_branch_nodes group parent branch (n ∷ ns) in_group seen = do
  s ← declare_branch_task group parent branch (name_of n) in_group seen
  declare_branch_nodes group parent branch ns s.0 s.1

unfoldable pub declare_branch_groups : ℕ → String → String → List TaskGroup → Seen → Checked Seen
declare_branch_groups group parent branch [] seen = ok seen
declare_branch_groups group parent branch (g ∷ gs) seen = do
  s ← declare_branch_nodes group parent branch g [] seen
  declare_branch_groups group parent branch gs s

unfoldable pub declare_branches : ℕ → String → Map String (List TaskGroup) → Seen → Checked Seen
declare_branches group parent [] seen = ok seen
declare_branches group parent ((b, gs) ∷ m) seen = do
  s ← declare_branch_groups group parent b gs seen
  declare_branches group parent m s

abbrev pub branches_or_none : Option (Map String (List TaskGroup)) → Map String (List TaskGroup)
branches_or_none none = []
branches_or_none (some m) = m

unfoldable pub declare_all_branches_of : ℕ → List TaskNode → Seen → Checked Seen
declare_all_branches_of group [] seen = ok seen
declare_all_branches_of group (n ∷ ns) seen = do
  s ← declare_branches group (name_of n) (branches_or_none (branches_of n)) seen
  declare_all_branches_of group ns s

unfoldable pub declare_all_branches : ℕ → List TaskGroup → Seen → Checked Seen
declare_all_branches group [] seen = ok seen
declare_all_branches group (g ∷ gs) seen = do
  s ← declare_all_branches_of group g seen
  declare_all_branches (suc group) gs s
