-- ===== src/Validate/Distinct.antt =====
-- Accepted workflows (infra/engine/scheduler/types.go) declare every task name once.
use vibeflow.Prelude.{
  ℕ, suc, ◌≡◌, refl, false, String, List, [], ◌∷◌, ◌++◌, Map, none, some, lookup, insert,
  lookup-insert, string_eq, ◌==◌, any, arith, subst,
}
use vibeflow.Model.Workflow.{Workflow, TaskNode, TaskGroup, name_of, branches_of}
use vibeflow.Validate.Node.{Checked, ok, err, ◌>>=◌, validate_task_node}
use vibeflow.Validate.Names.{
  Seen, branches_or_none, declare, declare_nodes, declare_groups, declare_branch_task,
  declare_branch_nodes, declare_branch_groups, declare_branches, declare_all_branches_of,
  declare_all_branches,
}
use vibeflow.Validate.Tasks.{validate_workflow_tasks, prechecked, names_declared}

>>=-eq-ok {ℓ κ} :
    {X : Type ℓ} {Y : Type κ} {y : Y} (c : Checked X) (k : X → Checked Y)
    → (c >>= k) ≡ ok y
    → (x : X) × (c ≡ ok x) × (k x ≡ ok y)
>>=-eq-ok (err e) k h = cc
>>=-eq-ok (ok x) k h = (x, refl, h)

-- The names are new to the table, one after the other, and are all that is added to it.
data Adds : Seen → List String → Seen → Type 0 where
  none_added : {s : Seen} → Adds s [] s
  one_added :
      {s t : Seen} {ns : List String} (n : String) (g : ℕ)
      → lookup n s ≡ none
      → Adds (insert n g s) ns t
      → Adds s (n ∷ ns) t

Adds-append : {s t u : Seen} {ns ms : List String} → Adds s ns t → Adds t ms u → Adds s (ns ++ ms) u
Adds-append none_added b = b
Adds-append (one_added n g h a) b = one_added n g h (Adds-append a b)

-- No name stands twice in the list.
abbrev pub Distinct : List String → Type 0
Distinct [] = Unit {0}
Distinct (n ∷ ns) = (any (λ m. m == n) ns ≡ false) × Distinct ns

Adds-absent :
    {s t : Seen} {ns : List String} (n : String) (g : ℕ)
    → lookup n s ≡ some g
    → Adds s ns t
    → any (λ m. m == n) ns ≡ false
unfolding any
Adds-absent n g h none_added = refl
Adds-absent {s} {t} n g h (one_added {t = u} {ns = ns} m k absent rest) =
    let kept : lookup n (insert m k s) ≡ some g =
      ground (arith, string_eq.beq_iff m n, lookup-insert m n k s) in
    let later : any (λ l. l == n) ns ≡ false = Adds-absent n g kept rest in
    ground (arith, string_eq.beq_iff m n, later)

Adds-Distinct : {s t : Seen} {ns : List String} → Adds s ns t → Distinct ns
Adds-Distinct none_added = tt
Adds-Distinct {s} (one_added n g absent rest) = (
  Adds-absent n g (ground (arith, lookup-insert n n g s, string_eq.beq_iff n n)) rest,
  Adds-Distinct rest,
)

-- The name that the validation resolves for a node.
abbrev pub name_or_empty : Checked String → String
name_or_empty (ok name) = name
name_or_empty (err e) = ""

abbrev pub resolved : TaskNode → ℕ → String
resolved n group = name_or_empty (validate_task_node n group)

abbrev pub resolved_names : ℕ → List TaskNode → List String
resolved_names group [] = []
resolved_names group (n ∷ ns) = resolved n group ∷ resolved_names group ns

abbrev pub main_names : ℕ → List TaskGroup → List String
main_names group [] = []
main_names group (g ∷ gs) = resolved_names group g ++ main_names (suc group) gs

abbrev pub task_names : List TaskNode → List String
task_names [] = []
task_names (n ∷ ns) = name_of n ∷ task_names ns

abbrev pub group_names : List TaskGroup → List String
group_names [] = []
group_names (g ∷ gs) = task_names g ++ group_names gs

abbrev pub names_in_branches : Map String (List TaskGroup) → List String
names_in_branches [] = []
names_in_branches ((b, gs) ∷ m) = group_names gs ++ names_in_branches m

abbrev pub names_under : List TaskNode → List String
names_under [] = []
names_under (n ∷ ns) = names_in_branches (branches_or_none (branches_of n)) ++ names_under ns

abbrev pub all_branch_names : List TaskGroup → List String
all_branch_names [] = []
all_branch_names (g ∷ gs) = names_under g ++ all_branch_names gs

declare-new :
    (name : String) (g : ℕ) (i s : Seen) (r : Seen × Seen)
    → declare name g i s ≡ ok r
    → (lookup name s ≡ none) × (r.1 ≡ insert name g s)
unfolding declare
declare-new name g i s r h = ground arith

declare_nodes-Adds :
    (g : ℕ) (ns : List TaskNode) (i s t : Seen)
    → declare_nodes g ns i s ≡ ok t
    → Adds s (resolved_names g ns) t
unfolding declare_nodes
declare_nodes-Adds g [] i s t h = subst (Adds s []) (ground arith) none_added
declare_nodes-Adds g (n ∷ ns) i s t h =
    let (name, valid, h1) = >>=-eq-ok (validate_task_node n g) _ h in
    let (r, new, rest) = >>=-eq-ok (declare name g i s) _ h1 in
    let (absent, added) = declare-new name g i s r new in
    rw valid (one_added name g absent (rw added at (declare_nodes-Adds g ns r.0 r.1 t rest)))

declare_groups-Adds :
    (g : ℕ) (gs : List TaskGroup) (s t : Seen)
    → declare_groups g gs s ≡ ok t
    → Adds s (main_names g gs) t
unfolding declare_groups
declare_groups-Adds g [] s t h = subst (Adds s []) (ground arith) none_added
declare_groups-Adds g (ns ∷ gs) s t h =
    let (u, first, rest) = >>=-eq-ok (declare_nodes g ns [] s) _ h in
    Adds-append (declare_nodes-Adds g ns [] s u first) (declare_groups-Adds (suc g) gs u t rest)

declare_branch_task-new :
    (g : ℕ) (parent branch name : String) (i s : Seen) (r : Seen × Seen)
    → declare_branch_task g parent branch name i s ≡ ok r
    → (lookup name s ≡ none) × (r.1 ≡ insert name g s)
unfolding declare_branch_task
declare_branch_task-new g parent branch name i s r h = ground arith

module _ (g : ℕ) (parent : String) where
  declare_branch_nodes-Adds :
      (branch : String) (ns : List TaskNode) (i s t : Seen)
      → declare_branch_nodes g parent branch ns i s ≡ ok t
      → Adds s (task_names ns) t
  unfolding declare_branch_nodes
  declare_branch_nodes-Adds branch [] i s t h = subst (Adds s []) (ground arith) none_added
  declare_branch_nodes-Adds branch (n ∷ ns) i s t h =
      let (r, new, rest) = >>=-eq-ok (declare_branch_task g parent branch (name_of n) i s) _ h in
      let (absent, added) = declare_branch_task-new g parent branch (name_of n) i s r new in
      one_added (name_of n) g absent
        (rw added at (declare_branch_nodes-Adds branch ns r.0 r.1 t rest))

  declare_branch_groups-Adds :
      (branch : String) (gs : List TaskGroup) (s t : Seen)
      → declare_branch_groups g parent branch gs s ≡ ok t
      → Adds s (group_names gs) t
  unfolding declare_branch_groups
  declare_branch_groups-Adds branch [] s t h = subst (Adds s []) (ground arith) none_added
  declare_branch_groups-Adds branch (ns ∷ gs) s t h =
      let (u, first, rest) = >>=-eq-ok (declare_branch_nodes g parent branch ns [] s) _ h in
      Adds-append (declare_branch_nodes-Adds branch ns [] s u first)
        (declare_branch_groups-Adds branch gs u t rest)

  declare_branches-Adds :
      (m : Map String (List TaskGroup)) (s t : Seen)
      → declare_branches g parent m s ≡ ok t
      → Adds s (names_in_branches m) t
  unfolding declare_branches
  declare_branches-Adds [] s t h = subst (Adds s []) (ground arith) none_added
  declare_branches-Adds ((b, gs) ∷ m) s t h =
      let (u, first, rest) = >>=-eq-ok (declare_branch_groups g parent b gs s) _ h in
      Adds-append (declare_branch_groups-Adds b gs s u first) (declare_branches-Adds m u t rest)

declare_all_branches_of-Adds :
    (g : ℕ) (ns : List TaskNode) (s t : Seen)
    → declare_all_branches_of g ns s ≡ ok t
    → Adds s (names_under ns) t
unfolding declare_all_branches_of
declare_all_branches_of-Adds g [] s t h = subst (Adds s []) (ground arith) none_added
declare_all_branches_of-Adds g (n ∷ ns) s t h =
    let branches = branches_or_none (branches_of n) in
    let (u, first, rest) = >>=-eq-ok (declare_branches g (name_of n) branches s) _ h in
    Adds-append (declare_branches-Adds g (name_of n) branches s u first)
      (declare_all_branches_of-Adds g ns u t rest)

declare_all_branches-Adds :
    (g : ℕ) (gs : List TaskGroup) (s t : Seen)
    → declare_all_branches g gs s ≡ ok t
    → Adds s (all_branch_names gs) t
unfolding declare_all_branches
declare_all_branches-Adds g [] s t h = subst (Adds s []) (ground arith) none_added
declare_all_branches-Adds g (ns ∷ gs) s t h =
    let (u, first, rest) = >>=-eq-ok (declare_all_branches_of g ns s) _ h in
    Adds-append (declare_all_branches_of-Adds g ns s u first)
      (declare_all_branches-Adds (suc g) gs u t rest)

-- In an accepted workflow no name is declared twice: the names that validation resolves for the
-- nodes of all groups, and the names of the tasks in all their branches, are pairwise distinct.
pub validate_workflow_tasks-Distinct :
    (wf : Workflow) (seen : Seen)
    → validate_workflow_tasks wf ≡ ok seen
    → Distinct (main_names 1 wf.task_groups ++ all_branch_names wf.task_groups)
unfolding validate_workflow_tasks
validate_workflow_tasks-Distinct wf seen h =
    let groups = wf.task_groups in
    let (_, _, named) = >>=-eq-ok (prechecked wf) (λ _. names_declared groups) h in
    let (mid, mains, rest) =
      >>=-eq-ok (declare_groups 1 groups []) (declare_all_branches 1 groups) named in
    Adds-Distinct (
      Adds-append (declare_groups-Adds 1 groups [] mid mains)
        (declare_all_branches-Adds 1 groups mid seen rest))
