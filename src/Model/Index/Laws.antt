-- ===== src/Model/Index/Laws.antt =====
-- The lookup table from task name to group (domain/model/workflow.go) against the groups.
use vibeflow.Prelude.{
  ℕ, suc, ◌≡◌, refl, Bool, String, List, [], ◌∷◌, Map, Option, none, some, insert, lookup,
  lookup-insert, string_eq, ◌==◌, arith, any, if◌then◌else◌, ◌∙◌,
}
use vibeflow.Model.Workflow.{TaskNode, TaskGroup, name_of}
use vibeflow.Model.Index.{index_nodes, index_groups, build_task_group_index}

abbrev pub holds : String → TaskGroup → Bool
holds name g = any (λ n. name_of n == name) g

-- The last group, counted from `gi`, that holds a task of the name.
pub last_group : String → ℕ → List TaskGroup → Option ℕ
last_group name gi [] = none
last_group name gi (g ∷ gs) = elim (last_group name (suc gi) gs) [
  | some i ↦ some i
  | none ↦ if holds name g then some gi else none
]

lookup-index_nodes :
    (name : String) (gi : ℕ) (ns : List TaskNode) (idx : Map String ℕ)
    → lookup name (index_nodes gi ns idx) ≡ (if holds name ns then some gi else lookup name idx)
unfolding index_nodes any
lookup-index_nodes name gi [] idx = refl
lookup-index_nodes name gi (n ∷ ns) idx = ground (
  arith,
  lookup-index_nodes name gi ns (insert (name_of n) gi idx),
  lookup-insert (name_of n) name gi idx,
)

lookup-index_groups :
    (name : String) (gi : ℕ) (gs : List TaskGroup) (idx : Map String ℕ)
    → lookup name (index_groups gi gs idx)
      ≡ elim (last_group name gi gs) [ some i ↦ some i | none ↦ lookup name idx ]
unfolding index_groups last_group
lookup-index_groups name gi [] idx = refl
lookup-index_groups name gi (g ∷ gs) idx = ground (
  arith,
  lookup-index_groups name (suc gi) gs (index_nodes gi g idx),
  lookup-index_nodes name gi g idx,
)

last_group-elim :
    (name : String) (gi : ℕ) (gs : List TaskGroup)
    → elim (last_group name gi gs) [ some i ↦ some i | none ↦ none ] ≡ last_group name gi gs
last_group-elim name gi gs = ground arith

-- The table sends a task name to the last group that holds a task of that name, and knows no
-- other name.
pub build_task_group_index_lem :
    (name : String) (groups : List TaskGroup)
    → lookup name (build_task_group_index groups) ≡ last_group name 0 groups
unfolding build_task_group_index lookup
build_task_group_index_lem name groups =
    lookup-index_groups name 0 groups [] ∙ last_group-elim name 0 groups
