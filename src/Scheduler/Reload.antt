-- ===== src/Scheduler/Reload.antt =====
-- infra/engine/scheduler/repository.go and infra/store/mysql/history.go: the history that a master
-- reads back when it starts. The table of executions is a list in the order of its ids.
pub mod Oldest
use vibeflow.Prelude.{
  ℕ, Bool, true, false, String, List, [], ◌∷◌, ◌++◌, Map, Option, none, some, ℤ, pos, ltb_ℤ,
  pos_part, length, drop, insert, lookup, string_eq, nat_eq, if◌then◌else◌,
}
use mathlib.Core.List.{reverse}
use vibeflow.Model.Workflow.{Workflow, WorkflowState, WorkflowStatus}
use vibeflow.Scheduler.State.{Manager, System, ids_or_none}
use vibeflow.Heap.{take}

-- A row, with what the JSON library makes of its text.
pub record ExecutionRecord : Type 0 where
  pub execution_id : ℕ
  pub uuid : String
  pub decoded : Option WorkflowState

-- `LoadExecutions`: the newest first, and how many there are.
unfoldable pub load_executions : List ExecutionRecord → ℕ → ℕ → List ExecutionRecord × ℕ
load_executions table offset limit = (take limit (drop offset (reverse table)), length table)

abbrev pub default_max_history_in_memory : ℕ
default_max_history_in_memory = 500

unfoldable pub max_in_memory : ℤ → ℕ
max_in_memory n = if ltb_ℤ (pos 0) n then pos_part n else default_max_history_in_memory

unfoldable pub remember : ℕ → String → WorkflowState → Manager → Manager
remember id uuid st m = record m {
  workflow_history = insert id st m.workflow_history;
  history_by_uuid =
      insert uuid (ids_or_none (lookup uuid m.history_by_uuid) ++ id ∷ []) m.history_by_uuid;
  history_order = m.history_order ++ id ∷ [];
}

unfoldable pub load_record : ExecutionRecord → Manager → Manager
unfolding remember
load_record r m = elim r.decoded [ none ↦ m | some st ↦ remember r.execution_id r.uuid st m ]

unfoldable pub load_records : List ExecutionRecord → Manager → Manager
unfolding load_record
load_records [] m = m
load_records (r ∷ rs) m = load_records rs (load_record r m)

abbrev pub records_or_none : Option (List ExecutionRecord × ℕ) → List ExecutionRecord
records_or_none none = []
records_or_none (some answer) = answer.0

-- `loadHistory`; `ask` is `LoadExecutions`, or its error.
unfoldable pub load_history : (ℕ → ℕ → Option (List ExecutionRecord × ℕ)) → Manager → Manager
unfolding load_records max_in_memory
load_history ask m =
    if m.has_history_store
    then load_records (records_or_none (ask 0 (max_in_memory m.max_history_cache))) m
    else m
