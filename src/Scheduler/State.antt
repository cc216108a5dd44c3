-- ===== src/Scheduler/State.antt =====
-- infra/engine/scheduler/workflow_manager.go: what the manager keeps, and the move of a workflow
-- from the running set to the history.
-- An operation that holds the locks it needs is one step of the state. What it hands to another
-- part (a goroutine that it starts, a message, a store) is an effect in the log, oldest first.
-- A running entry and the history share the state by pointer in the code; every write goes through
-- the running set, so the copy in the history is the value at the time of the move.
use vibeflow.Prelude.{
  ℕ, suc, ◌-◌, Bool, String, List, [], ◌∷◌, ◌++◌, Map, Option, none, some, ℤ, pos, lookup, insert,
  delete, string_eq, nat_eq, length, drop, ltb, ltb_ℤ, pos_part, if◌then◌else◌, ◌==◌,
}
use vibeflow.Model.Value.{Output}
use vibeflow.Model.Workflow.{Workflow, WorkflowState, WorkflowStatus, TaskNode}
use vibeflow.Store.{TaskPayload}

-- domain/model/event.go, the events that the modelled operations send.
pub data EventType : Type 0 where
  task_completed task_failed task_skipped task_rolled_back : EventType
  workflow_submitted workflow_completed workflow_failed workflow_cancelled : EventType
  workflow_paused workflow_approved workflow_rejected : EventType
  workflow_rolling_back workflow_rolled_back : EventType

pub data Effect : Type 0 where
  broadcast : EventType → String → Effect
  cancel_context clean_snapshot_throttle cleanup_per_wf_counter snapshot : String → Effect
  persist_to_mysql : String → ℕ → ℕ → WorkflowStatus → String → Effect
  save_task_record : String → String → Effect
  delete_key : String → Effect
  notify_listener : String → String → TaskPayload → Effect
  release_slot : String → Effect
  retry_task : TaskPayload → ℤ → Effect
  push_rollback : String → TaskNode → Output → Effect
  fire_task_failed : String → String → Effect
  fire_workflow_completed : String → Effect
  execute_workflow : String → List Output → ℕ → Effect
  start_timeout : String → ℤ → Effect
  watch_status init_mysql : String → Effect
  cleanup_watcher cleanup_listeners : String → Effect

-- `workflowEntry`; its cancel function is always set.
pub record Entry : Type 0 where
  pub state : WorkflowState
  pub recovered : Bool

pub record Manager : Type 0 where
  pub running_entries : Map String Entry
  pub workflow_history : Map ℕ WorkflowState
  pub history_by_uuid : Map String (List ℕ)
  pub registered_workflows : Map String Workflow
  pub history_order : List ℕ
  pub completed_count : ℕ
  pub failed_count : ℕ
  pub max_history_cache : ℤ
  pub has_history_store : Bool

pub record System : Type 0 where
  pub wm : Manager
  pub log : List Effect

unfoldable pub emit : Effect → System → System
emit e s = record s { log = s.log ++ e ∷ [] }

-- `LockEntry` and `RLockEntry`: `none` is the nil entry.
abbrev pub lock_entry : String → System → Option Entry
lock_entry uuid s = lookup uuid s.wm.running_entries

-- A write through a locked entry.
unfoldable pub put_entry : String → Entry → System → System
put_entry uuid e s = record s {
  wm = record (s.wm) { running_entries = insert uuid e s.wm.running_entries };
}

abbrev pub ids_or_none : Option (List ℕ) → List ℕ
ids_or_none none = []
ids_or_none (some ids) = ids

abbrev pub max_history_by_uuid : ℕ
max_history_by_uuid = 10

-- `s[len(s)-10:]` where there are more than 10.
unfoldable pub keep_latest : List ℕ → List ℕ
keep_latest ids =
    if ltb max_history_by_uuid (length ids)
    then drop (length ids - max_history_by_uuid) ids
    else ids

-- `append(s[:i], s[i+1:]...)` at the first place of the id.
unfoldable pub remove_first : ℕ → List ℕ → List ℕ
remove_first id [] = []
remove_first id (x ∷ xs) = if x == id then xs else x ∷ remove_first id xs

unfoldable pub put_ids : String → List ℕ → Map String (List ℕ) → Map String (List ℕ)
put_ids uuid [] by = delete uuid by
put_ids uuid (x ∷ xs) by = insert uuid (x ∷ xs) by

-- `removeHistoryByUUIDEntry`. A list without the id is put back as it is.
unfoldable pub remove_history_by_uuid : String → ℕ → Map String (List ℕ) → Map String (List ℕ)
unfolding put_ids remove_first
remove_history_by_uuid uuid id by = elim (lookup uuid by) [
  | none ↦ by
  | some ids ↦ put_ids uuid (remove_first id ids) by
]

unfoldable pub forget : ℕ → Map ℕ WorkflowState → Map String (List ℕ) → Map String (List ℕ)
unfolding remove_history_by_uuid
forget id history by = elim (lookup id history) [
  | none ↦ by
  | some old ↦ remove_history_by_uuid old.workflow_uuid id by
]

abbrev pub default_max_history_cache : ℕ
default_max_history_cache = 1000

unfoldable pub max_cache : ℤ → ℕ
max_cache n = if ltb_ℤ (pos 0) n then pos_part n else default_max_history_cache

-- The eviction loop: the oldest ids go until the order fits.
unfoldable pub evict :
    ℕ
    → List ℕ
    → Map ℕ WorkflowState
    → Map String (List ℕ)
    → List ℕ × Map ℕ WorkflowState × Map String (List ℕ)
unfolding forget
evict limit [] history by = ([], history, by)
evict limit (id ∷ order) history by =
    let rest = evict limit order (delete id history) (forget id history by) in
    if ltb limit (suc (length order)) then rest else (id ∷ order, history, by)

-- Under the first lock of `PersistWorkflowLocked`.
unfoldable pub archive : String → WorkflowState → Manager → Manager
unfolding keep_latest
archive uuid state m = record m {
  workflow_history = insert state.execution_id state m.workflow_history;
  history_by_uuid =
      insert uuid
        (keep_latest (ids_or_none (lookup uuid m.history_by_uuid) ++ state.execution_id ∷ []))
        m.history_by_uuid;
  history_order = m.history_order ++ state.execution_id ∷ [];
  running_entries = delete uuid m.running_entries;
}

unfoldable pub count_outcome : WorkflowStatus → Manager → Manager
count_outcome WorkflowStatus.completed m = record m { completed_count = suc m.completed_count }
count_outcome WorkflowStatus.failed m = record m { failed_count = suc m.failed_count }
count_outcome WorkflowStatus.rolled_back m = record m { failed_count = suc m.failed_count }
count_outcome _ m = m

unfoldable pub trim_history : Manager → Manager
unfolding evict max_cache
trim_history m =
    let kept =
      evict (max_cache m.max_history_cache) m.history_order m.workflow_history m.history_by_uuid in
    record m { history_order = kept.0; workflow_history = kept.1; history_by_uuid = kept.2 }

-- `PersistWorkflowLocked`. The JSON encoding of the state is taken to succeed: it only feeds MySQL.
unfoldable pub persist_workflow_locked : String → WorkflowState → System → System
unfolding archive count_outcome trim_history
persist_workflow_locked uuid state s = record {
  wm = trim_history (count_outcome state.status (archive uuid state s.wm));
  log =
      s.log
      ++ clean_snapshot_throttle uuid
        ∷ cleanup_per_wf_counter uuid
        ∷ cancel_context uuid
        ∷ persist_to_mysql uuid state.workflow_id state.execution_id state.status state.error
        ∷ [];
}
