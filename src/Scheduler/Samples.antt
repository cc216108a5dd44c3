-- ===== src/Scheduler/Samples.antt =====
-- A manager with one running workflow, and the theorems on the scheduler at it.
use vibeflow.Prelude.{
  ℕ, List, Option, suc, ℤ, ◌≤◌, ◌≡◌, refl, true, false, [], ◌∷◌, none, some, pos, lookup, string_eq,
  length, any, ◌*◌, ◌^◌, arith,
}
use vibeflow.Model.Samples.{flow, running_state}
use vibeflow.Store.{TaskPayload}
use vibeflow.Scheduler.State.{
  Entry, Manager, System, broadcast, workflow_rolled_back, workflow_rolling_back,
  workflow_cancelled, emit, lock_entry, persist_workflow_locked,
}
use vibeflow.Scheduler.Backoff.{backoff, whole_seconds, backoff_vanishes}
use vibeflow.Scheduler.Saga.{start_saga_rollback}
use vibeflow.Scheduler.Failure.{fake_payload}
use vibeflow.Scheduler.Lifecycle.{done, cancel_workflow, get_history}
use vibeflow.Scheduler.History.Latest.{get_history-persist}
use vibeflow.Scheduler.History.Paged.{panics, sorted_history_locked, list_history_paged}
use vibeflow.Scheduler.History.Paged.Joined.{pages, states, pages-Perm, huge_page-panics}
use vibeflow.Model.Workflow.{WorkflowState}
use mathlib.Core.List.{Perm}
use vibeflow.Scheduler.Rollback.{
  archive_as, rolling_back_state, cancelled_state, start_saga_rollback_lem, cancel_workflow_lem,
}

abbrev pub entry : Entry
entry = record { state = running_state; recovered = false }

abbrev pub manager : Manager
manager = record {
  running_entries = ("u1", entry) ∷ [];
  workflow_history = [];
  history_by_uuid = [];
  registered_workflows = ("u1", flow) ∷ [];
  history_order = 3 ∷ 4 ∷ [];
  completed_count = 0;
  failed_count = 0;
  max_history_cache = pos 2;
  has_history_store = true;
}

abbrev pub system : System
system = record { wm = manager; log = [] }

pub entry_there : lock_entry "u1" system ≡ some entry
unfolding lookup
entry_there = refl

abbrev lost : TaskPayload
lost = record (fake_payload "u1" "write" "disk full") { retry_count = 3; base_backoff = 2 }

backoff_vanishes_example : whole_seconds (backoff (record lost { retry_count = 60 })) ≡ pos 0
backoff_vanishes_example = backoff_vanishes (record lost { retry_count = 60 }) (omega arith)

get_history-persist_example :
    get_history "u1" (persist_workflow_locked "u1" running_state system) ≡ some running_state
unfolding any
get_history-persist_example = get_history-persist "u1" running_state system refl

start_saga_rollback_example :
    start_saga_rollback "u1" lost system
    ≡ emit (broadcast workflow_rolled_back "u1") (
        emit
          (broadcast workflow_rolling_back "u1")
          (archive_as "u1" (rolling_back_state running_state lost) entry system))
start_saga_rollback_example = start_saga_rollback_lem "u1" entry lost system entry_there tt

cancel_workflow_example :
    cancel_workflow "u1" system
    ≡ done (
        emit
          (broadcast workflow_cancelled "u1")
          (archive_as "u1" (cancelled_state running_state) entry system))
cancel_workflow_example = cancel_workflow_lem "u1" entry system entry_there tt

abbrev without_store : Manager
without_store = record manager {
  workflow_history = (9, running_state) ∷ [];
  has_history_store = false;
}

abbrev no_executions : ℤ → ℤ → Option (List (Option WorkflowState) × ℕ)
no_executions offset limit = none

one_kept : length (sorted_history_locked without_store.workflow_history) ≤ 1 * 1
unfolding sorted_history_locked
one_kept = omega arith

pages-Perm_example :
    (pages no_executions 1 without_store 1 ≡ sorted_history_locked without_store.workflow_history)
    × Perm (pages no_executions 1 without_store 1) (states without_store.workflow_history)
pages-Perm_example =
    pages-Perm no_executions 1 without_store 1 refl (omega arith) (omega arith) (omega arith)
      one_kept

huge_page-panics_example :
    list_history_paged no_executions (pos (suc (2 ^ 62))) (pos 2) without_store ≡ panics
huge_page-panics_example =
    huge_page-panics no_executions (2 ^ 62) 2 without_store refl (omega arith) (omega arith)
      (omega arith) (omega arith) (omega arith)
