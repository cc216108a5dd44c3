-- ===== src/Scheduler/RecoverySamples.antt =====
-- The theorems on a master that starts again at small inputs.
use vibeflow.Prelude.{
  ◌≡◌, ◌≤◌, refl, true, List, [], ◌∷◌, some, lookup, string_eq, nat_eq, any, length, arith,
}
use vibeflow.Model.Workflow.{WorkflowStatus}
use vibeflow.Model.Delta.{TaskDelta, Action}
use vibeflow.Model.Samples.{running_state}
use vibeflow.Scheduler.Samples.{system, manager}
use vibeflow.Scheduler.Lifecycle.{get_history}
use vibeflow.Scheduler.Reload.{ExecutionRecord, load_executions, load_history, max_in_memory}
use vibeflow.Scheduler.Reload.Oldest.{first_state, load_history-oldest}
use vibeflow.Scheduler.Deltas.{
  WorkflowSnapshot, RunningRecord, DeltaRows, array, marshal_deltas, load_task_deltas,
  batch_load_task_deltas, recover_running_workflows,
}
use vibeflow.Scheduler.Deltas.Grouped.{batch-load_task_deltas}
use vibeflow.Scheduler.Deltas.Lost.{snapshot_rows, recover_running_workflows-snapshots}

-- The workflow failed first and completed then.
abbrev table : List ExecutionRecord
table =
    record {
      execution_id = 3;
      uuid = "u1";
      decoded = some (record running_state { status = WorkflowStatus.failed });
    }
    ∷ record {
      execution_id = 8;
      uuid = "u1";
      decoded = some (record running_state { status = WorkflowStatus.completed });
    }
    ∷ []

room : length table ≤ max_in_memory manager.max_history_cache
unfolding max_in_memory
room = omega arith

load_history-oldest_example :
    get_history "u1" (record system {
      wm = load_history (λ offset limit. some (load_executions table offset limit)) manager;
    })
    ≡ first_state "u1" table
load_history-oldest_example =
    load_history-oldest "u1" table system refl refl refl room ((omega arith, tt), (tt, tt))

abbrev fetched : TaskDelta
fetched = record { task_name = "fetch"; action = Action.completed; output = []; result = "" }

abbrev snapshot_of_u2 : WorkflowSnapshot
snapshot_of_u2 = record {
  workflow_uuid = "u2";
  execution_id = 9;
  status = "running";
  changed_tasks = fetched ∷ [];
  error = "";
  updated_at = "2024-05-01T10:00:00Z";
}

abbrev u2_record : RunningRecord
u2_record = record {
  execution_id = 9;
  decoded = some (record running_state { workflow_uuid = "u2"; completed_tasks = [] });
}

recover_running_workflows-snapshots_example :
    recover_running_workflows true
      (snapshot_rows ((9, snapshot_of_u2) ∷ []))
      40
      (u2_record ∷ [])
      system
    ≡ recover_running_workflows true [] 40 (u2_record ∷ []) system
recover_running_workflows-snapshots_example =
    recover_running_workflows-snapshots true ((9, snapshot_of_u2) ∷ []) 40 (u2_record ∷ []) system

abbrev two_rows : DeltaRows
two_rows =
    (9, array (marshal_deltas (fetched ∷ []))) ∷ (9, array (marshal_deltas (fetched ∷ []))) ∷ []

batch-load_task_deltas_example :
    lookup 9 (batch_load_task_deltas (4 ∷ 9 ∷ []) two_rows) ≡ load_task_deltas 9 two_rows
unfolding any
batch-load_task_deltas_example = batch-load_task_deltas (4 ∷ 9 ∷ []) 9 two_rows refl
