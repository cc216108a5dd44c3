-- ===== src/Scheduler/WatchSamples.antt =====
-- The theorems on the watchers, the snapshots and the recovery at small inputs.
use vibeflow.Prelude.{
  ◌≡◌, refl, true, false, [], ◌∷◌, ◌++◌, none, some, pos, lookup, insert, delete, false, List, has,
  all, string_eq, nat_eq,
}
use vibeflow.Model.Workflow.{WorkflowState}
use vibeflow.Model.Delta.{apply_deltas}
use vibeflow.Model.Samples.{flow, plain, running_state}
use vibeflow.Scheduler.State.{lock_entry, watch_status}
use vibeflow.Scheduler.Samples.{system, entry, entry_there}
use vibeflow.Store.{TaskPayload, TaskStatus}
use vibeflow.Scheduler.Watchers.{Channel, BacklogEntry, Watchers, dispatch}
use vibeflow.Scheduler.Watchers.Accounted.{Accounted, dispatch-Accounted}
use vibeflow.Scheduler.Watchers.Rescan.{TaskKeyValue, fan_out_payload, missed_payload}
use vibeflow.Scheduler.Watchers.Rescan.Keys.{LeavesKey, missed_payload-LeavesKey}
use vibeflow.Scheduler.Listeners.{TaskListeners, Call, registers, unregisters, notifies, calls}
use vibeflow.Scheduler.Listeners.Silent.{overtaken-silent}
use vibeflow.Scheduler.Snapshot.{is_marked, recover_single_workflow, recovered_state}
use vibeflow.Scheduler.Snapshot.Resumed.{is_done, AllDone, recover-AllDone}
use vibeflow.Scheduler.Dispatch.{payload_of}
use vibeflow.Scheduler.DispatchSamples.{failed_once}

abbrev late : BacklogEntry
late = record { workflow_uuid = "u1"; payload = failed_once; added_at = 5 }

abbrev channel : Channel
channel = record { buffer = failed_once ∷ []; closed = false }

abbrev watchers : Watchers
watchers = record {
  chans = ("u1", 0) ∷ [];
  heap = (0, channel) ∷ [];
  made = 1;
  backlog = late ∷ [];
  dropped = 0;
}

u1_known : lookup "u1" watchers.chans ≡ some 0
unfolding lookup
u1_known = refl

u1_made : lookup 0 watchers.heap ≡ some channel
unfolding lookup
u1_made = refl

dispatch-Accounted_example :
    (v : Watchers) × (dispatch false late watchers ≡ some v) × Accounted 0 late watchers v
dispatch-Accounted_example = dispatch-Accounted false 0 channel late watchers u1_known u1_made refl

fetch_unmarked : is_marked "fetch" running_state.snapshotted ≡ false
unfolding is_marked lookup
fetch_unmarked = refl

abbrev fresh_state : WorkflowState
fresh_state = record running_state { completed_tasks = [] }

abbrev one_group : WorkflowState
one_group = record running_state {
  workflow = record flow { task_groups = (plain "fetch" ∷ []) ∷ []; timeout_sec = pos 0 };
  workflow_uuid = "u5";
}

u5_new : lock_entry "u5" system ≡ none
unfolding lookup
u5_new = refl

one_group-AllDone : AllDone one_group.completed_tasks one_group.workflow.task_groups
unfolding is_done all has lookup
one_group-AllDone = (refl, tt)

recover-AllDone_example :
    ((recover_single_workflow one_group [] 60 system).log ≡ system.log ++ watch_status "u5" ∷ [])
    × (lock_entry "u5" (recover_single_workflow one_group [] 60 system)
        ≡ some (record { state = recovered_state one_group; recovered = true }))
unfolding apply_deltas
recover-AllDone_example = recover-AllDone one_group [] 60 system refl u5_new refl one_group-AllDone

abbrev ended_late : TaskPayload
ended_late = record failed_once { task_name = "write"; status = TaskStatus.completed }

abbrev stored_at_end : TaskKeyValue
stored_at_end = record { key = "tasks/PENDING/u1/write/1"; value = "{}" }

write_unknown :
    (has "write" running_state.completed_tasks ≡ false)
    × (has "write" running_state.failed_tasks ≡ false)
unfolding has lookup
write_unknown = (refl, refl)

missed_payload-LeavesKey_example :
    LeavesKey "u1" stored_at_end system
      (fan_out_payload (λ text. some ended_late) stored_at_end)
      (missed_payload (λ text. some ended_late) system stored_at_end)
unfolding payload_of
missed_payload-LeavesKey_example =
    missed_payload-LeavesKey (λ text. some ended_late) stored_at_end ended_late entry entry system
      system refl entry_there write_unknown.0 write_unknown.1 refl entry_there

abbrev no_listeners : TaskListeners
no_listeners = record { listeners = []; heap = []; made = 0 }

-- Two elements of a Fan-Out wait for the same template; both ends are told, and the later one leaves.
abbrev two_elements : List Call
two_elements =
    notifies "u1" "resize" failed_once
    ∷ unregisters "u1" "resize"
    ∷ notifies "u1" "resize" failed_once
    ∷ []

abbrev first_waits : TaskListeners
first_waits = record {
  listeners = [];
  heap =
      (0, record { event = none; closed = false })
      ∷ (1, record { event = some failed_once; closed = true })
      ∷ [];
  made = 2;
}

both_told :
    calls (registers "u1" "resize" ∷ registers "u1" "resize" ∷ two_elements) no_listeners
    ≡ some first_waits
unfolding calls lookup insert delete
both_told = refl

overtaken-silent_example :
    lookup 0 first_waits.heap ≡ some (record { event = none; closed = false })
overtaken-silent_example =
    overtaken-silent "u1" "resize" no_listeners first_waits two_elements tt both_told
