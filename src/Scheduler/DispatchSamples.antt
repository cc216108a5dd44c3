-- ===== src/Scheduler/DispatchSamples.antt =====
-- The theorems on the dispatcher's queue at small inputs.
use mathlib.Core.List.{Perm}
use vibeflow.Prelude.{
  ℕ, ◌≡◌, ◌⊎◌, refl, Bool, true, String, List, [], ◌∷◌, ◌++◌, Option, pos, ◌+ℤ◌, lookup, string_eq,
  ◌==◌, length,
}
use vibeflow.Model.Workflow.{Workflow}
use vibeflow.Model.Samples.{flow, plain}
use vibeflow.Store.{TaskPayload}
use vibeflow.Scheduler.Dispatch.{Config, PendingTask, Slots, payload_of, reached, wf_active}
use vibeflow.Scheduler.Dispatch.Pending.{try_dispatch_pending}
use vibeflow.Scheduler.Dispatch.Pending.Kept.{try_dispatch_pending-Perm}
use vibeflow.Scheduler.Dispatch.Pending.Exhausted.{
  AllWithin, AllReached, try_dispatch_pending-Exhausted,
}
use vibeflow.Scheduler.Dispatch.Batch.{batch_push}
use vibeflow.Scheduler.Dispatch.Batch.Counted.{known, counted, batch_push-counted}

abbrev limits : Config
limits = record {
  max_concurrent_tasks = pos 2;
  per_workflow_max_concurrency = pos 1;
  default_task_timeout_sec = pos 0;
  default_base_backoff_sec = pos 0;
}

abbrev waiting_for : String → ℕ → PendingTask
waiting_for uuid at = record {
  workflow_name = uuid;
  node = plain "fetch";
  upstream_outputs = [];
  priority = pos 0;
  enqueued = at;
}

abbrev queue : List PendingTask
queue = waiting_for "u1" 5 ∷ waiting_for "u1" 7 ∷ waiting_for "u2" 8 ∷ []

abbrev slots : Slots
slots = record { global_active = pos 0; per_wf_active = []; pending = queue }

abbrev all_running : String → Bool
all_running uuid = true

try_dispatch_pending-Perm_example :
    Perm
      ((try_dispatch_pending all_running limits (pos 30) 9 slots).evicted
        ++ ((try_dispatch_pending all_running limits (pos 30) 9 slots).to_push
            ++ (try_dispatch_pending all_running limits (pos 30) 9 slots).slots.pending))
      queue
try_dispatch_pending-Perm_example = try_dispatch_pending-Perm all_running limits (pos 30) 9 slots

slots-AllWithin : AllWithin limits slots
unfolding lookup
slots-AllWithin = (refl, λ u. refl)

try_dispatch_pending-Exhausted_example :
    AllWithin limits (try_dispatch_pending all_running limits (pos 30) 9 slots).slots
    × ((reached
            (pos 2)
            (try_dispatch_pending all_running limits (pos 30) 9 slots).slots.global_active
          ≡ true)
        ⊎ AllReached limits
            (try_dispatch_pending all_running limits (pos 30) 9 slots).slots
            (try_dispatch_pending all_running limits (pos 30) 9 slots).slots.pending)
try_dispatch_pending-Exhausted_example =
    try_dispatch_pending-Exhausted all_running limits (pos 30) 9 slots slots-AllWithin

abbrev states : String → Option Workflow
states uuid = lookup uuid (("u1", flow) ∷ [])

batch_push-counted_example :
    ((batch_push limits states (λ t. true) true true queue slots).0.global_active
        +ℤ pos (length (known states queue))
      ≡ pos 0 +ℤ pos (length (batch_push limits states (λ t. true) true true queue slots).1))
    × (wf_active "u1" (batch_push limits states (λ t. true) true true queue slots).0
          +ℤ pos (counted (λ t. t.workflow_name == "u1") (known states queue))
        ≡ wf_active "u1" slots
          +ℤ pos (
              counted
                (λ r. r.workflow_id == "u1")
                (batch_push limits states (λ t. true) true true queue slots).1))
batch_push-counted_example = batch_push-counted limits states (λ t. true) true queue slots "u1"

abbrev pub failed_once : TaskPayload
failed_once = payload_of limits "u1" flow (plain "fetch") []
