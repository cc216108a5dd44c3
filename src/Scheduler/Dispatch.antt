-- ===== src/Scheduler/Dispatch.antt =====
-- infra/engine/scheduler/task_dispatcher.go: a task on its way to the workers.
-- A push is modelled as one that no other push interrupts. Whether the store takes the record is an
-- argument; its key and its encoding are left out.
pub mod Limits
pub mod Pending
pub mod Batch
pub mod Retry
use vibeflow.Prelude.{
  ℕ, suc, ◌+◌, ◌≡◌, Bool, true, false, not, ◌&&◌, ◌||◌, String, List, [], ◌∷◌, ◌++◌, Map, Option,
  none, some, ℤ, pos, negsuc, ◌+ℤ◌, pos_part, ltb_ℤ, lookup, insert, delete, string_eq, nat_beq,
  if◌then◌else◌, eq_ℤ, ltb,
}
use vibeflow.Heap
use vibeflow.Model.Value.{Output}
use vibeflow.Model.Workflow.{Workflow, TaskNode, fields, name_of}
use vibeflow.Model.Mapping.{merge_into, merge_outputs, apply_input_mapping}
use vibeflow.Store.{TaskPayload, TaskStatus}

-- `ConfigProvider`, as far as a push asks it.
pub record Config : Type 0 where
  pub max_concurrent_tasks : ℤ
  pub per_workflow_max_concurrency : ℤ
  pub default_task_timeout_sec : ℤ
  pub default_base_backoff_sec : ℤ

-- The first that is positive, else the last.
abbrev pub positive_or : ℤ → ℤ → ℤ
positive_or a b = if ltb_ℤ (pos 0) a then a else b

abbrev pub default_task_timeout : ℤ
default_task_timeout = pos 30

abbrev pub default_base_backoff : ℤ
default_base_backoff = pos 1

unfoldable pub task_timeout : Config → Workflow → ℤ
task_timeout cfg wf =
    positive_or (positive_or wf.task_timeout_sec cfg.default_task_timeout_sec) default_task_timeout

unfoldable pub task_backoff : Config → Workflow → ℤ
task_backoff cfg wf =
    positive_or (positive_or wf.base_backoff cfg.default_base_backoff_sec) default_base_backoff

unfoldable pub task_input : TaskNode → List Output → Output
unfolding apply_input_mapping merge_into merge_outputs
task_input n upstream = elim (apply_input_mapping n upstream) [
  | some mapped ↦ merge_into [] mapped
  | none ↦ merge_outputs [] upstream
]

-- The record that `doPush` writes.
unfoldable pub payload_of : Config → String → Workflow → TaskNode → List Output → TaskPayload
unfolding task_timeout task_backoff task_input merge_into
payload_of cfg uuid wf n upstream = record {
  workflow_id = uuid;
  task_name = name_of n;
  status = TaskStatus.pending;
  priority = wf.priority;
  params = merge_into [] (fields n).params;
  input = task_input n upstream;
  output = [];
  result = "";
  retry_count = 0;
  max_retries = wf.max_retries;
  timeout_sec = task_timeout cfg wf;
  base_backoff = pos_part (task_backoff cfg wf);
  rollback = false;
  no_retry = false;
  etcd_mod_revision = 0;
  etcd_key = "";
}

pub record PendingTask : Type 0 where
  pub workflow_name : String
  pub node : TaskNode
  pub upstream_outputs : List Output
  pub priority : ℤ
  pub enqueued : ℕ

-- The counters, and the tasks that wait.
pub record Slots : Type 0 where
  pub global_active : ℤ
  pub per_wf_active : Map String ℤ
  pub pending : List PendingTask

abbrev pub or_zero : Option ℤ → ℤ
or_zero none = pos 0
or_zero (some n) = n

-- `loadPerWfActive`.
abbrev pub wf_active : String → Slots → ℤ
wf_active uuid s = or_zero (lookup uuid s.per_wf_active)

-- `incPerWfActive` for the counters.
unfoldable pub inc_wf : String → Slots → Slots
inc_wf uuid s = record s { per_wf_active = insert uuid (wf_active uuid s +ℤ pos 1) s.per_wf_active }

abbrev pub is_zero : ℤ → Bool
is_zero (pos n) = nat_beq n 0
is_zero (negsuc n) = false

-- `decPerWfActive`: at zero the entry goes.
unfoldable pub dec_wf : String → Slots → Slots
dec_wf uuid s =
    let left = wf_active uuid s +ℤ negsuc 0 in
    record s {
      per_wf_active =
          if is_zero left then delete uuid s.per_wf_active else insert uuid left s.per_wf_active;
    }

unfoldable pub add_global : ℤ → Slots → Slots
add_global n s = record s { global_active = s.global_active +ℤ n }

abbrev pub reached : ℤ → ℤ → Bool
reached limit count = ltb_ℤ (pos 0) limit && not (ltb_ℤ count limit)

abbrev pub passed : ℤ → ℤ → Bool
passed limit count = ltb_ℤ (pos 0) limit && ltb_ℤ limit count

pub data PushResult : Type 0 where
  pushed : TaskPayload → PushResult
  queued no_workflow not_stored : PushResult

-- `doPush`.
unfoldable pub do_push :
    Config → Bool → Option Workflow → String → TaskNode → List Output → PushResult
unfolding payload_of
do_push cfg stores none uuid n upstream = no_workflow
do_push cfg stores (some wf) uuid n upstream =
    if stores then pushed (payload_of cfg uuid wf n upstream) else not_stored

abbrev pub priority_of : Option Workflow → ℤ
priority_of none = pos 0
priority_of (some wf) = wf.priority

-- types.go, `Less` of the pending queue: what comes before is less.
abbrev pub pending_less : PendingTask → PendingTask → Bool
pending_less a b =
    if eq_ℤ a.priority b.priority then ltb a.enqueued b.enqueued else ltb_ℤ b.priority a.priority

-- `enqueuePending`, with the lock of the queue.
unfoldable pub enqueue_pending : PendingTask → Slots → Slots
unfolding Heap.push
enqueue_pending t s = record s { pending = Heap.push pending_less t s.pending }

unfoldable pub after_push : Config → String → PushResult → Slots → Slots × PushResult
unfolding dec_wf add_global
after_push cfg uuid (pushed p) s = (s, pushed p)
after_push cfg uuid queued s = (s, queued)
after_push cfg uuid r s =
    (dec_wf uuid (if ltb_ℤ (pos 0) cfg.max_concurrent_tasks then add_global (negsuc 0) s else s), r)

-- The increments of `PushTask`, taken back where they pass a limit.
unfoldable pub take_slots : Config → PendingTask → PushResult → Slots → Slots × PushResult
unfolding inc_wf dec_wf add_global enqueue_pending after_push
take_slots cfg t r s =
    let one = inc_wf t.workflow_name s in
    let both = add_global (pos 1) one in
    if passed cfg.per_workflow_max_concurrency (wf_active t.workflow_name one)
    then (enqueue_pending t (dec_wf t.workflow_name one), queued)
    else if passed cfg.max_concurrent_tasks both.global_active
    then (enqueue_pending t (dec_wf t.workflow_name (add_global (negsuc 0) both)), queued)
    else after_push cfg t.workflow_name r both

-- `PushTask`, for the workflow as the state has it.
unfoldable pub push_task :
    Config
    → Bool
    → Option Workflow
    → String
    → TaskNode
    → List Output
    → ℕ
    → Slots
    → Slots × PushResult
unfolding do_push enqueue_pending take_slots after_push
push_task cfg stores wf uuid n upstream now s =
    let t : PendingTask = record {
      workflow_name = uuid;
      node = n;
      upstream_outputs = upstream;
      priority = priority_of wf;
      enqueued = now;
    } in
    let r = do_push cfg stores wf uuid n upstream in
    if ltb_ℤ (pos 0) cfg.max_concurrent_tasks || ltb_ℤ (pos 0) cfg.per_workflow_max_concurrency
    then if reached cfg.per_workflow_max_concurrency (wf_active uuid s)
        || reached cfg.max_concurrent_tasks s.global_active
      then (enqueue_pending t s, queued)
      else take_slots cfg t r s
    else after_push cfg uuid r s

-- `ReleaseSlotForWorkflow` for the counters.
unfoldable pub release_slot : Config → String → Slots → Slots
unfolding dec_wf add_global
release_slot cfg uuid s =
    dec_wf uuid (if ltb_ℤ (pos 0) cfg.max_concurrent_tasks then add_global (negsuc 0) s else s)
