-- ===== src/Scheduler/Dispatch/Pending.antt =====
-- infra/engine/scheduler/task_dispatcher.go: `tryDispatchPending`, the part under the lock of the
-- queue, with the eviction of tasks that waited too long. Times are in nanoseconds. Whether a workflow
-- still runs, so that marking it failed archives it and resets its counter, is an argument.
pub mod Counters
pub mod Kept
pub mod Exhausted
use vibeflow.Prelude.{
  ℕ, zero, suc, ◌+◌, ◌*◌, ◌-◌, Bool, true, false, ◌||◌, String, List, [], ◌∷◌, ◌++◌, Map, delete,
  Option, none, some, ℤ, pos, pos_part, ltb, ltb_ℤ, length, get_elem?, any, string_eq, ◌==◌, ◌<>◌,
  decimal, if◌then◌else◌,
}
use vibeflow.Heap
use vibeflow.Store.{TaskPayload, TaskStatus}
use vibeflow.Model.Workflow.{name_of}
use vibeflow.Scheduler.Dispatch.{
  Config, PendingTask, Slots, pending_less, wf_active, inc_wf, add_global, reached,
}

abbrev pub second : ℕ
second = 1000000000

abbrev pub default_pending_task_timeout : ℕ
default_pending_task_timeout = 300

-- `getPendingTimeoutSec`.
unfoldable pub pending_timeout : ℤ → ℕ
pending_timeout t = if ltb_ℤ (pos 0) t then pos_part t else default_pending_task_timeout

-- `heap.Pop`, its answer unused.
unfoldable pub drop_top : List PendingTask → List PendingTask
unfolding Heap.pop
drop_top h = (Heap.pop pending_less h).1

-- `evictTimedOutLocked`: as long as the task at the top waited too long, it goes. What is left, and
-- what went, with at most `k` rounds.
unfoldable pub evict_timed_out : ℕ → ℕ → ℕ → List PendingTask → List PendingTask × List PendingTask
unfolding drop_top
evict_timed_out zero timeout now h = (h, [])
evict_timed_out (suc k) timeout now [] = ([], [])
evict_timed_out (suc k) timeout now (t ∷ h) =
    let rest = evict_timed_out k timeout now (drop_top (t ∷ h)) in
    if ltb (t.enqueued + timeout) now then (rest.0, t ∷ rest.1) else (t ∷ h, [])

-- The counters after `markWorkflowFailed` for the evicted tasks.
unfoldable pub mark_failed : (String → Bool) → List PendingTask → Map String ℤ → Map String ℤ
mark_failed runs [] m = m
mark_failed runs (t ∷ ts) m =
    let reset = delete t.workflow_name m in
    mark_failed runs ts (if runs t.workflow_name then reset else m)

-- The record and the message that `markWorkflowFailed` gets for an evicted task.
unfoldable pub timed_out_message : ℕ → String
timed_out_message timeout_sec = "排队超时（等待 " <> (decimal timeout_sec <> " 秒）")

unfoldable pub timed_out_payload : ℕ → PendingTask → TaskPayload
unfolding timed_out_message
timed_out_payload timeout_sec t = record {
  workflow_id = t.workflow_name;
  task_name = name_of t.node;
  status = TaskStatus.failed;
  priority = pos 0;
  params = [];
  input = [];
  output = [];
  result = timed_out_message timeout_sec;
  retry_count = 0;
  max_retries = pos 0;
  timeout_sec = pos 0;
  base_backoff = 0;
  rollback = false;
  no_retry = false;
  etcd_mod_revision = 0;
  etcd_key = "";
}

-- What the loop of `tryDispatchPending` works on.
pub record Round : Type 0 where
  pub slots : Slots
  pub blocked : List String
  pub deferred : List PendingTask
  pub to_push : List PendingTask

is_blocked : String → List String → Bool
is_blocked name = any (λ b. b == name)

-- A task whose workflow is at its limit is put aside.
defer : PendingTask → Round → Round
unfolding drop_top
defer t r = record r {
  slots = record (r.slots) { pending = drop_top r.slots.pending };
  deferred = r.deferred ++ t ∷ [];
}

-- A task that may go takes its slots.
hand : PendingTask → Round → Round
unfolding drop_top inc_wf add_global
hand t r = record r {
  slots =
      inc_wf t.workflow_name
        (add_global (pos 1) (record (r.slots) { pending = drop_top r.slots.pending }));
  to_push = r.to_push ++ t ∷ [];
}

unfoldable pub round : Config → PendingTask → Round → Round
unfolding defer hand is_blocked
round cfg t r =
    if reached cfg.per_workflow_max_concurrency (wf_active t.workflow_name r.slots)
    then defer t (record r { blocked = t.workflow_name ∷ r.blocked })
    else if is_blocked t.workflow_name r.blocked
    then defer t r
    else hand t r

-- A round takes a task from the queue, so that there are as many as tasks at most.
unfoldable pub hand_out : ℕ → Config → Round → Round
unfolding round
hand_out zero cfg r = r
hand_out (suc k) cfg r = elim (get_elem? r.slots.pending 0) [
  | none ↦ r
  | some t ↦
      let rest = hand_out k cfg (round cfg t r) in
      if reached cfg.max_concurrent_tasks r.slots.global_active then r else rest
]

unfoldable pub put_back : List PendingTask → List PendingTask → List PendingTask
unfolding Heap.push
put_back [] h = h
put_back (t ∷ ts) h = put_back ts (Heap.push pending_less t h)

-- The tasks to push, the tasks that were evicted, and what is left.
pub record HandedOut : Type 0 where
  pub slots : Slots
  pub to_push : List PendingTask
  pub evicted : List PendingTask

unfoldable pub try_dispatch_pending : (String → Bool) → Config → ℤ → ℕ → Slots → HandedOut
unfolding pending_timeout evict_timed_out mark_failed hand_out put_back
try_dispatch_pending runs cfg timeout now s =
    let e = evict_timed_out (length s.pending) (pending_timeout timeout * second) now s.pending in
    let r = hand_out (length e.0) cfg (record {
      slots = record s { pending = e.0; per_wf_active = mark_failed runs e.1 s.per_wf_active };
      blocked = [];
      deferred = [];
      to_push = [];
    }) in
    record {
      slots = record (r.slots) { pending = put_back r.deferred r.slots.pending };
      to_push = r.to_push;
      evicted = e.1;
    }
