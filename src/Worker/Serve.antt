-- ===== src/Worker/Serve.antt =====
-- infra/engine/runtime/worker.go: the events that a worker's watch delivers, the queue, and the
-- execution of what the queue hands out. A free slot of the semaphore is taken for given, the locks
-- and reports succeed, and a task ends before the next is taken.
pub mod Repeats
use vibeflow.Prelude.{
  ℕ, zero, suc, ◌+◌, Bool, true, false, ◌&&◌, String, List, [], ◌∷◌, ◌++◌, Map, Option, none, some,
  ℤ, pos, lookup, insert, delete, has, string_eq, if◌then◌else◌, ltb,
}
use vibeflow.Circuit.{Breaker}
use vibeflow.Store.{TaskPayload, TaskStatus}
use vibeflow.Worker.Queue
use vibeflow.Worker.Queue.{TaskQueue, Answer, event, ended, waits, enqueue, dequeue_round}
use vibeflow.Worker.Registry.{Registry}
use vibeflow.Worker.Executor.{Reports, Trace, execute_with_mutex}

pub data EventType : Type 0 where
  event_put event_delete : EventType

-- `store.Event`, its value as what the JSON library reads in it.
pub record Event : Type 0 where
  pub type : EventType
  pub key : String
  pub value : Option TaskPayload

-- The filter of the watch, which looks at the name of the task only; Store.Scan has the scan that
-- finds the name in the text of the record, and here it is taken to find the name that was written.
unfoldable pub accepts : Registry → Event → Bool
accepts reg e = elim e.value [ none ↦ false | some p ↦ has p.task_name reg ]

abbrev pub priority_of : Event → ℤ
priority_of e = elim e.value [ none ↦ pos 0 | some p ↦ p.priority ]

is_put : EventType → Bool
is_put event_put = true
is_put event_delete = false

-- The watch and the event loop of `Start`, for an event under the prefix of the pending tasks.
unfoldable pub deliver : Registry → Event → TaskQueue Event → TaskQueue Event
unfolding accepts is_put enqueue
deliver reg e q = if accepts reg e && is_put e.type then enqueue e (priority_of e) q else q

-- etcd tells every watcher of the key's prefix of each write.
unfoldable pub deliver_writes :
    Registry → String → List TaskPayload → TaskQueue Event → TaskQueue Event
unfolding deliver
deliver_writes reg key [] q = q
deliver_writes reg key (p ∷ ps) q =
    deliver_writes reg key ps
      (deliver reg (record { type = event_put; key = key; value = some p }) q)

pub record Worker : Type 0 where
  pub queue : TaskQueue Event
  pub breaker : Breaker
  pub runs : ℕ

serve_payload : Registry → Reports → String → Option TaskPayload → Worker → Worker
unfolding execute_with_mutex deliver_writes
serve_payload reg rs key none w = w
serve_payload reg rs key (some p) w =
    let t = execute_with_mutex reg true rs p w.breaker in
    record {
      queue = deliver_writes reg key t.writes w.queue;
      breaker = t.breaker;
      runs = w.runs + t.runs;
    }

serve_answer : Registry → Reports → Answer Event → Worker → Worker
unfolding serve_payload
serve_answer reg rs (event e) w = serve_payload reg rs e.key e.value w
serve_answer reg rs ended w = w
serve_answer reg rs waits w = w

-- A round of `consumeFromPriorityQueue`, and what the watch delivers of the writes.
unfoldable pub serve : Registry → Reports → Worker → Worker
unfolding dequeue_round serve_answer
serve reg rs w = let r = dequeue_round w.queue in serve_answer reg rs r.1 (record w { queue = r.0 })

unfoldable pub serves : Registry → (ℕ → Reports) → ℕ → Worker → Worker
unfolding serve
serves reg rs zero w = w
serves reg rs (suc n) w = serves reg (λ i. rs (suc i)) n (serve reg (rs 0) w)

-- `recordReenqueueAttempt`.
unfoldable pub record_reenqueue_attempt : String → Map String ℕ → Map String ℕ × ℕ
record_reenqueue_attempt key m =
    let n = suc (elim (lookup key m) [ none ↦ 0 | some k ↦ k ]) in (insert key n m, n)

-- `clearReenqueueAttempt`.
unfoldable pub clear_reenqueue_attempt : String → Map String ℕ → Map String ℕ
clear_reenqueue_attempt key m = delete key m
