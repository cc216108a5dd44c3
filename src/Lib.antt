-- ===== src/Lib.antt =====
-- vibeflow: a workflow engine of a master and workers that exchange tasks through etcd.
--
-- The master takes workflow definitions (domain/model/workflow.go), checks them
-- (infra/engine/scheduler/types.go), keeps the running ones and a bounded history
-- (workflow_manager.go), runs their task groups one after the other, each group's tasks in parallel
-- (execution_manager.go, advanced_executor.go), and reacts to the events that tasks end with
-- (watch.go, error_policy.go): retries, skips, failures and Saga rollbacks. Ends of workflows start
-- other workflows (event_trigger.go), heartbeats tell which workers live (worker_manager.go). The
-- dispatcher (task_dispatcher.go) hands tasks out within limits and keeps the others in a priority
-- queue. A worker (infra/engine/runtime) queues the tasks that its watch delivers, takes each under
-- a lock of etcd or by compare-and-swap, runs it and reports. A circuit breaker stands in front of
-- the stores (infra/circuit/circuit.go). Snapshots (repository.go) bring running workflows back. A
-- bus (infra/ws/bus.go) tells the clients of the user interface what happens.
--
-- Prelude: tests, lists, maps, integers and texts that the other modules share. A Go map is an
--   association list in one order; a number that may be negative is of the type of Prelude.Int.
-- Heap: Go's container/heap as the two queues of the program use it, for any order.
-- Bus: infra/ws/bus.go, with the steps of all its goroutines; Bus.Indexed and Bus.Agrees have the
--   agreement of its maps.
-- Circuit: infra/circuit/circuit.go; Circuit.Trace has histories of calls.
-- Model: domain/model. Value is Go's `any`, Context is context.go, the rest is workflow.go: the
--   definitions and the execution state (Workflow), error policies (Policy), lookup tables (Index),
--   incremental snapshots (Delta), input mapping (Mapping), the methods that build a workflow
--   (Builder).
-- Validate: types.go, validateWorkflowName, validateTaskNode, validateWorkflowTasks.
-- Store: infra/store/model.go, the task record and the heartbeat; Store.Scan has extractJSONField
--   on the text of a written record.
-- Scheduler.State: the state of WorkflowManager and PersistWorkflowLocked. An operation that runs
--   under the locks is one step of the state; messages, goroutines and store writes are effects in
--   a log, in order. Scheduler.Lifecycle has SubmitWorkflow, RunWorkflow, CancelWorkflow,
--   ApproveWorkflow, RejectWorkflow, RetryWorkflow and GetHistory, and History.Paged has
--   ListHistoryPaged; Saga and Failure have startSagaRollback, handleRollbackCompleted,
--   handleTaskFailed, markWorkflowFailed, timeoutAfter and the error policy's actions; Events has
--   one round of watchWorkflowStatus; Backoff has the 64-bit product of a retry's wait; Trigger has
--   event_trigger.go, Workers worker_manager.go, Workers.Types its registry of task types. Dispatch
--   has task_dispatcher.go: PushTask (Dispatch), tryDispatchPending (Dispatch.Pending), batchPush
--   (Dispatch.Batch), RetryTask and PushRollbackTask (Dispatch.Retry). Watchers has the event
--   channels of watch.go and their backlog, Watchers.Rescan the scan after a lost connection,
--   Snapshot the deltas of repository.go, the throttle of scheduler.go and the recovery of a
--   workflow, Persist the writes of repository.go behind their breaker. Deltas has how snapshots
--   are stored and read back by infra/store/mysql/history.go, with JSON as a tree, and
--   recoverRunningWorkflows; Reload has loadHistory and LoadExecutions. Webhook is TriggerWebhook
--   of scheduler.go. Init has asyncInitMySQL, RegisterWorkflow and the lists of
--   workflow_manager.go, Listeners the task listeners of scheduler.go, and Closed has what all
--   operations on the state keep.
-- Execution: Control is what follows a task group (advanceWorkflow, pauseForApproval,
--   finishWorkflow, pushBranchGroups), Run the execution of all groups, Parallel the verdict on a
--   group's results, Loop runLoop and executeLoopBody, FanOut the inputs of a Fan-Out, Advanced
--   what a Fan-Out and a mixed group come to, Operations the operations on the manager's state in
--   any order, SubWorkflow the start of a sub-workflow and the polling of its state, Built the
--   executor for which each builder of a workflow adds a group.
-- Worker.Lock: tryAcquire and updateStatus, one access of the store at a time; Lock.Moves has the
--   interleavings of any number of workers, failed accesses included. Worker.Queue is
--   priority_queue.go, with its specification as a list in Queue.Sorted and the waiting consumer as
--   a step relation in Queue.Wake; Worker.Registry is registry.go, Worker.Reporter reporter.go,
--   Worker.Heartbeat heartbeat.go, Worker.Executor executor.go, and Worker.Serve the loop of
--   worker.go.
--
-- Fuel: Execution.Run runs on fuel, and a fuel above the number of groups ahead, those of the
-- branches counted, is shown to be enough. Loop rounds are counted down from max_iterations; a lock
-- has three attempts, each with one read and one write. A heap is sifted with as many rounds as it
-- has entries, which the heap order after each call shows to be enough; a queue is looked through
-- with one round for each of its tasks. All else is structural recursion.
--
-- Parameters: what the workers report, and what other goroutines do to the state between two
-- groups, is any function (World), and so is whether the context of the executions ends while a
-- group waits for its delay (Waits). The etcd store of Worker.Lock is any store with the documented
-- behaviour of conditional writes (KeyValue), of which Worker.Samples has an example. User code is
-- any Handler; what etcd does with each attempt of a report, whether it takes a batch, and what the
-- JSON library answers are arguments of the operations; so are reflect.DeepEqual, the digest of the
-- task types and DeepCopy.
--
-- Not modelled: HTTP handlers, the connections of WebSockets, configuration, logging and tracing;
-- the clients of etcd and MySQL; the texts that the JSON encoding makes, but for the first fields
-- of a task record; the parallel recovery of workflows; the semaphore of a worker and its shutdown;
-- the scheduling of goroutines within one group, and pushes that other pushes interrupt.
-- Wrap-around is written out where a product can leave 64 bits (Backoff) or a sum with a skip count
-- does; counters and times are taken to stay within them.
pub mod Prelude
pub mod Heap
pub mod Bus
pub mod Circuit
pub mod Model
pub mod Validate
pub mod Store
pub mod Scheduler
pub mod Execution
pub mod Worker
