-- ===== src/Worker/Executor.antt =====
-- infra/engine/runtime/executor.go: a worker executes a task, under etcd's mutex (the default) or
-- under the conditional write of cas_lock.go. Whether the mutex is obtained, and what etcd does with
-- each report, are arguments; tracing is left out, and a task's time limit is the task's to keep.
pub mod Once
use vibeflow.Prelude.{
  ℕ, Bool, true, false, String, List, [], ◌∷◌, ◌++◌, Option, none, some, ◌<>◌, if◌then◌else◌,
}
use vibeflow.Circuit.{Breaker}
use vibeflow.Model.Value.{Output}
use vibeflow.Model.Context.{Context, set, new_context, new_context_from_map}
use vibeflow.Store.{TaskPayload, TaskStatus}
use vibeflow.Worker.Lock.{KeyValue, Phase, acquired, try_acquire, update_status}
use vibeflow.Worker.Registry.{Ended, fine, failing, panicking, Handler, Task, Registry, get}
use vibeflow.Worker.Reporter.{Attempt, report}

-- The error of `run`, with whether it wraps `ErrNoRetry`.
pub data RunError : Type 0 where
  no_error : RunError
  run_error : String → Bool → RunError

-- `run`'s deferred `recover` makes an error of a panic.
unfoldable pub recovered : String → Ended → RunError
recovered name fine = no_error
recovered name (failing message no_retry) = run_error message no_retry
recovered name (panicking r) = run_error ("任务 " <> (name <> (" 发生 panic: " <> r))) false

unfoldable pub call : TaskPayload → Handler → Context → RunError × Context
unfolding recovered
call p h c = let r = h (new_context_from_map p.params) c in (recovered p.task_name r.0, r.1)

unfoldable pub roll_back_by : TaskPayload → Option Handler → Context → RunError × Context
unfolding call
roll_back_by p none c = (run_error ("任务 " <> (p.task_name <> " 不支持补偿回滚")) false, c)
roll_back_by p (some h) c = call p h c

-- `run`, for the handler that the registry has under the task's name.
unfoldable pub run_by : Option Task → TaskPayload → Context → RunError × Context
unfolding call roll_back_by
run_by none p c = (run_error ("未注册的任务处理器: " <> p.task_name) false, c)
run_by (some t) p c = if p.rollback then roll_back_by p t.on_rollback c else call p t.execute c

unfoldable pub run : Registry → TaskPayload → Context → RunError × Context
unfolding run_by get
run reg p c = run_by (get p.task_name reg) p c

unfoldable pub set_all : Output → Context → Context
unfolding set
set_all [] c = c
set_all ((k, v) ∷ vs) c = set_all vs (set k v c)

-- The record with the end of the run.
unfoldable pub ended_as : TaskPayload → RunError × Context → TaskPayload
ended_as p (no_error, c) = record p {
  status = TaskStatus.completed;
  result = "ok";
  output = c.vars;
}
ended_as p (run_error message no_retry, c) = record p {
  status = TaskStatus.failed;
  result = message;
  no_retry = if no_retry then true else p.no_retry;
}

unfoldable pub executed : Registry → TaskPayload → TaskPayload
unfolding run set_all ended_as
executed reg p = ended_as p (run reg p (set_all p.input new_context))

-- What an execution leaves: the records written to the task's key, in order, how often the task was
-- run, and the breaker.
pub record Trace : Type 0 where
  pub writes : List TaskPayload
  pub runs : ℕ
  pub breaker : Breaker

-- The attempts of a report, and the times of both reports.
pub record Reports : Type 0 where
  pub running : ℕ → Attempt
  pub final : ℕ → Attempt
  pub running_at : ℕ
  pub final_at : ℕ
  pub running_serialized : Bool
  pub final_serialized : Bool

written : Bool → TaskPayload → List TaskPayload
written delivered p = if delivered then p ∷ [] else []

-- `executeWithMutex`, from the record as the event has it.
unfoldable pub execute_with_mutex : Registry → Bool → Reports → TaskPayload → Breaker → Trace
unfolding executed report written
execute_with_mutex reg locked rs p b =
    let started = record p { status = TaskStatus.running } in
    let first = report rs.running_serialized rs.running rs.running_at b in
    let result = executed reg started in
    let last = report rs.final_serialized rs.final rs.final_at first.0 in
    if locked
    then if first.1
      then record { writes = started ∷ written last.1 result; runs = 1; breaker = last.0 }
      else record { writes = []; runs = 0; breaker = first.0 }
    else record { writes = []; runs = 0; breaker = b }

-- `executeWithCAS`, on the store of cas_lock.go: the store after it, and whether the task was run.
-- The last report of a task whose update is refused goes out unconditionally: `overwrite`.
module _ (kv : KeyValue) (key : String) where
  open kv use {State}

  unfoldable pub finish_cas : Registry → (TaskPayload → State → State) → Phase → State → State × ℕ
  unfolding executed update_status
  finish_cas reg overwrite (acquired p) s =
      let result = executed reg p in
      let w = update_status kv key result s in (if w.1 then w.0 else overwrite result w.0, 1)
  finish_cas reg overwrite _ s = (s, 0)

  unfoldable pub execute_with_cas : Registry → (TaskPayload → State → State) → State → State × ℕ
  unfolding try_acquire finish_cas
  execute_with_cas reg overwrite s =
      let a = try_acquire kv key s in finish_cas reg overwrite a.1 a.0
