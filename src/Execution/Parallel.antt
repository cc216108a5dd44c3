-- ===== src/Execution/Parallel.antt =====
-- infra/engine/scheduler/execution_manager.go, `ParallelExecutor`: the tasks of a group and what
-- their results come to. The results are in the order in which they arrive.
pub mod Verdict
use vibeflow.Prelude.{
  ℕ, zero, suc, ◌+◌, ◌≤◌, ◌<◌, ◌≡◌, refl, ◌↔◌, Bool, true, false, String, List, [], ◌∷◌, ◌++◌,
  Option, none, some, ℤ, pos, ltb_ℤ, pos_part, length, leb, if◌then◌else◌, ◌<>◌, decimal, arith,
  Bool-cases, inl, inr,
}
use vibeflow.Model.Value.{Output}
use vibeflow.Model.Workflow.{TaskGroup}
use vibeflow.Store.{TaskPayload, TaskStatus}
use vibeflow.Execution.Control.{GroupResult, outputs, error}

-- `parallelTaskState`; an output may be nil.
pub data TaskResult : Type 0 where
  output : Option Output → TaskResult
  failure : String → TaskResult

-- How the wait for one task ends; an event comes with its output, or with nil.
pub data TaskEnd : Type 0 where
  push_failed cancelled : String → TaskEnd
  watchdog : ℕ → TaskEnd
  listener_closed : TaskEnd
  event : TaskPayload → Option Output → TaskEnd

abbrev pub show_status : TaskStatus → String
show_status TaskStatus.pending = "PENDING"
show_status TaskStatus.running = "RUNNING"
show_status TaskStatus.completed = "COMPLETED"
show_status TaskStatus.failed = "FAILED"

unfoldable pub event_result : TaskStatus → TaskPayload → Option Output → TaskResult
event_result TaskStatus.completed p o = output o
event_result t p o = failure ("任务状态: " <> show_status t <> ", 错误: " <> p.result)

-- `executeSingleTask`.
unfoldable pub task_result : TaskEnd → TaskResult
unfolding event_result
task_result (push_failed e) = failure e
task_result (cancelled e) = failure ("工作流上下文已取消: " <> e)
task_result (watchdog sec) = failure ("Master 端任务超时：Worker 在 " <> decimal sec <> " 秒内未响应")
task_result listener_closed = failure "任务监听通道已关闭"
task_result (event p o) = event_result p.status p o

-- What the loop over the results keeps.
pub record Tally : Type 0 where
  pub all_outputs : List Output
  pub first_err : Option String
  pub success_count : ℕ

abbrev pub no_results : Tally
no_results = record { all_outputs = []; first_err = none; success_count = 0 }

abbrev pub with_output : Option Output → List Output → List Output
with_output none os = os
with_output (some o) os = os ++ o ∷ []

abbrev pub or_first : Option String → String → Option String
or_first none e = some e
or_first (some d) e = some d

unfoldable pub count_result : TaskResult → Tally → Tally
count_result (output o) t = record t {
  all_outputs = with_output o t.all_outputs;
  success_count = suc t.success_count;
}
count_result (failure e) t = record t { first_err = or_first t.first_err e }

unfoldable pub count_results : List TaskResult → Tally → Tally
unfolding count_result
count_results [] t = t
count_results (r ∷ rs) t = count_results rs (count_result r t)

unfoldable pub verdict : ℕ → ℕ → Tally → GroupResult
verdict total needed t =
    if leb needed t.success_count then outputs t.all_outputs else elim t.first_err [
      | some e ↦ error e
      | none ↦ error (
          "并行任务组执行失败：成功 "
          <> decimal t.success_count
          <> "/"
          <> decimal total
          <> "，需要至少 "
          <> decimal needed
          <> " 个成功")
    ]

-- `ExecuteWithOptions`, for a group of `total` tasks and the option `MinSuccess`.
unfoldable pub execute_with_options : ℕ → ℤ → List TaskResult → GroupResult
unfolding verdict count_results
execute_with_options zero min_success rs = outputs []
execute_with_options (suc n) min_success rs =
    verdict (suc n) (if ltb_ℤ (pos 0) min_success then pos_part min_success else suc n)
      (count_results rs no_results)

abbrev pub successes : List TaskResult → ℕ
successes [] = 0
successes (output o ∷ rs) = suc (successes rs)
successes (failure e ∷ rs) = successes rs

abbrev pub outputs_of : List TaskResult → List Output
outputs_of [] = []
outputs_of (output none ∷ rs) = outputs_of rs
outputs_of (output (some o) ∷ rs) = o ∷ outputs_of rs
outputs_of (failure e ∷ rs) = outputs_of rs

abbrev pub first_failure : List TaskResult → Option String
first_failure [] = none
first_failure (output o ∷ rs) = first_failure rs
first_failure (failure e ∷ rs) = some e
