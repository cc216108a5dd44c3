-- ===== src/Scheduler/Saga.antt =====
-- infra/engine/scheduler/watch.go: the Saga compensation of a failed workflow.
-- The goroutine that hands out the rollback tasks is the effects that it sends; its waits for each
-- task (a poll every two seconds, at most five tasks at a time, five minutes in all) are not
-- modelled.
use vibeflow.Prelude.{
  ℕ, zero, suc, Bool, true, false, not, ◌&&◌, ◌||◌, String, List, [], ◌∷◌, ◌++◌, Option, none, some,
  lookup, has, insert, string_eq, get_elem?, any, if◌then◌else◌, ◌==◌, ◌<>◌, decimal,
}
use vibeflow.Model.Value.{Output}
use vibeflow.Model.Workflow.{WorkflowState, WorkflowStatus, TaskNode, TaskGroup, name_of}
use vibeflow.Store.{TaskPayload}
use vibeflow.Scheduler.State.{
  workflow_rolling_back, workflow_rolled_back, task_rolled_back, broadcast, push_rollback, Entry,
  System, emit, lock_entry, put_entry, persist_workflow_locked,
}

-- The fallback scan: the first group that holds the task.
unfoldable pub scan_groups : ℕ → String → List TaskGroup → Option ℕ
scan_groups gi name [] = none
scan_groups gi name (g ∷ gs) =
    let rest = scan_groups (suc gi) name gs in
    if any (λ n. name_of n == name) g then some gi else rest

-- `failedGroupIdx`, where `none` is -1.
unfoldable pub failed_group : WorkflowState → String → Option ℕ
unfolding scan_groups
failed_group st name = elim st.task_group_index [
  | some idx ↦ lookup name idx
  | none ↦ scan_groups 0 name st.workflow.task_groups
]

-- Whether a node of a group before the failed one is to be rolled back, and its output.
unfoldable pub rollback_output : String → System → TaskNode → Option Output
rollback_output uuid s node = elim (lock_entry uuid s) [
  | none ↦ none
  | some e ↦
      if has (name_of node) e.state.rolled_back
      then none
      else lookup (name_of node) e.state.completed_tasks
]

unfoldable pub rollbacks_of : String → System → TaskGroup → List (TaskNode × Output)
unfolding rollback_output
rollbacks_of uuid s [] = []
rollbacks_of uuid s (n ∷ ns) = elim (rollback_output uuid s n) [
  | none ↦ rollbacks_of uuid s ns
  | some output ↦ (n, output) ∷ rollbacks_of uuid s ns
]

abbrev pub group_at : List TaskGroup → ℕ → TaskGroup
group_at groups i = elim (get_elem? groups i) [ none ↦ [] | some g ↦ g ]

-- The groups below `gi`, the last one first.
unfoldable pub rollbacks_below : String → System → List TaskGroup → ℕ → List (TaskNode × Output)
unfolding rollbacks_of
rollbacks_below uuid s groups zero = []
rollbacks_below uuid s groups (suc gi) =
    rollbacks_of uuid s (group_at groups gi) ++ rollbacks_below uuid s groups gi

unfoldable pub push_rollbacks : String → List (TaskNode × Output) → System → System
unfolding emit
push_rollbacks uuid [] s = s
push_rollbacks uuid ((n, output) ∷ ts) s =
    push_rollbacks uuid ts (emit (push_rollback uuid n output) s)

-- The branch with nothing (more) to roll back.
unfoldable pub finish_rolled_back : String → System → System
unfolding emit persist_workflow_locked
finish_rolled_back uuid s = emit (broadcast workflow_rolled_back uuid) (elim (lock_entry uuid s) [
  | none ↦ s
  | some e ↦
      let st = record (e.state) { status = WorkflowStatus.rolled_back } in
      persist_workflow_locked uuid st (put_entry uuid (record e { state = st }) s)
])

-- What is rolled back, once the state has been archived.
unfoldable pub roll_back : String → System → List (TaskNode × Output) → System
unfolding finish_rolled_back push_rollbacks
roll_back uuid s [] = finish_rolled_back uuid s
roll_back uuid s (t ∷ ts) = push_rollbacks uuid (t ∷ ts) s

unfoldable pub roll_back_from : String → System → List TaskGroup → Option ℕ → System
unfolding finish_rolled_back roll_back rollbacks_below
roll_back_from uuid s groups none = finish_rolled_back uuid s
roll_back_from uuid s groups (some zero) = finish_rolled_back uuid s
roll_back_from uuid s groups (some (suc gi)) =
    roll_back uuid s (rollbacks_below uuid s groups (suc gi))

abbrev pub retries_exhausted : TaskPayload → String
retries_exhausted p =
    "任务 " <> p.task_name <> " 重试 " <> decimal p.retry_count <> " 次后仍然失败: " <> p.result

unfoldable pub begin_rollback : String → Entry → TaskPayload → System → System
unfolding persist_workflow_locked emit roll_back_from failed_group
begin_rollback uuid e p s =
    let st = record (e.state) {
      status = WorkflowStatus.rolling_back;
      error = retries_exhausted p;
    } in
    let archived = persist_workflow_locked uuid st (put_entry uuid (record e { state = st }) s) in
    roll_back_from uuid (emit (broadcast workflow_rolling_back uuid) archived)
      st.workflow.task_groups (failed_group st p.task_name)

unfoldable pub rollback_in : WorkflowStatus → String → Entry → TaskPayload → System → System
unfolding begin_rollback
rollback_in WorkflowStatus.rolling_back uuid e p s = s
rollback_in WorkflowStatus.rolled_back uuid e p s = s
rollback_in WorkflowStatus.failed uuid e p s = s
rollback_in _ uuid e p s = begin_rollback uuid e p s

unfoldable pub start_saga_rollback : String → TaskPayload → System → System
unfolding rollback_in
start_saga_rollback uuid p s = elim (lock_entry uuid s) [
  | none ↦ s
  | some e ↦ rollback_in e.state.status uuid e p s
]

rolled_back_all : WorkflowState → TaskGroup → Bool
rolled_back_all st [] = true
rolled_back_all st (n ∷ ns) =
    (not (has (name_of n) st.completed_tasks)
      || (elim (lookup (name_of n) st.rolled_back) [ none ↦ false | some b ↦ b ]))
    && rolled_back_all st ns

all_rolled_back : WorkflowState → List TaskGroup → Bool
unfolding rolled_back_all
all_rolled_back st [] = true
all_rolled_back st (g ∷ gs) = rolled_back_all st g && all_rolled_back st gs

-- `handleRollbackCompleted`.
unfoldable pub handle_rollback_completed : String → TaskPayload → System → System
unfolding persist_workflow_locked emit all_rolled_back finish_rolled_back
handle_rollback_completed uuid p s = elim (lock_entry uuid s) [
  | none ↦ s
  | some e ↦
      let st = record (e.state) { rolled_back = insert p.task_name true e.state.rolled_back } in
      let told =
        emit (broadcast task_rolled_back uuid)
          (persist_workflow_locked uuid st (put_entry uuid (record e { state = st }) s)) in
      if all_rolled_back st st.workflow.task_groups then finish_rolled_back uuid told else told
]
