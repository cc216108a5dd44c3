-- ===== src/Scheduler/Rollback/Ended.antt =====
-- infra/engine/scheduler/watch.go: how a timeout and a skipped task end the workflow.
use vibeflow.Prelude.{
  ◌≡◌, ap, true, String, none, some, string_eq, Option-cases, delete, insert, ◌<>◌, inl, inr,
}
use vibeflow.Model.Workflow.{
  Workflow, WorkflowState, WorkflowStatus, ErrorPolicy, ErrorPolicyType, TimeoutPolicy,
}
use vibeflow.Model.Policy.{get_task_error_policy, is_skippable, get_timeout_policy}
use vibeflow.Store.{TaskPayload}
use vibeflow.Scheduler.State.{Entry, System, emit, lock_entry, put_entry, persist_workflow_locked}
use vibeflow.Scheduler.Failure.{
  execute_skip, failure_by, handle_task_failed, timeout_after, timeout_in, timeout_by,
  mark_workflow_failed, skip_output,
}
use vibeflow.Scheduler.Rollback.{IsActive, archive_as, lock_entry-archive_as, saga-absent}

-- The state that a workflow is archived with when its time is over.
abbrev pub timed_out_state : WorkflowState → String → WorkflowState
timed_out_state st shown = record st { error = "工作流执行超时（" <> shown <> "）" }

timeout_by-absent :
    (t : TimeoutPolicy) (uuid shown : String) (s : System)
    → lock_entry uuid s ≡ none
    → (timeout_by t uuid shown s).wm ≡ s.wm
unfolding timeout_by
timeout_by-absent TimeoutPolicy.fail uuid shown s h =
    unfold mark_workflow_failed emit in rw (h, mark_workflow_failed)
timeout_by-absent _ uuid shown s h = ap (λ (r : System). r.wm) (saga-absent uuid _ s h)

-- When a running or paused workflow runs out of time, it is archived with the status that it had,
-- under either timeout policy: it is neither rolled back nor marked failed.
pub timeout_after_lem :
    (uuid shown : String) (e : Entry) (s : System)
    → lock_entry uuid s ≡ some e
    → IsActive e.state.status
    → (timeout_after uuid shown s).wm
      ≡ (persist_workflow_locked uuid
          (timed_out_state e.state shown)
          (put_entry uuid (record e { state = timed_out_state e.state shown }) s)).wm
unfolding timeout_after
timeout_after_lem uuid shown e s h active = rw (h, timeout_after) (by_status e.state.status active)
  where
    archived : System
    archived = archive_as uuid (timed_out_state e.state shown) e s

    left :
        (timeout_by (get_timeout_policy e.state.workflow.error_policy) uuid shown archived).wm
        ≡ archived.wm
    left =
        timeout_by-absent (get_timeout_policy e.state.workflow.error_policy) uuid shown archived
          (lock_entry-archive_as uuid (timed_out_state e.state shown) e s)

    by_status : (t : WorkflowStatus) → IsActive t → (timeout_in t uuid shown e s).wm ≡ archived.wm
    by_status WorkflowStatus.running a = unfold timeout_in in left
    by_status WorkflowStatus.paused a = unfold timeout_in in left
    by_status WorkflowStatus.pending a = absurd a
    by_status WorkflowStatus.rolling_back a = absurd a
    by_status WorkflowStatus.rolled_back a = absurd a
    by_status WorkflowStatus.completed a = absurd a
    by_status WorkflowStatus.failed a = absurd a

-- The state that a workflow is archived with when a failed task of it is skipped.
abbrev pub skipped_state : WorkflowState → TaskPayload → WorkflowState
skipped_state st p = record st {
  completed_tasks = insert p.task_name (skip_output p) st.completed_tasks;
  failed_tasks = delete p.task_name st.failed_tasks;
}

execute_skip-absent :
    (uuid : String) (p : TaskPayload) (s : System) → lock_entry uuid (execute_skip uuid p s) ≡ none
unfolding execute_skip
execute_skip-absent uuid p s = elim (Option-cases (lock_entry uuid s)) [
  | inl e ↦ rw (e, execute_skip) e
  | inr (entry, e) ↦
      rw (e, execute_skip) (lock_entry-archive_as uuid (skipped_state entry.state p) entry s)
]

-- Skipping a failed task under the policy skip takes the whole workflow out of the running set, so
-- no later task group of it can be run.
pub skip_ends_workflow :
    (uuid : String) (wf : Workflow) (ep : ErrorPolicy) (p : TaskPayload) (s : System)
    → wf.error_policy ≡ some ep
    → get_task_error_policy (some ep) p.task_name ≡ ErrorPolicyType.skip
    → is_skippable (some ep) p.task_name ≡ true
    → lock_entry uuid (handle_task_failed uuid wf p s) ≡ none
unfolding handle_task_failed
skip_ends_workflow uuid wf ep p s given policy skippable =
    rw (given, handle_task_failed)
      (rw (policy, failure_by) (rw skippable (execute_skip-absent uuid p s)))
