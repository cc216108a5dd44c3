-- ===== src/Scheduler/Rollback.antt =====
-- infra/engine/scheduler/watch.go and workflow_manager.go: what the compensation of a failed,
-- cancelled or timed-out workflow does once the workflow has been archived.
pub mod Ended
use vibeflow.Prelude.{
  ℕ, zero, suc, ◌≡◌, refl, ap, ◌∙◌, true, String, List, [], ◌∷◌, Option, none, some, string_eq,
  arith, Option-cases, delete, insert, ◌<>◌, inl, inr,
}
use vibeflow.Model.Workflow.{
  Workflow, WorkflowState, WorkflowStatus, ErrorPolicy, ErrorPolicyType, TaskGroup, TimeoutPolicy,
}
use vibeflow.Model.Policy.{get_task_error_policy, is_skippable, get_timeout_policy}
use vibeflow.Store.{TaskPayload}
use vibeflow.Scheduler.State.{
  Entry, System, broadcast, workflow_rolling_back, workflow_rolled_back, workflow_cancelled, emit,
  lock_entry, put_entry, persist_workflow_locked,
}
use vibeflow.Scheduler.Saga.{
  rollback_output, rollbacks_of, rollbacks_below, roll_back, roll_back_from, finish_rolled_back,
  begin_rollback, rollback_in, retries_exhausted, failed_group, start_saga_rollback, group_at,
}
use vibeflow.Scheduler.Failure.{
  execute_skip, failure_by, handle_task_failed, timeout_after, timeout_in, timeout_by,
  mark_workflow_failed, fake_payload, skip_output,
}
use vibeflow.Scheduler.Lifecycle.{done, cancelled_task, cancel_workflow, cancel_in, cancel_entry}
use vibeflow.Scheduler.History.{lock_entry-persist_self, lock_entry-emit}

-- The statuses of an execution that still goes on.
abbrev pub IsActive : WorkflowStatus → Type 0
IsActive WorkflowStatus.running = Unit {0}
IsActive WorkflowStatus.paused = Unit {0}
IsActive _ = ⊥

-- A write of the state followed by the move to the history.
abbrev pub archive_as : String → WorkflowState → Entry → System → System
archive_as uuid st e s =
    persist_workflow_locked uuid st (put_entry uuid (record e { state = st }) s)

pub lock_entry-archive_as :
    (uuid : String) (st : WorkflowState) (e : Entry) (s : System)
    → lock_entry uuid (archive_as uuid st e s) ≡ none
lock_entry-archive_as uuid st e s =
    lock_entry-persist_self uuid st (put_entry uuid (record e { state = st }) s)

rollbacks_of-absent :
    (uuid : String) (s : System) (ns : TaskGroup)
    → lock_entry uuid s ≡ none
    → rollbacks_of uuid s ns ≡ []
unfolding rollbacks_of rollback_output
rollbacks_of-absent uuid s [] h = refl
rollbacks_of-absent uuid s (n ∷ ns) h = ground (arith, rollbacks_of-absent uuid s ns h)

rollbacks_below-absent :
    (uuid : String) (s : System) (groups : List TaskGroup) (gi : ℕ)
    → lock_entry uuid s ≡ none
    → rollbacks_below uuid s groups gi ≡ []
unfolding rollbacks_below
rollbacks_below-absent uuid s groups zero h = refl
rollbacks_below-absent uuid s groups (suc gi) h =
    simp
      (rollbacks_of-absent uuid s (group_at groups gi) h, rollbacks_below-absent uuid s groups gi h)

finish-absent :
    (uuid : String) (s : System)
    → lock_entry uuid s ≡ none
    → finish_rolled_back uuid s ≡ emit (broadcast workflow_rolled_back uuid) s
unfolding finish_rolled_back
finish-absent uuid s h = rw (h, finish_rolled_back)

roll_back_from-absent :
    (uuid : String) (s : System) (groups : List TaskGroup) (gi : Option ℕ)
    → lock_entry uuid s ≡ none
    → roll_back_from uuid s groups gi ≡ emit (broadcast workflow_rolled_back uuid) s
unfolding roll_back_from
roll_back_from-absent uuid s groups none h = finish-absent uuid s h
roll_back_from-absent uuid s groups (some zero) h = finish-absent uuid s h
roll_back_from-absent uuid s groups (some (suc gi)) h =
    ap (roll_back uuid s) (rollbacks_below-absent uuid s groups (suc gi) h)
    ∙ (unfold roll_back in finish-absent uuid s h)

-- The state that the compensation archives.
abbrev pub rolling_back_state : WorkflowState → TaskPayload → WorkflowState
rolling_back_state st p = record st {
  status = WorkflowStatus.rolling_back;
  error = retries_exhausted p;
}

begin_rollback_lem :
    (uuid : String) (e : Entry) (p : TaskPayload) (s : System)
    → begin_rollback uuid e p s
      ≡ emit (broadcast workflow_rolled_back uuid) (
          emit (broadcast workflow_rolling_back uuid) (
            persist_workflow_locked uuid
              (rolling_back_state e.state p)
              (put_entry uuid (record e { state = rolling_back_state e.state p }) s)))
unfolding begin_rollback
begin_rollback_lem uuid e p s =
    let st = rolling_back_state e.state p in
    let archived = archive_as uuid st e s in
    roll_back_from-absent uuid (emit (broadcast workflow_rolling_back uuid) archived)
      st.workflow.task_groups (failed_group st p.task_name)
      (lock_entry-emit uuid (broadcast workflow_rolling_back uuid) archived
        ∙ lock_entry-archive_as uuid st e s)

-- For a running or paused workflow the Saga compensation does nothing but archive the workflow with
-- status ROLLING_BACK and announce first the start and then the end of the rollback: whatever tasks
-- had completed, no rollback task is handed out.
pub start_saga_rollback_lem :
    (uuid : String) (e : Entry) (p : TaskPayload) (s : System)
    → lock_entry uuid s ≡ some e
    → IsActive e.state.status
    → start_saga_rollback uuid p s
      ≡ emit (broadcast workflow_rolled_back uuid) (
          emit (broadcast workflow_rolling_back uuid) (
            persist_workflow_locked uuid
              (rolling_back_state e.state p)
              (put_entry uuid (record e { state = rolling_back_state e.state p }) s)))
unfolding start_saga_rollback
start_saga_rollback_lem uuid e p s h active =
    rw (h, start_saga_rollback) (by_status e.state.status active)
  where
    by_status :
        (t : WorkflowStatus)
        → IsActive t
        → rollback_in t uuid e p s
          ≡ emit (broadcast workflow_rolled_back uuid) (
              emit (broadcast workflow_rolling_back uuid) (
                persist_workflow_locked uuid
                  (rolling_back_state e.state p)
                  (put_entry uuid (record e { state = rolling_back_state e.state p }) s)))
    by_status WorkflowStatus.running a = unfold rollback_in in begin_rollback_lem uuid e p s
    by_status WorkflowStatus.paused a = unfold rollback_in in begin_rollback_lem uuid e p s
    by_status WorkflowStatus.pending a = absurd a
    by_status WorkflowStatus.rolling_back a = absurd a
    by_status WorkflowStatus.rolled_back a = absurd a
    by_status WorkflowStatus.completed a = absurd a
    by_status WorkflowStatus.failed a = absurd a

pub saga-absent :
    (uuid : String) (p : TaskPayload) (s : System)
    → lock_entry uuid s ≡ none
    → start_saga_rollback uuid p s ≡ s
unfolding start_saga_rollback
saga-absent uuid p s h = rw (h, start_saga_rollback)

-- The state that a cancelled workflow is archived with.
abbrev pub cancelled_state : WorkflowState → WorkflowState
cancelled_state st = record st { error = "用户已取消" }

cancel_entry_lem :
    (uuid : String) (e : Entry) (s : System)
    → cancel_entry uuid e s
      ≡ done (
          emit (broadcast workflow_cancelled uuid) (
            persist_workflow_locked uuid
              (cancelled_state e.state)
              (put_entry uuid (record e { state = cancelled_state e.state }) s)))
unfolding cancel_entry
cancel_entry_lem uuid e s =
    let st = cancelled_state e.state in
    let archived = archive_as uuid st e s in
    ap done (
      saga-absent uuid
        (fake_payload uuid (cancelled_task e.state.status e.state.paused_task_name) "用户已取消")
        (emit (broadcast workflow_cancelled uuid) archived)
        (lock_entry-emit uuid (broadcast workflow_cancelled uuid) archived
          ∙ lock_entry-archive_as uuid st e s))

-- Cancelling a running or paused workflow archives it with the status that it had and announces the
-- cancellation: the compensation that the call asks for does nothing.
pub cancel_workflow_lem :
    (uuid : String) (e : Entry) (s : System)
    → lock_entry uuid s ≡ some e
    → IsActive e.state.status
    → cancel_workflow uuid s
      ≡ done (
          emit (broadcast workflow_cancelled uuid) (
            persist_workflow_locked uuid
              (cancelled_state e.state)
              (put_entry uuid (record e { state = cancelled_state e.state }) s)))
unfolding cancel_workflow
cancel_workflow_lem uuid e s h active = rw (h, cancel_workflow) (by_status e.state.status active)
  where
    by_status :
        (t : WorkflowStatus)
        → IsActive t
        → cancel_in t uuid e s
          ≡ done (
              emit (broadcast workflow_cancelled uuid) (
                persist_workflow_locked uuid
                  (cancelled_state e.state)
                  (put_entry uuid (record e { state = cancelled_state e.state }) s)))
    by_status WorkflowStatus.running a = unfold cancel_in in cancel_entry_lem uuid e s
    by_status WorkflowStatus.paused a = unfold cancel_in in cancel_entry_lem uuid e s
    by_status WorkflowStatus.pending a = absurd a
    by_status WorkflowStatus.rolling_back a = absurd a
    by_status WorkflowStatus.rolled_back a = absurd a
    by_status WorkflowStatus.completed a = absurd a
    by_status WorkflowStatus.failed a = absurd a
