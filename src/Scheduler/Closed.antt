-- ===== src/Scheduler/Closed.antt =====
-- What all operations of the scheduler keep: a property of the state that the writes of State keep is
-- kept by infra/engine/scheduler/watch.go and error_policy.go.
pub mod Calls
pub mod Bounded
use vibeflow.Prelude.{
  ℕ, zero, Option-cases, inl, inr, suc, Bool, true, false, String, List, [], ◌∷◌, Option, none,
  some, if◌then◌else◌, has, string_eq, lookup, delete,
}
use vibeflow.Model.Value.{Output}
use vibeflow.Model.Workflow.{
  Workflow, WorkflowState, WorkflowStatus, TaskNode, TaskGroup, ErrorPolicy, ErrorPolicyType,
  TimeoutPolicy,
}
use vibeflow.Model.Policy.{get_task_error_policy, get_timeout_policy}
use vibeflow.Store.{TaskPayload, TaskStatus}
use vibeflow.Scheduler.State.{
  Entry, Manager, System, emit, lock_entry, put_entry, persist_workflow_locked,
}
use vibeflow.Scheduler.Lifecycle.{take_from_history}
use vibeflow.Scheduler.Saga.{
  push_rollbacks, finish_rolled_back, roll_back, roll_back_from, rollbacks_below, failed_group,
  begin_rollback, rollback_in, start_saga_rollback, handle_rollback_completed,
}
use vibeflow.Scheduler.Failure.{
  mark_workflow_failed, execute_fail_fast, execute_rollback, execute_skip, fail_workflow,
  default_failure, failure_by, handle_task_failed, timeout_by, timeout_in, timeout_after,
}
use vibeflow.Scheduler.Events.{
  cleanup_task_etcd_key, record_task_completed, record_task_failed, handle_event, watch_event,
  is_stale,
}

-- The writes keep the property.
pub record Closed (P : Manager → Type 0) : Type 0 where
  pub puts : (uuid : String) (e : Entry) (s : System) → P s.wm → P (put_entry uuid e s).wm
  pub persists :
      (uuid : String) (st : WorkflowState) (s : System)
      → P s.wm
      → P (persist_workflow_locked uuid st s).wm
  pub takes : (uuid : String) (id : ℕ) (m : Manager) → P m → P (take_from_history uuid id m)
  pub drops :
      (uuid : String) (m : Manager)
      → P m
      → P (record m { running_entries = delete uuid m.running_entries })

module _ (P : Manager → Type 0) (c : Closed P) where
  -- The state after is kept by whatever kept it.
  abbrev pub Keeps : (System → System) → Type 0
  Keeps f = (s : System) → P s.wm → P (f s).wm

  pub kept_if : (b : Bool) (s t : System) → P s.wm → P t.wm → P (if b then s else t).wm
  kept_if true s t h k = h
  kept_if false s t h k = k

  push_rollbacks-Kept :
      (uuid : String) (ts : List (TaskNode × Output)) → Keeps (push_rollbacks uuid ts)
  unfolding push_rollbacks emit
  push_rollbacks-Kept uuid [] s h = h
  push_rollbacks-Kept uuid ((n, o) ∷ ts) s h = push_rollbacks-Kept uuid ts _ h

  finish_rolled_back-Kept : (uuid : String) → Keeps (finish_rolled_back uuid)
  unfolding finish_rolled_back emit
  finish_rolled_back-Kept uuid s h = elim (Option-cases (lock_entry uuid s)) [
    | inl n ↦ rw (n, finish_rolled_back) h
    | inr (e, n) ↦ rw (n, finish_rolled_back) (search (c.persists, c.puts))
  ]

  roll_back_from-Kept :
      (uuid : String) (groups : List TaskGroup) (o : Option ℕ)
      → Keeps (λ s. roll_back_from uuid s groups o)
  unfolding roll_back_from
  roll_back_from-Kept uuid groups none s h = finish_rolled_back-Kept uuid s h
  roll_back_from-Kept uuid groups (some zero) s h = finish_rolled_back-Kept uuid s h
  roll_back_from-Kept uuid groups (some (suc gi)) s h =
      roll_back-Kept uuid (rollbacks_below uuid s groups (suc gi)) s h
    where
      roll_back-Kept : (u : String) (ts : List (TaskNode × Output)) → Keeps (λ t. roll_back u t ts)
      roll_back-Kept u [] t k = unfold roll_back in finish_rolled_back-Kept u t k
      roll_back-Kept u (x ∷ ts) t k = unfold roll_back in push_rollbacks-Kept u (x ∷ ts) t k

  rollback_in-Kept :
      (t : WorkflowStatus) (uuid : String) (e : Entry) (p : TaskPayload)
      → Keeps (rollback_in t uuid e p)
  unfolding rollback_in begin_rollback emit
  rollback_in-Kept WorkflowStatus.rolling_back uuid e p s h = h
  rollback_in-Kept WorkflowStatus.rolled_back uuid e p s h = h
  rollback_in-Kept WorkflowStatus.failed uuid e p s h = h
  rollback_in-Kept _ uuid e p s h = search (roll_back_from-Kept, c.persists, c.puts)

  pub start_saga_rollback-Kept :
      (uuid : String) (p : TaskPayload) → Keeps (start_saga_rollback uuid p)
  unfolding start_saga_rollback
  start_saga_rollback-Kept uuid p s h = elim (Option-cases (lock_entry uuid s)) [
    | inl n ↦ rw (n, start_saga_rollback) h
    | inr (e, n) ↦ rw (n, start_saga_rollback) (rollback_in-Kept e.state.status uuid e p s h)
  ]

  handle_rollback_completed-Kept :
      (uuid : String) (p : TaskPayload) → Keeps (handle_rollback_completed uuid p)
  unfolding handle_rollback_completed emit
  handle_rollback_completed-Kept uuid p s h = elim (Option-cases (lock_entry uuid s)) [
    | inl n ↦ rw (n, handle_rollback_completed) h
    | inr (e, n) ↦
        rw (n, handle_rollback_completed)
          (search (kept_if, finish_rolled_back-Kept, c.persists, c.puts))
  ]

  mark_workflow_failed-Kept : (p : TaskPayload) (m : String) → Keeps (mark_workflow_failed p m)
  unfolding mark_workflow_failed emit
  mark_workflow_failed-Kept p m s h = elim (Option-cases (lock_entry p.workflow_id s)) [
    | inl n ↦ rw (n, mark_workflow_failed) h
    | inr (e, n) ↦ rw (n, mark_workflow_failed) (search (c.persists, c.puts))
  ]

  execute_skip-Kept : (uuid : String) (p : TaskPayload) → Keeps (execute_skip uuid p)
  unfolding execute_skip emit
  execute_skip-Kept uuid p s h = elim (Option-cases (lock_entry uuid s)) [
    | inl n ↦ rw (n, execute_skip) h
    | inr (e, n) ↦ rw (n, execute_skip) (search (c.persists, c.puts))
  ]

  default_failure-Kept : (uuid : String) (p : TaskPayload) → Keeps (default_failure uuid p)
  unfolding default_failure fail_workflow emit
  default_failure-Kept uuid p s h = search (kept_if, start_saga_rollback-Kept)

  failure_by-Kept :
      (t : ErrorPolicyType) (ep : ErrorPolicy) (uuid : String) (p : TaskPayload)
      → Keeps (failure_by t ep uuid p)
  unfolding failure_by execute_fail_fast execute_rollback emit
  failure_by-Kept ErrorPolicyType.fail_fast ep uuid p s h = search (mark_workflow_failed-Kept)
  failure_by-Kept ErrorPolicyType.rollback ep uuid p s h = search (start_saga_rollback-Kept)
  failure_by-Kept ErrorPolicyType.skip ep uuid p s h =
      search (kept_if, execute_skip-Kept, default_failure-Kept)
  failure_by-Kept _ ep uuid p s h = default_failure-Kept uuid p s h

  pub handle_task_failed-Kept :
      (uuid : String) (wf : Workflow) (p : TaskPayload) → Keeps (handle_task_failed uuid wf p)
  unfolding handle_task_failed
  handle_task_failed-Kept uuid wf p s h = elim (Option-cases wf.error_policy) [
    | inl n ↦ rw (n, handle_task_failed) (default_failure-Kept uuid p s h)
    | inr (ep, n) ↦
        rw (n, handle_task_failed)
          (failure_by-Kept (get_task_error_policy (some ep) p.task_name) ep uuid p s h)
  ]

  timeout_by-Kept : (t : TimeoutPolicy) (uuid shown : String) → Keeps (timeout_by t uuid shown)
  unfolding timeout_by
  timeout_by-Kept TimeoutPolicy.fail uuid shown s h = search (mark_workflow_failed-Kept)
  timeout_by-Kept _ uuid shown s h = search (start_saga_rollback-Kept)

  timeout_in-Kept :
      (t : WorkflowStatus) (uuid shown : String) (e : Entry) → Keeps (timeout_in t uuid shown e)
  unfolding timeout_in
  timeout_in-Kept WorkflowStatus.running uuid shown e s h =
      search (timeout_by-Kept, c.persists, c.puts)
  timeout_in-Kept WorkflowStatus.paused uuid shown e s h =
      search (timeout_by-Kept, c.persists, c.puts)
  timeout_in-Kept _ uuid shown e s h = h

  pub timeout_after-Kept : (uuid shown : String) → Keeps (timeout_after uuid shown)
  unfolding timeout_after
  timeout_after-Kept uuid shown s h = elim (Option-cases (lock_entry uuid s)) [
    | inl n ↦ rw (n, timeout_after) h
    | inr (e, n) ↦ rw (n, timeout_after) (timeout_in-Kept e.state.status uuid shown e s h)
  ]

  cleanup-Kept : (p : TaskPayload) → Keeps (cleanup_task_etcd_key p)
  unfolding cleanup_task_etcd_key emit
  cleanup-Kept p s h = search (kept_if)

  completed-Kept : (uuid : String) (p : TaskPayload) → Keeps (record_task_completed uuid p)
  unfolding record_task_completed emit
  completed-Kept uuid p s h = elim (Option-cases (lock_entry uuid s)) [
    | inl n ↦ rw (n, record_task_completed) h
    | inr (e, n) ↦ rw (n, record_task_completed) (search (cleanup-Kept, c.puts))
  ]

  failed-Kept : (uuid : String) (p : TaskPayload) → Keeps (record_task_failed uuid p)
  unfolding record_task_failed emit
  failed-Kept uuid p s h = elim (Option-cases (lock_entry uuid s)) [
    | inl n ↦ rw (n, record_task_failed) (search (cleanup-Kept))
    | inr (e, n) ↦ rw (n, record_task_failed) (search (cleanup-Kept, c.puts))
  ]

  handle_event-Kept :
      (t : TaskStatus) (uuid : String) (st : WorkflowState) (p : TaskPayload)
      → Keeps (handle_event t uuid st p)
  unfolding handle_event emit
  handle_event-Kept TaskStatus.completed uuid st p s h =
      search (kept_if, handle_rollback_completed-Kept, completed-Kept)
  handle_event-Kept TaskStatus.failed uuid st p s h =
      search (kept_if, handle_rollback_completed-Kept, handle_task_failed-Kept, failed-Kept)
  handle_event-Kept _ uuid st p s h = h

  pub watch_event-Kept : (uuid : String) (p : TaskPayload) → Keeps (λ s. (watch_event uuid p s).0)
  unfolding watch_event
  watch_event-Kept uuid p s h = elim (Option-cases (lock_entry uuid s)) [
    | inl n ↦ rw (n, watch_event) h
    | inr (e, n) ↦
        let go : Bool → System × Bool =
          λ b. if b then (s, true) else (handle_event p.status uuid e.state p s, true) in
        rw (n, watch_event)
          (elim (is_stale e p) as (λ b. P (go b).0.wm) [
            | true ↦ h
            | false ↦ handle_event-Kept p.status uuid e.state p s h
          ])
  ]
