-- ===== src/Scheduler/Closed/Calls.antt =====
-- infra/engine/scheduler/workflow_manager.go and execution_manager.go: what their operations keep.
use vibeflow.Prelude.{
  ℕ, Bool, true, false, String, Option, none, some, if◌then◌else◌, string_eq, nat_eq, lookup,
  Option-cases, inl, inr,
}
use vibeflow.Model.Workflow.{Workflow, WorkflowStatus}
use vibeflow.Validate.Name.{validate_workflow_name}
use vibeflow.Validate.Node.{Checked, ok, err}
use vibeflow.Validate.Tasks.{validate_workflow_tasks}
use vibeflow.Validate.Names.{Seen}
use vibeflow.Scheduler.State.{Entry, Manager, System, emit, lock_entry}
use vibeflow.Scheduler.Lifecycle.{
  CallError, Outcome, failed, launch, submit_checked, submit_groups, submit_workflow, run_workflow,
  cancel_entry, cancel_in, cancel_workflow, complete_entry, approve_entry, approve_in,
  approve_workflow, reject_in, reject_workflow, latest_id, take_from_history, retry_from_history,
  retry_workflow,
}
use vibeflow.Scheduler.Init.Orphan.{state_after}
use vibeflow.Scheduler.Closed.{
  Closed, Keeps, kept_if, start_saga_rollback-Kept, handle_task_failed-Kept,
}

module _ (P : Manager → Type 0) (c : Closed P) where
  -- A call keeps it, whatever it answers.
  abbrev pub Answers : (System → Outcome) → Type 0
  Answers f = (s : System) → P s.wm → P (state_after (f s)).wm

  answer_if :
      (b : Bool) (o u : Outcome)
      → P (state_after o).wm
      → P (state_after u).wm
      → P (state_after (if b then o else u)).wm
  answer_if true o u h k = h
  answer_if false o u h k = k

  launch-Kept : (wf : Workflow) → Keeps P c (launch wf)
  unfolding launch emit
  launch-Kept wf s h = search (kept_if P c)

  pub submit-Kept : (wf : Workflow) (now : ℕ) → Answers (submit_workflow wf now)
  unfolding submit_workflow submit_groups submit_checked
  submit-Kept wf now s h = elim (Option-cases (validate_workflow_name wf.name)) [
    | inr (e, n) ↦ rw (n, submit_workflow) h
    | inl n ↦ rw (n, submit_workflow) (search (answer_if, by_tasks (validate_workflow_tasks wf)))
  ]
    where
      by_tasks :
          (r : Checked Seen)
          → P
              (state_after (elim r [
                | ok _ ↦ submit_checked wf now s
                | err e ↦ failed (CallError.bad_tasks e) s
              ])).wm
      by_tasks (ok x) = unfold submit_checked in launch-Kept wf _ (c.puts _ _ s h)
      by_tasks (err e) = h

  pub run-Kept : (uuid : String) (now : ℕ) → Answers (run_workflow uuid now)
  unfolding run_workflow
  run-Kept uuid now s h = elim (Option-cases (lookup uuid s.wm.registered_workflows)) [
    | inl n ↦ rw (n, run_workflow) h
    | inr (wf, n) ↦ rw (n, run_workflow) (search (answer_if, submit-Kept))
  ]

  cancel_in-Kept : (t : WorkflowStatus) (uuid : String) (e : Entry) → Answers (cancel_in t uuid e)
  unfolding cancel_in cancel_entry emit
  cancel_in-Kept WorkflowStatus.running uuid e s h =
      search (start_saga_rollback-Kept P c, c.persists, c.puts)
  cancel_in-Kept WorkflowStatus.paused uuid e s h =
      search (start_saga_rollback-Kept P c, c.persists, c.puts)
  cancel_in-Kept _ uuid e s h = h

  pub cancel-Kept : (uuid : String) → Answers (cancel_workflow uuid)
  unfolding cancel_workflow
  cancel-Kept uuid s h = elim (Option-cases (lock_entry uuid s)) [
    | inl n ↦ rw (n, cancel_workflow) h
    | inr (e, n) ↦ rw (n, cancel_workflow) (cancel_in-Kept e.state.status uuid e s h)
  ]

  pub complete_entry-Kept : (uuid : String) → Keeps P c (complete_entry uuid)
  unfolding complete_entry emit
  complete_entry-Kept uuid s h = elim (Option-cases (lock_entry uuid s)) [
    | inl n ↦ rw (n, complete_entry) h
    | inr (e, n) ↦ rw (n, complete_entry) (search (c.persists, c.puts))
  ]

  approve_in-Kept : (t : WorkflowStatus) (uuid : String) (e : Entry) → Answers (approve_in t uuid e)
  unfolding approve_in approve_entry emit
  approve_in-Kept WorkflowStatus.paused uuid e s h = search (answer_if, complete_entry-Kept, c.puts)
  approve_in-Kept _ uuid e s h = h

  pub approve-Kept : (uuid : String) → Answers (approve_workflow uuid)
  unfolding approve_workflow
  approve-Kept uuid s h = elim (Option-cases (lock_entry uuid s)) [
    | inl n ↦ rw (n, approve_workflow) h
    | inr (e, n) ↦ rw (n, approve_workflow) (approve_in-Kept e.state.status uuid e s h)
  ]

  reject_in-Kept :
      (t : WorkflowStatus) (uuid reason : String) (e : Entry) → Answers (reject_in t uuid e reason)
  unfolding reject_in emit
  reject_in-Kept WorkflowStatus.paused uuid reason e s h = search (handle_task_failed-Kept P c)
  reject_in-Kept _ uuid reason e s h = h

  pub reject-Kept : (uuid reason : String) → Answers (reject_workflow uuid reason)
  unfolding reject_workflow
  reject-Kept uuid reason s h = elim (Option-cases (lock_entry uuid s)) [
    | inl n ↦ rw (n, reject_workflow) h
    | inr (e, n) ↦ rw (n, reject_workflow) (reject_in-Kept e.state.status uuid reason e s h)
  ]

  retry_from-Kept : (uuid : String) (id now : ℕ) → Answers (retry_from_history uuid id now)
  unfolding retry_from_history
  retry_from-Kept uuid id now s h = elim (Option-cases (lookup id s.wm.workflow_history)) [
    | inl n ↦ rw (n, retry_from_history) h
    | inr (st, n) ↦
        rw (n, retry_from_history)
          (submit-Kept st.workflow now (record s { wm = take_from_history uuid id s.wm })
            (c.takes uuid id s.wm h))
  ]

  pub retry-Kept : (uuid : String) (now : ℕ) → Answers (retry_workflow uuid now)
  unfolding retry_workflow
  retry-Kept uuid now s h = search (answer_if, by_id (latest_id (lookup uuid s.wm.history_by_uuid)))
    where
      by_id :
          (o : Option ℕ)
          → P
              (state_after (elim o [
                | none ↦ failed (CallError.not_in_history uuid) s
                | some id ↦ retry_from_history uuid id now s
              ])).wm
      by_id none = h
      by_id (some id) = retry_from-Kept uuid id now s h
