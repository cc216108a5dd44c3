-- ===== src/Scheduler/Outcome.antt =====
-- infra/engine/scheduler/workflow_manager.go: what the calls on the manager answer.
use vibeflow.Prelude.{
  ℕ, ◌≡◌, refl, ◌∙◌, Bool, true, false, String, Option, none, some, lookup, has, string_eq, length,
  nat_beq, if◌then◌else◌, arith, beq_refl,
}
use vibeflow.Model.Workflow.{Workflow, WorkflowStatus}
use vibeflow.Validate.Name.{NameError, validate_workflow_name}
use vibeflow.Validate.Node.{Checked, ok, err}
use vibeflow.Validate.Tasks.{validate_workflow_tasks}
use vibeflow.Validate.Names.{Seen}
use vibeflow.Scheduler.History.{lock_entry-put}
use vibeflow.Scheduler.State.{emit, put_entry, Entry, System, lock_entry}
use vibeflow.Scheduler.Lifecycle.{
  CallError, Outcome, done, failed, initial_state, launch, submit_checked, submit_groups,
  submit_workflow, run_workflow, cancel_entry, cancel_in, cancel_workflow, approve_entry,
  approve_in, approve_workflow, reject_in, reject_workflow,
}

-- A refused call leaves the state as it was.
abbrev pub Refuses : System → Outcome → Type 0
Refuses s (done t) = Unit {0}
Refuses s (failed e t) = t ≡ s

submit-Refuses : (wf : Workflow) (now : ℕ) (s : System) → Refuses s (submit_workflow wf now s)
unfolding submit_workflow submit_groups submit_checked
submit-Refuses wf now s = by_name (validate_workflow_name wf.name)
  where
    by_tasks :
        (c : Checked Seen)
        → Refuses s
            (elim c [ ok _ ↦ submit_checked wf now s | err e ↦ failed (CallError.bad_tasks e) s ])
    by_tasks (ok x) = unfold submit_checked in tt
    by_tasks (err e) = refl

    by_count :
        (b : Bool)
        → Refuses s (
            if b then failed (CallError.no_tasks wf.name) s else elim (validate_workflow_tasks wf) [
              | ok _ ↦ submit_checked wf now s
              | err e ↦ failed (CallError.bad_tasks e) s
            ])
    by_count true = refl
    by_count false = by_tasks (validate_workflow_tasks wf)

    by_name :
        (o : Option NameError)
        → Refuses s
            (elim o [ some e ↦ failed (CallError.bad_name e) s | none ↦ submit_groups wf now s ])
    by_name (some e) = refl
    by_name none = unfold submit_groups in by_count (nat_beq (length wf.task_groups) 0)

run-Refuses : (uuid : String) (now : ℕ) (s : System) → Refuses s (run_workflow uuid now s)
unfolding run_workflow
run-Refuses uuid now s = by_registered (lookup uuid s.wm.registered_workflows)
  where
    by_running :
        (wf : Workflow) (b : Bool)
        → Refuses s
            (if b then failed (CallError.already_running uuid) s else submit_workflow wf now s)
    by_running wf true = refl
    by_running wf false = submit-Refuses wf now s

    by_registered :
        (o : Option Workflow)
        → Refuses s (elim o [
          | none ↦ failed (CallError.not_found uuid) s
          | some wf ↦
              if has uuid s.wm.running_entries
              then failed (CallError.already_running uuid) s
              else submit_workflow wf now s
        ])
    by_registered none = refl
    by_registered (some wf) = by_running wf (has uuid s.wm.running_entries)

cancel_in-Refuses :
    (t : WorkflowStatus) (uuid : String) (e : Entry) (s : System) → Refuses s (cancel_in t uuid e s)
unfolding cancel_in cancel_entry
cancel_in-Refuses WorkflowStatus.running uuid e s = tt
cancel_in-Refuses WorkflowStatus.paused uuid e s = tt
cancel_in-Refuses _ uuid e s = refl

reject_in-Refuses :
    (t : WorkflowStatus) (uuid reason : String) (e : Entry) (s : System)
    → Refuses s (reject_in t uuid e reason s)
unfolding reject_in
reject_in-Refuses WorkflowStatus.paused uuid reason e s = tt
reject_in-Refuses _ uuid reason e s = refl

approve_entry-Refuses :
    (uuid : String) (e : Entry) (s : System) → Refuses s (approve_entry uuid e s)
unfolding approve_entry
approve_entry-Refuses uuid e s = ground arith

approve_in-Refuses :
    (t : WorkflowStatus) (uuid : String) (e : Entry) (s : System)
    → Refuses s (approve_in t uuid e s)
unfolding approve_in
approve_in-Refuses WorkflowStatus.paused uuid e s = approve_entry-Refuses uuid e s
approve_in-Refuses _ uuid e s = refl

-- A call that runs, cancels, approves or rejects a workflow and that answers an error leaves the
-- state as it was.
pub calls-Refuses :
    (uuid reason : String) (now : ℕ) (s : System)
    → Refuses s (run_workflow uuid now s)
      × Refuses s (cancel_workflow uuid s)
      × Refuses s (approve_workflow uuid s)
      × Refuses s (reject_workflow uuid reason s)
unfolding cancel_workflow approve_workflow reject_workflow
calls-Refuses uuid reason now s = (
  run-Refuses uuid now s,
  by_entry (λ e. cancel_in e.state.status uuid e s) (λ e. cancel_in-Refuses e.state.status uuid e s)
      (lock_entry uuid s),
  by_entry (λ e. approve_in e.state.status uuid e s)
      (λ e. approve_in-Refuses e.state.status uuid e s) (lock_entry uuid s),
  by_entry (λ e. reject_in e.state.status uuid e reason s)
      (λ e. reject_in-Refuses e.state.status uuid reason e s) (lock_entry uuid s),
)
  where
    by_entry :
        (f : Entry → Outcome)
        → ((e : Entry) → Refuses s (f e))
        → (o : Option Entry)
        → Refuses s (elim o [ none ↦ failed (CallError.not_found uuid) s | some e ↦ f e ])
    by_entry f h none = refl
    by_entry f h (some e) = h e

lock_entry-launch :
    (u : String) (wf : Workflow) (s : System) → lock_entry u (launch wf s) ≡ lock_entry u s
unfolding launch emit
lock_entry-launch u wf s = ground arith

-- A workflow whose name is accepted, that has a group, and whose tasks are accepted is submitted:
-- it is then running, with nothing done yet, whatever ran under its UUID before.
pub submit_workflow_lem :
    (wf : Workflow) (now : ℕ) (s : System) (names : Seen)
    → validate_workflow_name wf.name ≡ none
    → nat_beq (length wf.task_groups) 0 ≡ false
    → validate_workflow_tasks wf ≡ ok names
    → (t : System) × (submit_workflow wf now s ≡ done t)
      × (lock_entry wf.uuid t ≡ some (record { state = initial_state wf now; recovered = false }))
unfolding submit_workflow submit_groups submit_checked
submit_workflow_lem wf now s names named some_group accepted =
    let entry : Entry = record { state = initial_state wf now; recovered = false } in
    let t = launch wf (put_entry wf.uuid entry s) in
    (
      t,
      rw (named, submit_workflow) (rw some_group (rw (accepted, submit_groups) refl)),
      lock_entry-launch wf.uuid wf (put_entry wf.uuid entry s)
          ∙ lock_entry-put wf.uuid wf.uuid entry s
          ∙ simp beq_refl,
    )
