-- ===== src/Scheduler/Webhook/Replaced.antt =====
-- infra/engine/scheduler/scheduler.go: a webhook for a workflow that is running.
use vibeflow.Prelude.{
  ℕ, ◌≡◌, refl, ap, false, List, Option, none, some, lookup, has, string_eq, length, nat_beq,
}
use vibeflow.Model.Value.{Output}
use vibeflow.Model.Workflow.{Workflow, TaskGroup}
use vibeflow.Validate.Name.{validate_workflow_name}
use vibeflow.Validate.Node.{ok}
use vibeflow.Validate.Names.{Seen}
use vibeflow.Validate.Tasks.{validate_workflow_tasks}
use vibeflow.Scheduler.State.{Entry, System, lock_entry}
use vibeflow.Scheduler.Lifecycle.{already_running, done, failed, initial_state, run_workflow}
use vibeflow.Scheduler.Outcome.{submit_workflow_lem}
use vibeflow.Scheduler.Trigger.{EventListener, EventTriggers, fire_webhook}
use vibeflow.Scheduler.Webhook.{answered, submit_copy, with_payload, trigger_webhook}

-- While a workflow runs, a call to run it is refused; but a webhook for it, where it is registered with
-- one, the copy is the workflow, the payload finds a first task and the workflow is accepted, is taken:
-- the entry of the running execution is replaced by that of a new one with nothing done yet.
pub trigger_webhook-running :
    (deep_copy : Workflow → Option Workflow) (ts : EventTriggers) (l : EventListener)
    (wf : Workflow)
    → (payload : Output) (groups : List TaskGroup) (names : Seen) (now : ℕ) (s : System) (e : Entry)
    → fire_webhook wf.uuid ts ≡ some l
    → lookup wf.uuid s.wm.registered_workflows ≡ some wf
    → lock_entry wf.uuid s ≡ some e
    → deep_copy wf ≡ some wf
    → with_payload payload wf.task_groups ≡ some groups
    → validate_workflow_name wf.name ≡ none
    → nat_beq (length groups) 0 ≡ false
    → validate_workflow_tasks (record wf { task_groups = groups }) ≡ ok names
    → (run_workflow wf.uuid now s ≡ failed (already_running wf.uuid) s)
      × ((t : System) × (trigger_webhook deep_copy wf.uuid payload ts now s ≡ answered (done t))
          × (lock_entry wf.uuid t
              ≡ some (record {
                state = initial_state (record wf { task_groups = groups }) now;
                recovered = false;
              })))
unfolding run_workflow trigger_webhook submit_copy has
trigger_webhook-running deep_copy ts l wf payload groups names now s e fired found running copied
      carried named some_group accepted =
    let next : Workflow = record wf { task_groups = groups } in
    let (t, submitted, fresh) = submit_workflow_lem next now s names named some_group accepted in
    (
      rw (found, run_workflow) (rw (running, has) refl),
      (
        t,
        rw (fired, trigger_webhook)
            (rw (found, trigger_webhook)
              (rw (copied, trigger_webhook) (rw (carried, submit_copy) (ap answered submitted)))),
        fresh,
      ),
    )
