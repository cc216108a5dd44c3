-- ===== src/Scheduler/CallSamples.antt =====
-- The theorems on the calls, the event triggers and the workers at small inputs.
use vibeflow.Prelude.{
  List, ◌∷◌, ◌≡◌, refl, false, [], none, some, pos, lookup, string_eq, true, insert, ◌+ℤ◌,
}
use vibeflow.Model.Workflow.{
  Workflow, TaskGroup, TriggerType, EventTrigger, EventTriggerType, task_node, no_branches,
  no_fan_out, branches_of,
}
use vibeflow.Model.Value.{Output, string}
use vibeflow.Model.Policy.{validate}
use vibeflow.Model.Samples.{flow, plain, plain_fields}
use vibeflow.Validate.Node.{ok, validate_task_node}
use vibeflow.Validate.Tasks.{validate_workflow_tasks}
use vibeflow.Validate.Names.{
  declare_nodes, declare_groups, declare, declare_all_branches, declare_all_branches_of,
  declare_branches,
}
use vibeflow.Validate.Samples.{flow_names}
use vibeflow.Scheduler.State.{System, lock_entry}
use vibeflow.Scheduler.Webhook.{answered, with_payload, trigger_webhook}
use vibeflow.Scheduler.Webhook.Replaced.{trigger_webhook-running}
use vibeflow.Store.{TaskPayload}
use vibeflow.Scheduler.Dispatch.{Config, Slots, pushed, payload_of, push_task}
use vibeflow.Scheduler.Dispatch.Limits.{Within, push_task-Within}
use vibeflow.Scheduler.Lifecycle.{
  run_workflow, cancel_workflow, approve_workflow, reject_workflow, already_running, done, failed,
  initial_state,
}
use vibeflow.Scheduler.Outcome.{Refuses, calls-Refuses}
use vibeflow.Scheduler.Samples.{system, entry, entry_there}
use vibeflow.Validate.Name.{validate_workflow_name, is_name_char}
use vibeflow.Scheduler.Trigger.{EventListener, EventTriggers, fire_webhook}

calls-Refuses_example :
    Refuses system (run_workflow "u9" 5 system)
    × Refuses system (cancel_workflow "u9" system)
    × Refuses system (approve_workflow "u9" system)
    × Refuses system (reject_workflow "u9" "no" system)
calls-Refuses_example = calls-Refuses "u9" "no" 5 system

flow_named : validate_workflow_name flow.name ≡ none
unfolding validate_workflow_name is_name_char
flow_named = refl

abbrev after_u7 : EventTrigger
after_u7 = record {
  event_type = EventTriggerType.workflow_completed;
  filter = "u7";
  webhook_secret = "";
}

abbrev chained : Workflow
chained = record flow { trigger = TriggerType.event; event_trigger = some after_u7 }

abbrev no_triggers : EventTriggers
no_triggers = record { listeners = []; webhook_wfs = [] }

abbrev limits : Config
limits = record {
  max_concurrent_tasks = pos 2;
  per_workflow_max_concurrency = pos 1;
  default_task_timeout_sec = pos 0;
  default_base_backoff_sec = pos 0;
}

abbrev no_slots : Slots
no_slots = record { global_active = pos 1; per_wf_active = []; pending = [] }

abbrev fetch_task : TaskPayload
fetch_task = payload_of limits "u1" flow (plain "fetch") []

fetch_pushed :
    (push_task limits true (some flow) "u1" (plain "fetch") [] 5 no_slots).1 ≡ pushed fetch_task
unfolding push_task lookup insert ◌+ℤ◌
fetch_pushed = refl

push_task-Within_example :
    Within limits "u1" (push_task limits true (some flow) "u1" (plain "fetch") [] 5 no_slots).0
push_task-Within_example =
    push_task-Within limits true (some flow) "u1" (plain "fetch") [] 5 no_slots fetch_task refl refl
      fetch_pushed

abbrev hook : EventListener
hook = record {
  workflow_uuid = "u1";
  workflow_name = "deploy";
  event_type = EventTriggerType.webhook;
  filter = "";
  webhook_secret = "";
}

abbrev hooked : EventTriggers
hooked = record { listeners = []; webhook_wfs = ("u1", hook) ∷ [] }

abbrev payload : Output
payload = ("ref", string "main") ∷ []

abbrev paid_groups : List TaskGroup
paid_groups =
    (task_node (record (plain_fields "fetch") { params = payload }) no_branches no_fan_out ∷ [])
    ∷ (plain "write" ∷ plain "notify" ∷ [])
    ∷ []

paid_accepted : validate_workflow_tasks (record flow { task_groups = paid_groups }) ≡ ok flow_names
unfolding validate_workflow_tasks validate branches_of declare_groups declare_nodes
    validate_task_node declare lookup insert declare_all_branches declare_all_branches_of
    declare_branches
paid_accepted = refl

trigger_webhook-running_example :
    (run_workflow "u1" 50 system ≡ failed (already_running "u1") system)
    × ((t : System) × (trigger_webhook (λ w. some w) "u1" payload hooked 50 system
          ≡ answered (done t))
        × (lock_entry "u1" t
            ≡ some (record {
              state = initial_state (record flow { task_groups = paid_groups }) 50;
              recovered = false;
            })))
unfolding fire_webhook lookup with_payload
trigger_webhook-running_example =
    trigger_webhook-running (λ w. some w) hooked hook flow payload paid_groups flow_names 50 system
      entry refl refl entry_there refl refl flow_named refl paid_accepted
