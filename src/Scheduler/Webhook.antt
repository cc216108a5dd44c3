-- ===== src/Scheduler/Webhook.antt =====
-- infra/engine/scheduler/scheduler.go and event_trigger.go: a workflow that is triggered from outside.
-- The copy of a workflow is made by the JSON library and is given.
pub mod Replaced
use vibeflow.Prelude.{ℕ, String, List, [], ◌∷◌, Map, Option, none, some, lookup, string_eq}
use vibeflow.Model.Value.{Output}
use vibeflow.Model.Workflow.{TaskNode, task_node, TaskGroup, Workflow}
use vibeflow.Scheduler.State.{System}
use vibeflow.Scheduler.Lifecycle.{Outcome, submit_workflow}
use vibeflow.Scheduler.Trigger.{EventListener, EventTriggers, fire_webhook}

pub data WebhookError : Type 0 where
  no_webhook not_registered not_copied : String → WebhookError

pub data WebhookAnswer : Type 0 where
  answered : Outcome → WebhookAnswer
  refused : WebhookError → WebhookAnswer
  panicked : WebhookAnswer

-- The first task's parameters are the payload; `none` is the panic on a group without a task.
unfoldable pub with_payload : Output → List TaskGroup → Option (List TaskGroup)
with_payload [] groups = some groups
with_payload (e ∷ es) [] = some []
with_payload (e ∷ es) ([] ∷ groups) = none
with_payload (e ∷ es) ((task_node f b o ∷ ns) ∷ groups) =
    some ((task_node (record f { params = e ∷ es }) b o ∷ ns) ∷ groups)

unfoldable pub submit_copy : Output → Workflow → ℕ → System → WebhookAnswer
unfolding with_payload
submit_copy payload copy now s = elim (with_payload payload copy.task_groups) [
  | none ↦ panicked
  | some groups ↦ answered (submit_workflow (record copy { task_groups = groups }) now s)
]

-- `TriggerWebhook`.
unfoldable pub trigger_webhook :
    (Workflow → Option Workflow) → String → Output → EventTriggers → ℕ → System → WebhookAnswer
unfolding submit_copy
trigger_webhook deep_copy uuid payload ts now s = elim (fire_webhook uuid ts) [
  | none ↦ refused (no_webhook uuid)
  | some l ↦ elim (lookup uuid s.wm.registered_workflows) [
    | none ↦ refused (not_registered uuid)
    | some wf ↦ elim (deep_copy wf) [
      | none ↦ refused (not_copied uuid)
      | some copy ↦ submit_copy payload copy now s
    ]
  ]
]

-- `ListWebhookWorkflows`.
unfoldable pub list_webhook_workflows : EventTriggers → List EventListener
list_webhook_workflows ts = listeners_in ts.webhook_wfs
  where
    listeners_in : Map String EventListener → List EventListener
    listeners_in [] = []
    listeners_in ((k, l) ∷ m) = l ∷ listeners_in m
