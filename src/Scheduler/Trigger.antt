-- ===== src/Scheduler/Trigger.antt =====
-- infra/engine/scheduler/event_trigger.go: which workflows an event starts.
-- A callback's workflow is the answer of the call; the listeners' order is the order of the calls.
pub mod Registered
use vibeflow.Prelude.{
  Bool, true, false, ◌||◌, String, List, [], ◌∷◌, ◌++◌, Map, Option, none, some, lookup, insert,
  delete, string_eq, if◌then◌else◌, ◌==◌, ◌<>◌,
}
use vibeflow.Model.Workflow.{Workflow, TriggerType, EventTrigger, EventTriggerType}

pub record EventListener : Type 0 where
  pub workflow_uuid : String
  pub workflow_name : String
  pub event_type : EventTriggerType
  pub filter : String
  pub webhook_secret : String

pub record EventTriggers : Type 0 where
  pub listeners : Map String (List EventListener)
  pub webhook_wfs : Map String EventListener

-- The text of the type.
abbrev pub event_key : EventTriggerType → String
event_key EventTriggerType.webhook = "webhook"
event_key EventTriggerType.workflow_completed = "workflow_completed"
event_key EventTriggerType.task_failed = "task_failed"
event_key (EventTriggerType.other s) = s

abbrev pub listed : Option (List EventListener) → List EventListener
listed none = []
listed (some ls) = ls

abbrev pub listener_of : Workflow → EventTrigger → EventListener
listener_of wf t = record {
  workflow_uuid = wf.uuid;
  workflow_name = wf.name;
  event_type = t.event_type;
  filter = t.filter;
  webhook_secret = t.webhook_secret;
}

unfoldable pub add_webhook :
    EventTriggerType → EventListener → Map String EventListener → Map String EventListener
add_webhook EventTriggerType.webhook l m = insert l.workflow_uuid l m
add_webhook _ l m = m

unfoldable pub add_listener : EventListener → EventTriggers → EventTriggers
unfolding add_webhook
add_listener l ts = record {
  listeners =
      insert (event_key l.event_type)
        (listed (lookup (event_key l.event_type) ts.listeners) ++ l ∷ []) ts.listeners;
  webhook_wfs = add_webhook l.event_type l ts.webhook_wfs;
}

unfoldable pub register_by :
    TriggerType → Option EventTrigger → Workflow → EventTriggers → EventTriggers
unfolding add_listener
register_by TriggerType.event (some t) wf ts = add_listener (listener_of wf t) ts
register_by TriggerType.event none wf ts = ts
register_by _ t wf ts = ts

-- `RegisterEventTrigger`.
unfoldable pub register_event_trigger : Workflow → EventTriggers → EventTriggers
unfolding register_by
register_event_trigger wf ts = register_by wf.trigger wf.event_trigger wf ts

-- The first listener of the workflow goes.
unfoldable pub drop_first : String → List EventListener → List EventListener
drop_first uuid [] = []
drop_first uuid (l ∷ ls) = if l.workflow_uuid == uuid then ls else l ∷ drop_first uuid ls

unfoldable pub drop_each :
    String → Map String (List EventListener) → Map String (List EventListener)
unfolding drop_first
drop_each uuid [] = []
drop_each uuid ((k, ls) ∷ m) = (k, drop_first uuid ls) ∷ drop_each uuid m

-- `UnregisterEventTrigger`.
unfoldable pub unregister_event_trigger : String → EventTriggers → EventTriggers
unfolding drop_each
unregister_event_trigger uuid ts = record {
  listeners = drop_each uuid ts.listeners;
  webhook_wfs = delete uuid ts.webhook_wfs;
}

unfoldable pub targets : (EventListener → Bool) → List EventListener → List String
targets p [] = []
targets p (l ∷ ls) = let rest = targets p ls in if p l then l.workflow_uuid ∷ rest else rest

abbrev pub completed_matches : String → EventListener → Bool
completed_matches source l = l.filter == "" || l.filter == source

abbrev pub failed_matches : String → String → EventListener → Bool
failed_matches source task l =
    l.filter == "" || (l.filter == source || l.filter == (source <> ":" <> task))

-- `FireWorkflowCompleted`.
unfoldable pub fire_workflow_completed : String → EventTriggers → List String
unfolding targets
fire_workflow_completed source ts =
    targets (completed_matches source) (listed (lookup "workflow_completed" ts.listeners))

-- `FireTaskFailed`.
unfoldable pub fire_task_failed : String → String → EventTriggers → List String
unfolding targets
fire_task_failed source task ts =
    targets (failed_matches source task) (listed (lookup "task_failed" ts.listeners))

-- `FireWebhook`; `none` is the error.
unfoldable pub fire_webhook : String → EventTriggers → Option EventListener
fire_webhook uuid ts = lookup uuid ts.webhook_wfs
