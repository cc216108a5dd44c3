-- ===== src/Scheduler/Trigger/Registered.antt =====
-- infra/engine/scheduler/event_trigger.go: registration, and its end, as the events see them.
use vibeflow.Prelude.{
  ◌≡◌, refl, sym, ap, ◌∙◌, Bool, false, ◌||◌, String, List, [], ◌∷◌, ◌++◌, Map, some, lookup,
  insert, lookup-insert, string_eq, any, if◌then◌else◌, ◌==◌, arith,
}
use vibeflow.Model.Workflow.{Workflow, TriggerType, EventTrigger, EventTriggerType}
use vibeflow.Scheduler.Trigger.{
  EventListener, EventTriggers, listed, listener_of, add_listener, register_event_trigger,
  register_by, drop_first, drop_each, unregister_event_trigger, targets, completed_matches,
  failed_matches, fire_workflow_completed, fire_task_failed,
}

targets-snoc :
    (p : EventListener → Bool) (ls : List EventListener) (l : EventListener)
    → targets p (ls ++ l ∷ []) ≡ targets p ls ++ (if p l then l.workflow_uuid ∷ [] else [])
unfolding targets
targets-snoc p [] l = ground arith
targets-snoc p (x ∷ xs) l = ground (arith, targets-snoc p xs l)

abbrev completed_key : String
completed_key = "workflow_completed"

abbrev failed_key : String
failed_key = "task_failed"

module _ (wf : Workflow) (t : EventTrigger) (ts : EventTriggers)
    (by_event : wf.trigger ≡ TriggerType.event) (given : wf.event_trigger ≡ some t)
    (on_completion : t.event_type ≡ EventTriggerType.workflow_completed) where
  registered :
      (register_event_trigger wf ts).listeners
      ≡ insert completed_key
          (listed (lookup completed_key ts.listeners) ++ listener_of wf t ∷ [])
          ts.listeners
  unfolding register_event_trigger register_by add_listener
  registered = rw (by_event, given, register_by) (rw on_completion refl)

  registered_completed :
      listed (lookup completed_key (register_event_trigger wf ts).listeners)
      ≡ listed (lookup completed_key ts.listeners) ++ listener_of wf t ∷ []
  registered_completed = ap (λ m. listed (lookup completed_key m)) registered ∙ simp lookup-insert

  registered_failed :
      listed (lookup failed_key (register_event_trigger wf ts).listeners)
      ≡ listed (lookup failed_key ts.listeners)
  registered_failed = ap (λ m. listed (lookup failed_key m)) registered ∙ simp lookup-insert

-- Registering a workflow that a completion starts adds it after the workflows that the completion
-- of a source started before, exactly if its filter is empty or is that source. What a failed task
-- starts does not change.
pub register-completed :
    (wf : Workflow) (t : EventTrigger) (ts : EventTriggers) (source task : String)
    → wf.trigger ≡ TriggerType.event
    → wf.event_trigger ≡ some t
    → t.event_type ≡ EventTriggerType.workflow_completed
    → (fire_workflow_completed source (register_event_trigger wf ts)
        ≡ fire_workflow_completed source ts
          ++ (if t.filter == "" || t.filter == source then wf.uuid ∷ [] else []))
      × (fire_task_failed source task (register_event_trigger wf ts)
          ≡ fire_task_failed source task ts)
unfolding fire_workflow_completed fire_task_failed
register-completed wf t ts source task e f g = (
  ap (targets (completed_matches source)) (registered_completed wf t ts e f g)
      ∙ targets-snoc (completed_matches source) (listed (lookup completed_key ts.listeners))
          (listener_of wf t),
  ap (targets (failed_matches source task)) (registered_failed wf t ts e f g),
)

drop_first-snoc :
    (uuid : String) (ls : List EventListener) (l : EventListener)
    → any (λ x. x.workflow_uuid == uuid) ls ≡ false
    → l.workflow_uuid ≡ uuid
    → drop_first uuid (ls ++ l ∷ []) ≡ ls
unfolding drop_first any
drop_first-snoc uuid [] l h e = ground (arith, string_eq.beq_iff l.workflow_uuid uuid)
drop_first-snoc uuid (x ∷ xs) l h e = ground (arith, drop_first-snoc uuid xs l)

drop_first-middle :
    (uuid : String) (ls : List EventListener) (l m : EventListener)
    → any (λ x. x.workflow_uuid == uuid) ls ≡ false
    → l.workflow_uuid ≡ uuid
    → drop_first uuid ((ls ++ l ∷ []) ++ m ∷ []) ≡ ls ++ m ∷ []
unfolding drop_first any
drop_first-middle uuid [] l m h e = ground (arith, string_eq.beq_iff l.workflow_uuid uuid)
drop_first-middle uuid (x ∷ xs) l m h e = ground (arith, drop_first-middle uuid xs l m)

lookup-drop_each :
    (uuid k : String) (m : Map String (List EventListener))
    → listed (lookup k (drop_each uuid m)) ≡ drop_first uuid (listed (lookup k m))
unfolding drop_each lookup drop_first
lookup-drop_each uuid k [] = refl
lookup-drop_each uuid k ((j, ls) ∷ m) = ground (arith, lookup-drop_each uuid k m)

-- For a workflow that was not registered for completions, registering it for them and then
-- unregistering it leaves the workflows that a completion starts as they were.
pub unregister-register :
    (wf : Workflow) (t : EventTrigger) (ts : EventTriggers) (source : String)
    → wf.trigger ≡ TriggerType.event
    → wf.event_trigger ≡ some t
    → t.event_type ≡ EventTriggerType.workflow_completed
    → any (λ x. x.workflow_uuid == wf.uuid) (listed (lookup "workflow_completed" ts.listeners))
      ≡ false
    → fire_workflow_completed source
        (unregister_event_trigger wf.uuid (register_event_trigger wf ts))
      ≡ fire_workflow_completed source ts
unfolding fire_workflow_completed unregister_event_trigger
unregister-register wf t ts source e f g fresh = ap (targets (completed_matches source)) (
    lookup-drop_each wf.uuid completed_key (register_event_trigger wf ts).listeners
    ∙ ap (drop_first wf.uuid) (registered_completed wf t ts e f g)
    ∙ drop_first-snoc wf.uuid (listed (lookup completed_key ts.listeners)) (listener_of wf t) fresh
        refl)

-- For a workflow that was not registered for completions, registering it for them twice and then
-- unregistering it once leaves the workflows that a completion starts as after one registration.
pub register_twice :
    (wf : Workflow) (t : EventTrigger) (ts : EventTriggers) (source : String)
    → wf.trigger ≡ TriggerType.event
    → wf.event_trigger ≡ some t
    → t.event_type ≡ EventTriggerType.workflow_completed
    → any (λ x. x.workflow_uuid == wf.uuid) (listed (lookup "workflow_completed" ts.listeners))
      ≡ false
    → fire_workflow_completed source (
        unregister_event_trigger wf.uuid (register_event_trigger wf (register_event_trigger wf ts)))
      ≡ fire_workflow_completed source (register_event_trigger wf ts)
unfolding fire_workflow_completed unregister_event_trigger
register_twice wf t ts source e f g fresh =
    let l = listener_of wf t in
    let ls = listed (lookup completed_key ts.listeners) in
    let once = registered_completed wf t ts e f g in
    ap (targets (completed_matches source)) (
      lookup-drop_each wf.uuid completed_key
        (register_event_trigger wf (register_event_trigger wf ts)).listeners
      ∙ ap (drop_first wf.uuid) (
          registered_completed wf t (register_event_trigger wf ts) e f g
          ∙ ap (λ ks. ks ++ l ∷ []) once)
      ∙ drop_first-middle wf.uuid ls l l fresh refl
      ∙ sym once)
