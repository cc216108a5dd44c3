-- ===== src/Scheduler/Init/Lost.antt =====
-- infra/engine/scheduler/workflow_manager.go: a workflow whose start MySQL refuses.
use vibeflow.Prelude.{
  ℕ, ◌≡◌, refl, sym, subst, arith, ◌∙◌, Bool, String, Option, none, some, lookup, has, string_eq,
  lookup-delete, beq_refl, if_true,
}
use vibeflow.Scheduler.State.{
  Entry, System, emit, lock_entry, cancel_context, cleanup_watcher, cleanup_listeners,
  clean_snapshot_throttle,
}
use vibeflow.Scheduler.Lifecycle.{
  not_found, not_in_history, failed, cancel_workflow, retry_workflow,
}
use vibeflow.Scheduler.Init.{cleanup_workflow_state, take_out, saved_init, async_init_mysql}

take_out-absent : (uuid : String) (s : System) → lock_entry uuid (take_out uuid s) ≡ none
unfolding take_out
take_out-absent uuid s =
    lookup-delete uuid uuid s.wm.running_entries ∙ if_true _ _ _ (beq_refl uuid)

abbrev cleaned_system : String → System → System
cleaned_system uuid s = emit (clean_snapshot_throttle uuid) (
    emit (cleanup_listeners uuid)
      (emit (cleanup_watcher uuid) (emit (cancel_context uuid) (take_out uuid s))))

cleanup_lem :
    (uuid : String) (e : Entry) (s : System)
    → lock_entry uuid s ≡ some e
    → cleanup_workflow_state uuid s ≡ cleaned_system uuid s
unfolding cleanup_workflow_state
cleanup_lem uuid e s h = rw (h, cleanup_workflow_state) refl

-- No call finds the workflow in the second state, and its history is that of the first.
pub record Lost (uuid : String) (now : ℕ) (s t : System) : Type 0 where
  pub same_history : t.wm.workflow_history ≡ s.wm.workflow_history
  pub no_cancel : cancel_workflow uuid t ≡ failed (not_found uuid) t
  pub no_retry : retry_workflow uuid now t ≡ failed (not_in_history uuid) t

cancel-absent :
    (uuid : String) (t : System)
    → lock_entry uuid t ≡ none
    → cancel_workflow uuid t ≡ failed (not_found uuid) t
unfolding cancel_workflow
cancel-absent uuid t h = rw (h, cancel_workflow) refl

retry-absent :
    (uuid : String) (now : ℕ) (t : System)
    → lock_entry uuid t ≡ none
    → lookup uuid t.wm.history_by_uuid ≡ none
    → retry_workflow uuid now t ≡ failed (not_in_history uuid) t
unfolding retry_workflow has
retry-absent uuid now t h first = ground (arith, h, first)

cleaned-Lost :
    (uuid : String) (now : ℕ) (s : System)
    → lookup uuid s.wm.history_by_uuid ≡ none
    → Lost uuid now s (cleaned_system uuid s)
unfolding emit take_out
cleaned-Lost uuid now s first =
    let t = cleaned_system uuid s in
    record {
      same_history = refl;
      no_cancel = cancel-absent uuid t (take_out-absent uuid s);
      no_retry = retry-absent uuid now t (take_out-absent uuid s) first;
    }

-- A workflow that runs for the first time and whose definition MySQL does not take is gone: it runs no
-- more and is not in the history, which stays as it was, so that neither a cancellation nor a retry
-- finds it.
pub refused_init-Lost :
    (uuid : String) (e : Entry) (s : System) (serialized : Bool) (created : Option ℕ)
    (meanwhile : System → System) (now : ℕ)
    → lock_entry uuid s ≡ some e
    → lookup uuid s.wm.history_by_uuid ≡ none
    → Lost uuid now s
        (async_init_mysql uuid
          (record { saved = none; serialized = serialized; created = created })
          meanwhile
          s).0
unfolding async_init_mysql saved_init
refused_init-Lost uuid e s serialized created meanwhile now h first =
    subst (Lost uuid now s) (sym (cleanup_lem uuid e s h)) (cleaned-Lost uuid now s first)
