-- ===== src/Scheduler/Init/Orphan.antt =====
-- infra/engine/scheduler/workflow_manager.go: a cancellation while the row of the execution is written.
use vibeflow.Prelude.{ℕ, ◌≡◌, refl, ap, ◌∙◌, true, String, none, some, string_eq, beq_refl, if_true}
use vibeflow.Scheduler.State.{
  Entry, System, emit, broadcast, workflow_cancelled, lock_entry, put_entry,
}
use vibeflow.Scheduler.History.{lock_entry-put, lock_entry-emit}
use vibeflow.Scheduler.Lifecycle.{Outcome, done, failed, cancel_workflow}
use vibeflow.Scheduler.Rollback.{
  IsActive, cancelled_state, archive_as, lock_entry-archive_as, cancel_workflow_lem,
}
use vibeflow.Scheduler.Init.{numbered, created_init, serialized_init, saved_init, async_init_mysql}

abbrev pub state_after : Outcome → System
state_after (done s) = s
state_after (failed e s) = s

-- The entry and the state once MySQL knows the definition under the id.
abbrev pub saved_entry : ℕ → Entry → Entry
saved_entry id e = record e { state = record (e.state) { workflow_id = id } }

abbrev pub cancelled_system : String → ℕ → Entry → System → System
cancelled_system uuid id e s = emit (broadcast workflow_cancelled uuid) (
    archive_as uuid (cancelled_state (saved_entry id e).state) (saved_entry id e)
      (put_entry uuid (saved_entry id e) s))

-- A running or paused workflow that is cancelled while its execution's row is being written: the state ends
-- as the cancellation leaves it, archived under the id of the execution that the workflow had before,
-- and the new row, written as RUNNING, is never told of the end.
pub cancelled_init-orphan :
    (uuid : String) (id exec : ℕ) (e : Entry) (s : System)
    → lock_entry uuid s ≡ some e
    → IsActive e.state.status
    → (async_init_mysql uuid
          (record { saved = some id; serialized = true; created = some exec })
          (λ t. state_after (cancel_workflow uuid t))
          s
        ≡ (cancelled_system uuid id e s, some exec))
      × (lock_entry uuid (cancelled_system uuid id e s) ≡ none)
unfolding async_init_mysql saved_init serialized_init created_init numbered
cancelled_init-orphan uuid id exec e s h active =
    let d = saved_entry id e in
    let t = put_entry uuid d s in
    let there : lock_entry uuid t ≡ some d =
      lock_entry-put uuid uuid d s ∙ if_true _ _ _ (beq_refl uuid) in
    let went : state_after (cancel_workflow uuid t) ≡ cancelled_system uuid id e s =
      ap state_after (cancel_workflow_lem uuid d t there active) in
    let gone : lock_entry uuid (cancelled_system uuid id e s) ≡ none =
      lock_entry-emit uuid (broadcast workflow_cancelled uuid)
        (archive_as uuid (cancelled_state d.state) d t)
      ∙ lock_entry-archive_as uuid (cancelled_state d.state) d t in
    (rw (h, saved_init) (ap (created_init uuid (some exec)) went ∙ rw (gone, numbered) refl), gone)
