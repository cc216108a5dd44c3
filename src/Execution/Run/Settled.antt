-- ===== src/Execution/Run/Settled.antt =====
-- infra/engine/scheduler/execution_manager.go: where an execution stops, the workflow is out of the
-- running set or waits for an approval.
use vibeflow.Prelude.{
  ℕ, ◌≡◌, refl, ◌∙◌, String, Option, none, some, string_eq, Option-cases, inl, inr, beq_refl,
}
use vibeflow.Model.Value.{Output}
use vibeflow.Model.Workflow.{WorkflowState, WorkflowStatus}
use vibeflow.Scheduler.State.{System, Entry, emit, put_entry, lock_entry}
use vibeflow.Scheduler.History.{lock_entry-persist_self, lock_entry-put}
use vibeflow.Scheduler.Lifecycle.{complete_entry}
use vibeflow.Execution.Control.{finish_workflow, pause_for_approval, fail_group, paused_state}

-- Not running: either gone from the running set or paused.
abbrev pub SettledEntry : Option Entry → Type 0
SettledEntry none = Unit {0}
SettledEntry (some e) = e.state.status ≡ WorkflowStatus.paused

abbrev pub Settled : String → System → Type 0
Settled uuid s = SettledEntry (lock_entry uuid s)

Settled-none : (uuid : String) (s : System) → lock_entry uuid s ≡ none → Settled uuid s
Settled-none uuid s h = rw h tt

pub finish_workflow-absent :
    (uuid : String) (s : System) → lock_entry uuid (finish_workflow uuid s) ≡ none
unfolding finish_workflow complete_entry emit
finish_workflow-absent uuid s = elim (Option-cases (lock_entry uuid s)) [
  | inl gone ↦ rw (gone, complete_entry) gone
  | inr (e, there) ↦
      rw (there, complete_entry)
        (lock_entry-persist_self uuid (record (e.state) { status = WorkflowStatus.completed })
          (put_entry uuid
            (record e { state = record (e.state) { status = WorkflowStatus.completed } }) s))
]

pub fail_group-absent :
    (uuid message : String) (s : System) → lock_entry uuid (fail_group uuid message s) ≡ none
unfolding fail_group emit
fail_group-absent uuid message s = elim (Option-cases (lock_entry uuid s)) [
  | inl gone ↦ rw (gone, fail_group) gone
  | inr (e, there) ↦
      let st = record (e.state) { status = WorkflowStatus.failed; error = message } in
      rw (there, fail_group)
        (lock_entry-persist_self uuid st (put_entry uuid (record e { state = st }) s))
]

pub lock_entry-pause :
    (uuid : String) (seen : WorkflowState) (idx : ℕ) (o : Output) (e : Entry) (s : System)
    → lock_entry uuid s ≡ some e
    → lock_entry uuid (pause_for_approval uuid seen idx o s)
      ≡ some (record e { state = paused_state seen idx o e.state })
unfolding pause_for_approval emit
lock_entry-pause uuid seen idx o e s there =
    rw (there, pause_for_approval)
      (lock_entry-put uuid uuid (record e { state = paused_state seen idx o e.state }) s
        ∙ simp beq_refl)

pub pause_for_approval-Settled :
    (uuid : String) (seen : WorkflowState) (idx : ℕ) (o : Output) (s : System)
    → Settled uuid (pause_for_approval uuid seen idx o s)
pause_for_approval-Settled uuid seen idx o s = elim (Option-cases (lock_entry uuid s)) [
  | inl gone ↦ Settled-none uuid (pause_for_approval uuid seen idx o s) (absent gone)
  | inr (e, there) ↦ rw (lock_entry-pause uuid seen idx o e s there) (waiting e)
]
  where
    absent :
        lock_entry uuid s ≡ none → lock_entry uuid (pause_for_approval uuid seen idx o s) ≡ none
    absent gone = unfold pause_for_approval in rw (gone, pause_for_approval) gone

    waiting : (e : Entry) → (paused_state seen idx o e.state).status ≡ WorkflowStatus.paused
    waiting e = unfold paused_state in refl

pub finish_workflow-Settled : (uuid : String) (s : System) → Settled uuid (finish_workflow uuid s)
finish_workflow-Settled uuid s =
    Settled-none uuid (finish_workflow uuid s) (finish_workflow-absent uuid s)

pub fail_group-Settled : (uuid m : String) (s : System) → Settled uuid (fail_group uuid m s)
fail_group-Settled uuid m s = Settled-none uuid (fail_group uuid m s) (fail_group-absent uuid m s)
