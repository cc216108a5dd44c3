-- ===== src/Execution/Approval.antt =====
-- infra/engine/scheduler/execution_manager.go and workflow_manager.go: a pause for approval and the
-- approval that ends it.
use vibeflow.Prelude.{
  ℕ, suc, ◌<◌, ◌≡◌, refl, ◌∙◌, true, String, [], ◌∷◌, some, beq_refl, string_eq, length, ltb, arith,
}
use vibeflow.Model.Value.{Output}
use vibeflow.Model.Workflow.{WorkflowState, WorkflowStatus}
use vibeflow.Scheduler.State.{
  Entry, System, broadcast, execute_workflow, workflow_approved, emit, lock_entry, put_entry,
}
use vibeflow.Scheduler.Lifecycle.{done, approve_workflow, approve_in, approve_entry, clean_output}
use vibeflow.Scheduler.History.{lock_entry-put, lock_entry-emit}
use vibeflow.Execution.Control.{pause_for_approval, paused_state}
use vibeflow.Execution.Run.Settled.{lock_entry-pause}

-- The entry of an approved workflow.
abbrev pub resumed : WorkflowState → ℕ → Output → Entry → Entry
resumed seen idx o e = record e {
  state = record (paused_state seen idx o e.state) { status = WorkflowStatus.running };
}

approve_entry-more :
    (uuid : String) (e : Entry) (s : System)
    → suc e.state.paused_group_idx < length e.state.workflow.task_groups
    → approve_entry uuid e s
      ≡ done (
          emit
            (execute_workflow uuid
              (clean_output e.state.paused_task_output ∷ [])
              (suc e.state.paused_group_idx))
            (emit (broadcast workflow_approved uuid) (
              put_entry uuid
                (record e { state = record (e.state) { status = WorkflowStatus.running } })
                s)))
unfolding approve_entry
approve_entry-more uuid e s h =
    let more : ltb (suc e.state.paused_group_idx) (length e.state.workflow.task_groups) ≡ true =
      ground arith in
    rw more refl

approve-paused :
    (uuid : String) (e : Entry) (s : System)
    → lock_entry uuid s ≡ some e
    → e.state.status ≡ WorkflowStatus.paused
    → approve_workflow uuid s ≡ approve_entry uuid e s
unfolding approve_workflow approve_in
approve-paused uuid e s there paused = rw (there, approve_workflow) (rw paused refl)

-- Approving a workflow that asked for approval after the group `idx` sets it running again and
-- goes on with the group after `idx` of the workflow's own groups, if there is one, with the
-- output that asked, freed of its marks, as the only input. The index is any number, so
-- that it may have counted the groups of a branch.
pub approve-pause :
    (uuid : String) (seen : WorkflowState) (idx : ℕ) (o : Output) (e : Entry) (s : System)
    → lock_entry uuid s ≡ some e
    → suc idx < length e.state.workflow.task_groups
    → (t : System) × (approve_workflow uuid (pause_for_approval uuid seen idx o s)
        ≡ done (emit (execute_workflow uuid (clean_output o ∷ []) (suc idx)) t))
      × (lock_entry uuid t ≡ some (resumed seen idx o e))
unfolding paused_state
approve-pause uuid seen idx o e s there more =
    let paused = pause_for_approval uuid seen idx o s in
    let waiting = record e { state = paused_state seen idx o e.state } in
    let found = lock_entry-pause uuid seen idx o e s there in
    let told =
      emit (broadcast workflow_approved uuid) (put_entry uuid (resumed seen idx o e) paused) in
    (
      told,
      approve-paused uuid waiting paused found refl ∙ approve_entry-more uuid waiting paused more,
      lock_entry-emit uuid (broadcast workflow_approved uuid)
            (put_entry uuid (resumed seen idx o e) paused)
          ∙ lock_entry-put uuid uuid (resumed seen idx o e) paused
          ∙ simp beq_refl,
    )
