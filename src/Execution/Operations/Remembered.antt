-- ===== src/Execution/Operations/Remembered.antt =====
-- infra/engine/scheduler: the history of workflows, whatever the master does.
use vibeflow.Prelude.{List, [], ◌∷◌}
use vibeflow.Scheduler.State.{Manager, System}
use vibeflow.Scheduler.Closed.{Closed, Keeps, timeout_after-Kept, watch_event-Kept}
use vibeflow.Scheduler.Closed.Calls.{
  submit-Kept, run-Kept, cancel-Kept, approve-Kept, reject-Kept, retry-Kept,
}
use vibeflow.Scheduler.Closed.Bounded.{Remembers, Remembers-Closed}
use vibeflow.Execution.Operations.{
  Operation, submits, runs, retries, cancels, approves, cleans_up, rejects, times_out,
  clears_failed, sees_event, ends_group, initializes, perform, performs,
}
use vibeflow.Execution.Operations.Kept.{
  group_done-Kept, cleanup_state-Kept, clear_failed-Kept, init-Kept,
}

module _ (P : Manager → Type 0) (c : Closed P) where
  pub perform-Kept : (o : Operation) → Keeps P c (perform o)
  unfolding perform
  perform-Kept (submits wf now) s h = submit-Kept P c wf now s h
  perform-Kept (runs uuid now) s h = run-Kept P c uuid now s h
  perform-Kept (retries uuid now) s h = retry-Kept P c uuid now s h
  perform-Kept (cancels uuid) s h = cancel-Kept P c uuid s h
  perform-Kept (approves uuid) s h = approve-Kept P c uuid s h
  perform-Kept (cleans_up uuid) s h = cleanup_state-Kept P c uuid s h
  perform-Kept (rejects uuid reason) s h = reject-Kept P c uuid reason s h
  perform-Kept (times_out uuid shown) s h = timeout_after-Kept P c uuid shown s h
  perform-Kept (clears_failed uuid task) s h = clear_failed-Kept P c uuid task s h
  perform-Kept (sees_event uuid p) s h = watch_event-Kept P c uuid p s h
  perform-Kept (ends_group uuid groups idx upstream kind r) s h =
      group_done-Kept P c uuid groups idx upstream kind r s h
  perform-Kept (initializes uuid a) s h = init-Kept P c uuid a s h

  performs-Kept : (os : List Operation) → Keeps P c (performs os)
  unfolding performs
  performs-Kept [] s h = h
  performs-Kept (o ∷ os) s h = performs-Kept os (perform o s) (perform-Kept o s h)

-- These stay true, once they are, whatever operations of the master follow one another: the order in
-- which the history forgets has at most the configured number of executions, every execution that
-- the history holds is in that order, so that the eviction comes to it, and at most ten executions
-- are listed for a workflow.
pub performs-Remembers :
    (os : List Operation) (s : System) → Remembers s.wm → Remembers (performs os s).wm
performs-Remembers os s h = performs-Kept Remembers Remembers-Closed os s h
