-- ===== src/Scheduler/Dispatch/Batch.antt =====
-- infra/engine/scheduler/task_dispatcher.go: `batchPush`, which writes the tasks that
-- `tryDispatchPending` handed out. What the workflow state reader answers, whether a task can be
-- written as JSON and whether etcd takes the batch are arguments.
pub mod Counted
pub mod Returned
use vibeflow.Prelude.{
  ℕ, Bool, true, false, String, List, [], ◌∷◌, ◌++◌, Option, none, some, ℤ, pos, negsuc, ltb, ltb_ℤ,
  length, if◌then◌else◌,
}
use vibeflow.Model.Workflow.{Workflow}
use vibeflow.Store.{TaskPayload}
use vibeflow.Scheduler.Dispatch.{Config, PendingTask, Slots, payload_of, dec_wf, add_global}
use vibeflow.Scheduler.Dispatch.Pending.{try_dispatch_pending, HandedOut}

-- The batch as the loop builds it; `occupied` are the tasks marked so.
pub record Batch : Type 0 where
  pub slots : Slots
  pub kvs : List TaskPayload
  pub occupied : List PendingTask

unfoldable pub give_back : Bool → String → Slots → Slots
unfolding dec_wf add_global
give_back has_global name s = dec_wf name (if has_global then add_global (negsuc 0) s else s)

unfoldable pub give_all_back : Bool → List PendingTask → Slots → Slots
unfolding give_back
give_all_back has_global [] s = s
give_all_back has_global (t ∷ ts) s =
    give_all_back has_global ts (give_back has_global t.workflow_name s)

module _ (cfg : Config) (get_state : String → Option Workflow)
    (serializes : PendingTask → Bool) where
  unfoldable pub add_known : Bool → PendingTask → Workflow → Batch → Batch
  unfolding give_back payload_of
  add_known has_global t wf b =
      if serializes t
      then record b {
        kvs = b.kvs ++ payload_of cfg t.workflow_name wf t.node t.upstream_outputs ∷ [];
        occupied = b.occupied ++ t ∷ [];
      }
      else record b { slots = give_back has_global t.workflow_name b.slots }

  -- A task whose workflow is not there is passed over.
  unfoldable pub add_to_batch : Bool → PendingTask → Batch → Batch
  unfolding add_known
  add_to_batch has_global t b = elim (get_state t.workflow_name) [
    | none ↦ b
    | some wf ↦ add_known has_global t wf b
  ]

  unfoldable pub build_batch : Bool → List PendingTask → Batch → Batch
  unfolding add_to_batch
  build_batch has_global [] b = b
  build_batch has_global (t ∷ ts) b = build_batch has_global ts (add_to_batch has_global t b)

  -- The slots then, and the records written.
  unfoldable pub batch_push : Bool → Bool → List PendingTask → Slots → Slots × List TaskPayload
  unfolding build_batch give_all_back
  batch_push has_global stores ts s =
      let b = build_batch has_global ts (record { slots = s; kvs = []; occupied = [] }) in
      if ltb 0 (length b.kvs)
      then if stores then (b.slots, b.kvs) else (give_all_back has_global b.occupied b.slots, [])
      else (b.slots, [])

  -- Both parts of `tryDispatchPending`: the slots then, the records written, and the tasks evicted.
  unfoldable pub dispatch_pending :
      (String → Bool) → ℤ → ℕ → Bool → Slots → Slots × List TaskPayload × List PendingTask
  unfolding try_dispatch_pending batch_push
  dispatch_pending runs timeout now stores s =
      let h = try_dispatch_pending runs cfg timeout now s in
      let r = batch_push (ltb_ℤ (pos 0) cfg.max_concurrent_tasks) stores h.to_push h.slots in
      (r.0, r.1, h.evicted)
