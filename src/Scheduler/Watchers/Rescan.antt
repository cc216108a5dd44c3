-- ===== src/Scheduler/Watchers/Rescan.antt =====
-- infra/engine/scheduler/watch.go: `rescanAndRedispatchTasks`, which runs when the watch of etcd is
-- set up, beside the goroutine of `globalTaskWatcher` that turns an event into a task record, with
-- `Deserialize` of infra/store/model.go. What the JSON library reads in a text is an argument, as is
-- what changes while the scan runs: the answers for its round `i`.
pub mod Keys
use vibeflow.Prelude.{
  ℕ, suc, Bool, true, false, ◌||◌, String, List, [], ◌∷◌, Option, none, some, has, lookup,
  string_eq, if◌then◌else◌,
}
use vibeflow.Store.{TaskPayload}
use vibeflow.Scheduler.State.{Entry, System, lock_entry}
use vibeflow.Scheduler.Watchers.{BacklogEntry, Watchers, dispatch}

-- `store.TaskKeyValue`, and `fanOutTask` less its UUID, which only a message shows.
pub record TaskKeyValue : Type 0 where
  pub key : String
  pub value : String

-- The round's answers: whether the context has ended, whether the receiver takes an event while the
-- dispatch waits, the time, and the state of the manager.
pub record ScanRound : Type 0 where
  pub ended : Bool
  pub taken : Bool
  pub now : ℕ
  pub system : System

-- Two fields are not part of the text, and have Go's zero value.
unstored : TaskPayload → TaskPayload
unstored p = record p { etcd_mod_revision = 0; etcd_key = "" }

module _ (unmarshal : String → Option TaskPayload) where
  unfoldable pub deserialize : String → Option TaskPayload
  unfolding unstored
  deserialize text = elim (unmarshal text) [ none ↦ none | some p ↦ some (unstored p) ]

  -- The record that the goroutine gives to `dispatch`.
  unfoldable pub fan_out_payload : TaskKeyValue → Option TaskPayload
  unfolding deserialize
  fan_out_payload kv = elim (deserialize kv.value) [
    | none ↦ none
    | some p ↦ some (record p { etcd_key = kv.key })
  ]

  -- A task of a workflow that runs is missed if it is not recorded as completed or failed.
  unfoldable pub is_missed : TaskPayload → Option Entry → Bool
  is_missed p none = false
  is_missed p (some e) =
      if has p.task_name e.state.completed_tasks || has p.task_name e.state.failed_tasks
      then false
      else true

  missed_among : System → TaskPayload → Option TaskPayload
  unfolding is_missed
  missed_among s p = if is_missed p (lock_entry p.workflow_id s) then some p else none

  -- The record that the scan gives to `dispatch`.
  unfoldable pub missed_payload : System → TaskKeyValue → Option TaskPayload
  unfolding deserialize missed_among
  missed_payload s kv = elim (deserialize kv.value) [ none ↦ none | some p ↦ missed_among s p ]

  rescan_round : ScanRound → TaskKeyValue → Watchers → Option Watchers
  unfolding missed_payload
  rescan_round r kv w = elim (missed_payload r.system kv) [
    | none ↦ some w
    | some p ↦
        dispatch r.taken (record { workflow_uuid = p.workflow_id; payload = p; added_at = r.now }) w
  ]

  -- The loop from its round `i` on. There is no answer where a send panics.
  unfoldable pub rescan_from : (ℕ → ScanRound) → ℕ → List TaskKeyValue → Watchers → Option Watchers
  unfolding rescan_round
  rescan_from rounds i [] w = some w
  rescan_from rounds i (kv ∷ kvs) w = elim ((rounds i).ended) [
    | true ↦ some w
    | false ↦ elim (rescan_round (rounds i) kv w) [
      | none ↦ none
      | some v ↦ rescan_from rounds (suc i) kvs v
    ]
  ]

  -- `none` for the list stands for an error of the store.
  unfoldable pub rescan_and_redispatch_tasks :
      (ℕ → ScanRound) → Option (List TaskKeyValue) → Watchers → Option Watchers
  unfolding rescan_from
  rescan_and_redispatch_tasks rounds none w = some w
  rescan_and_redispatch_tasks rounds (some kvs) w = rescan_from rounds 0 kvs w
