-- ===== src/Scheduler/History.antt =====
-- infra/engine/scheduler/workflow_manager.go: what the move to the history does to the running set,
-- and the bound of the history.
pub mod Latest
pub mod Paged
use vibeflow.Prelude.{
  ℕ, zero, suc, ◌+◌, ◌-◌, ◌≤◌, ◌<◌, ◌≡◌, refl, sym, ap, ◌∙◌, ◌≢◌, Bool, true, false, String, List,
  [], ◌∷◌, ◌++◌, Map, Option, none, some, ℤ, pos, lookup, insert, delete, lookup-insert,
  lookup-delete, string_eq, nat_eq, length, length-append, drop, any, ltb, nat_beq, if◌then◌else◌,
  ◌==◌, arith, Bool-cases, Option-cases, inl, inr, ltb_ℤ, pos_part, beq_refl,
}
use vibeflow.Model.Workflow.{WorkflowState, WorkflowStatus}
use vibeflow.Scheduler.State.{
  Entry, Manager, System, emit, lock_entry, put_entry, ids_or_none, keep_latest,
  max_history_by_uuid, remove_first, put_ids, remove_history_by_uuid, forget, max_cache, evict,
  archive, count_outcome, trim_history, persist_workflow_locked, Effect,
}
use vibeflow.Scheduler.Lifecycle.{last_id, latest_id, get_history}

running-count :
    (t : WorkflowStatus) (m : Manager) → (count_outcome t m).running_entries ≡ m.running_entries
unfolding count_outcome
running-count WorkflowStatus.completed m = refl
running-count _ m = refl

-- The archived workflow leaves the running set, and no other entry changes.
pub running-persist :
    (uuid u : String) (st : WorkflowState) (s : System)
    → lookup u (persist_workflow_locked uuid st s).wm.running_entries
      ≡ (if uuid == u then none else lookup u s.wm.running_entries)
unfolding persist_workflow_locked trim_history archive
running-persist uuid u st s =
    ap (lookup u) (running-count st.status (archive uuid st s.wm))
    ∙ lookup-delete uuid u s.wm.running_entries

pub lock_entry-put :
    (uuid u : String) (e : Entry) (s : System)
    → lock_entry u (put_entry uuid e s) ≡ (if uuid == u then some e else lock_entry u s)
unfolding put_entry
lock_entry-put uuid u e s = lookup-insert uuid u e s.wm.running_entries

pub lock_entry-persist_self :
    (uuid : String) (st : WorkflowState) (s : System)
    → lock_entry uuid (persist_workflow_locked uuid st s) ≡ none
lock_entry-persist_self uuid st s = simp (running-persist, beq_refl)

pub lock_entry-emit :
    (u : String) (f : Effect) (s : System) → lock_entry u (emit f s) ≡ lock_entry u s
unfolding emit
lock_entry-emit u f s = refl

length-evict :
    (limit : ℕ) (order : List ℕ) (h : Map ℕ WorkflowState) (by : Map String (List ℕ))
    → length (evict limit order h by).0 ≤ limit
unfolding evict
length-evict limit [] h by = omega arith
length-evict limit (id ∷ order) h by =
    ground (arith, length-evict limit order (delete id h) (forget id h by))

pub cache-count :
    (t : WorkflowStatus) (m : Manager) → (count_outcome t m).max_history_cache ≡ m.max_history_cache
unfolding count_outcome
cache-count WorkflowStatus.completed m = refl
cache-count _ m = refl

-- However many workflows end, the history keeps at most its configured number of executions (1000
-- where the configuration gives none).
pub history-persist_bounded :
    (uuid : String) (st : WorkflowState) (s : System)
    → length (persist_workflow_locked uuid st s).wm.history_order ≤ max_cache s.wm.max_history_cache
unfolding persist_workflow_locked trim_history archive
history-persist_bounded uuid st s =
    let m = count_outcome st.status (archive uuid st s.wm) in
    let same : m.max_history_cache ≡ s.wm.max_history_cache =
      cache-count st.status (archive uuid st s.wm) in
    omega (
      arith,
      length-evict (max_cache m.max_history_cache) m.history_order m.workflow_history
          m.history_by_uuid,
      ap max_cache same,
    )
