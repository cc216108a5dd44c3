-- ===== src/Scheduler/Listeners.antt =====
-- infra/engine/scheduler/scheduler.go: the channels on which a parallel execution waits for the end of
-- its tasks. Each has room for one event. A call is one step; a channel is known by its number, and
-- stays in the heap when no map has it.
pub mod Entries
pub mod Kept
pub mod Silent
use vibeflow.Prelude.{
  ℕ, suc, Bool, true, false, String, List, [], ◌∷◌, ◌++◌, Map, Option, none, some, lookup, insert,
  delete, string_eq, nat_eq, if◌then◌else◌,
}
use vibeflow.Store.{TaskPayload}

pub record TaskChannel : Type 0 where
  pub event : Option TaskPayload
  pub closed : Bool

-- `taskListeners`, and all channels that were made.
pub record TaskListeners : Type 0 where
  pub listeners : Map String (Map String ℕ)
  pub heap : Map ℕ TaskChannel
  pub made : ℕ

abbrev pub or_empty : Option (Map String ℕ) → Map String ℕ
or_empty none = []
or_empty (some c) = c

abbrev pub chans_of : String → Map String (Map String ℕ) → Map String ℕ
chans_of uuid m = or_empty (lookup uuid m)

-- `registerTaskListener`, with the channel that `executeSingleTask` makes for it: the listeners then,
-- and the channel.
unfoldable pub register_task_listener : String → String → TaskListeners → TaskListeners × ℕ
register_task_listener uuid task s = (
  record s {
    listeners = insert uuid (insert task s.made (chans_of uuid s.listeners)) s.listeners;
    heap = insert s.made (record { event = none; closed = false }) s.heap;
    made = suc s.made;
  },
  s.made,
)

-- A close of a closed channel panics: then there is no heap.
close_in : ℕ → TaskChannel → Map ℕ TaskChannel → Option (Map ℕ TaskChannel)
close_in id ch h = if ch.closed then none else some (insert id (record ch { closed = true }) h)

unfoldable pub close_channel : ℕ → Map ℕ TaskChannel → Option (Map ℕ TaskChannel)
unfolding close_in
close_channel id h = elim (lookup id h) [ none ↦ some h | some ch ↦ close_in id ch h ]

-- The entry of a workflow goes with its last listener.
put_chans : String → Map String ℕ → Map String (Map String ℕ) → Map String (Map String ℕ)
put_chans uuid [] m = delete uuid m
put_chans uuid (c ∷ cs) m = insert uuid (c ∷ cs) m

with_heap :
    Map String (Map String ℕ) → Option (Map ℕ TaskChannel) → TaskListeners → Option TaskListeners
with_heap m none s = none
with_heap m (some h) s = some (record s { listeners = m; heap = h })

unregister_from : String → String → Map String ℕ → TaskListeners → Option TaskListeners
unfolding put_chans with_heap close_channel
unregister_from uuid task chans s =
    let m = put_chans uuid (delete task chans) s.listeners in
    elim (lookup task chans) [
      | none ↦ some (record s { listeners = m })
      | some id ↦ with_heap m (close_channel id s.heap) s
    ]

-- `unregisterTaskListener`; no listeners are left where the program panics.
unfoldable pub unregister_task_listener : String → String → TaskListeners → Option TaskListeners
unfolding unregister_from
unregister_task_listener uuid task s = elim (lookup uuid s.listeners) [
  | none ↦ some s
  | some chans ↦ unregister_from uuid task chans s
]

-- A send with a `default`: the listeners then, and whether the event was sent.
send_event : ℕ → TaskPayload → TaskChannel → TaskListeners → Option (TaskListeners × Bool)
send_event id p ch s = if ch.closed then none else elim ch.event [
  | some old ↦ some (s, false)
  | none ↦ some (record s { heap = insert id (record ch { event = some p }) s.heap }, true)
]

notify_channel : Option ℕ → TaskPayload → TaskListeners → Option (TaskListeners × Bool)
unfolding send_event
notify_channel none p s = some (s, false)
notify_channel (some id) p s = elim (lookup id s.heap) [
  | none ↦ some (s, false)
  | some ch ↦ send_event id p ch s
]

-- `notifyTaskListener`.
unfoldable pub notify_task_listener :
    String → String → TaskPayload → TaskListeners → Option (TaskListeners × Bool)
unfolding notify_channel
notify_task_listener uuid task p s = notify_channel (lookup task (chans_of uuid s.listeners)) p s

unfoldable pub close_all : Map String ℕ → Map ℕ TaskChannel → Option (Map ℕ TaskChannel)
unfolding close_channel
close_all [] h = some h
close_all ((task, id) ∷ chans) h = elim (close_channel id h) [
  | none ↦ none
  | some h' ↦ close_all chans h'
]

-- `cleanupTaskListeners`.
unfoldable pub cleanup_task_listeners : String → TaskListeners → Option TaskListeners
unfolding close_all with_heap
cleanup_task_listeners uuid s = elim (lookup uuid s.listeners) [
  | none ↦ some s
  | some chans ↦ with_heap (delete uuid s.listeners) (close_all chans s.heap) s
]

-- The calls that others make.
pub data Call : Type 0 where
  registers unregisters : String → String → Call
  notifies : String → String → TaskPayload → Call
  cleans_up : String → Call

listeners_of : Option (TaskListeners × Bool) → Option TaskListeners
listeners_of none = none
listeners_of (some r) = some r.0

unfoldable pub call : Call → TaskListeners → Option TaskListeners
unfolding listeners_of register_task_listener unregister_task_listener notify_task_listener
    cleanup_task_listeners
call (registers uuid task) s = some (register_task_listener uuid task s).0
call (unregisters uuid task) s = unregister_task_listener uuid task s
call (notifies uuid task p) s = listeners_of (notify_task_listener uuid task p s)
call (cleans_up uuid) s = cleanup_task_listeners uuid s

unfoldable pub calls : List Call → TaskListeners → Option TaskListeners
unfolding call
calls [] s = some s
calls (c ∷ cs) s = elim (call c s) [ none ↦ none | some t ↦ calls cs t ]
