-- ===== src/Scheduler/Watchers.antt =====
-- infra/engine/scheduler/watch.go: the channels by which task events reach the goroutine of their
-- workflow, and the backlog of those that found their channel full. A channel is an object of its
-- own, which a dispatch still has when the map no longer has it. Times are in nanoseconds.
pub mod Closed
pub mod Accounted
pub mod Rescan
use vibeflow.Prelude.{
  ℕ, zero, suc, ◌+◌, ◌*◌, Bool, true, false, String, List, [], ◌∷◌, ◌++◌, Map, Option, none, some,
  lookup, insert, delete, string_eq, nat_eq, length, ltb, if◌then◌else◌,
}
use vibeflow.Store.{TaskPayload}

pub record Channel : Type 0 where
  pub buffer : List TaskPayload
  pub closed : Bool

pub record BacklogEntry : Type 0 where
  pub workflow_uuid : String
  pub payload : TaskPayload
  pub added_at : ℕ

-- `workflowWatchers`; `heap` holds all channels that were made, by a number.
pub record Watchers : Type 0 where
  pub chans : Map String ℕ
  pub heap : Map ℕ Channel
  pub made : ℕ
  pub backlog : List BacklogEntry
  pub dropped : ℕ

abbrev pub workflow_event_chan_buf : ℕ
workflow_event_chan_buf = 4096

abbrev pub max_backlog_size : ℕ
max_backlog_size = 2048

-- 30 seconds.
abbrev pub max_age : ℕ
max_age = 30 * 1000000000

abbrev pub new_workflow_watchers : Watchers
new_workflow_watchers = record { chans = []; heap = []; made = 0; backlog = []; dropped = 0 }

-- `register`.
unfoldable pub register : String → Watchers → Watchers × ℕ
register uuid w = (
  record w {
    chans = insert uuid w.made w.chans;
    heap = insert w.made (record { buffer = []; closed = false }) w.heap;
    made = suc w.made;
  },
  w.made,
)

close_channel : ℕ → Map ℕ Channel → Map ℕ Channel
close_channel id h = elim (lookup id h) [
  | none ↦ h
  | some ch ↦ insert id (record ch { closed = true }) h
]

-- `unregister`.
unfoldable pub unregister : String → Watchers → Watchers
unfolding close_channel
unregister uuid w = elim (lookup uuid w.chans) [
  | none ↦ w
  | some id ↦ record w { chans = delete uuid w.chans; heap = close_channel id w.heap }
]

-- A send: Go panics at a closed channel.
pub data Send : Type 0 where
  sent : Channel → Send
  full panics : Send

-- `select` with a `default`, on a channel that was made.
unfoldable pub try_send : TaskPayload → Channel → Send
try_send p ch =
    if ch.closed
    then panics
    else if ltb (length ch.buffer) workflow_event_chan_buf
    then sent (record ch { buffer = ch.buffer ++ p ∷ [] })
    else full

rest_of : List TaskPayload → List TaskPayload
rest_of [] = []
rest_of (x ∷ xs) = xs

-- The same with the wait of `dispatch`, in which the receiver may take an event.
unfoldable pub send_waiting : Bool → TaskPayload → Channel → Send
unfolding try_send rest_of
send_waiting taken p ch = elim (try_send p ch) [
  | full ↦ if taken then sent (record ch { buffer = rest_of ch.buffer ++ p ∷ [] }) else full
  | panics ↦ panics
  | sent c ↦ sent c
]

-- The second phase: into the backlog, or counted as dropped.
unfoldable pub to_backlog : BacklogEntry → Watchers → Watchers
to_backlog e w =
    if ltb (length w.backlog) max_backlog_size
    then record w { backlog = w.backlog ++ e ∷ [] }
    else record w { dropped = suc w.dropped }

-- The watchers after a send, unless the program panics.
unfoldable pub sent_to : ℕ → BacklogEntry → Send → Watchers → Option Watchers
unfolding to_backlog
sent_to id e (sent ch) w = some (record w { heap = insert id ch w.heap })
sent_to id e full w = some (to_backlog e w)
sent_to id e panics w = none

-- `dispatch` with the channel that it looked up before it gave the lock back.
unfoldable pub dispatch_to : Bool → ℕ → BacklogEntry → Watchers → Option Watchers
unfolding send_waiting sent_to
dispatch_to taken id e w = elim (lookup id w.heap) [
  | none ↦ some w
  | some ch ↦ sent_to id e (send_waiting taken e.payload ch) w
]

-- `dispatch` that nothing interrupts.
unfoldable pub dispatch : Bool → BacklogEntry → Watchers → Option Watchers
unfolding dispatch_to
dispatch taken e w = elim (lookup e.workflow_uuid w.chans) [
  | none ↦ some w
  | some id ↦ dispatch_to taken id e w
]

-- What the loop of `flushBacklog` has: the watchers, and the entries to keep.
flush_sent :
    ℕ → BacklogEntry → Send → Watchers × List BacklogEntry → Option (Watchers × List BacklogEntry)
flush_sent id e (sent ch) (w, kept) = some (record w { heap = insert id ch w.heap }, kept)
flush_sent id e full (w, kept) = some (w, kept ++ e ∷ [])
flush_sent id e panics (w, kept) = none

flush_to :
    Option ℕ → BacklogEntry → Watchers × List BacklogEntry → Option (Watchers × List BacklogEntry)
unfolding flush_sent try_send
flush_to none e (w, kept) = some (w, kept)
flush_to (some id) e (w, kept) = elim (lookup id w.heap) [
  | none ↦ some (w, kept)
  | some ch ↦ flush_sent id e (try_send e.payload ch) (w, kept)
]

unfoldable pub flush_entry :
    ℕ → BacklogEntry → Watchers × List BacklogEntry → Option (Watchers × List BacklogEntry)
unfolding flush_to
flush_entry now e (w, kept) =
    if ltb (e.added_at + max_age) now
    then some (record w { dropped = suc w.dropped }, kept)
    else flush_to (lookup e.workflow_uuid w.chans) e (w, kept)

unfoldable pub flush_entries :
    ℕ → List BacklogEntry → Watchers × List BacklogEntry → Option (Watchers × List BacklogEntry)
unfolding flush_entry
flush_entries now [] s = some s
flush_entries now (e ∷ es) s = elim (flush_entry now e s) [
  | none ↦ none
  | some t ↦ flush_entries now es t
]

-- `flushBacklog`, which holds the lock of the backlog all the time.
unfoldable pub flush_backlog : ℕ → Watchers → Option Watchers
unfolding flush_entries
flush_backlog now w = elim (flush_entries now w.backlog (w, [])) [
  | none ↦ none
  | some s ↦ some (record (s.0) { backlog = s.1 })
]
