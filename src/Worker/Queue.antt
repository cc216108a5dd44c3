-- ===== src/Worker/Queue.antt =====
-- infra/engine/runtime/priority_queue.go: the tasks that wait in a worker. Every method holds the
-- queue's mutex, so it is one step. `E` is the type of the events that wait.
pub mod Order
pub mod Sorted
pub mod Wake
use vibeflow.Prelude.{
  ℕ, zero, suc, ◌+◌, Bool, true, false, List, [], ◌∷◌, Option, none, some, ℤ, eq_ℤ, ltb_ℤ, ltb,
  length, if◌then◌else◌,
}
use vibeflow.Heap

pub record PrioritizedTask (E : Type 0) : Type 0 where
  pub event : E
  pub priority : ℤ
  pub index : ℕ

-- `Less`.
abbrev pub less : {E : Type 0} → PrioritizedTask E → PrioritizedTask E → Bool
less s t = if eq_ℤ s.priority t.priority then ltb s.index t.index else ltb_ℤ t.priority s.priority

-- `not_empty` is the token in the channel of that name.
pub record TaskQueue (E : Type 0) : Type 0 where
  pub items : List (PrioritizedTask E)
  pub not_empty : Bool
  pub closed : Bool
  pub next_index : ℕ

-- What a `Dequeue` answers: an event, that the queue is closed and empty, or nothing yet.
pub data Answer (E : Type 0) : Type 0 where
  event : E → Answer E
  ended waits : Answer E

module _ {E : Type 0} where
  -- `newPriorityTaskQueue`.
  unfoldable pub new : TaskQueue E
  new = record { items = []; not_empty = false; closed = false; next_index = 0 }

  unfoldable pub enqueue : E → ℤ → TaskQueue E → TaskQueue E
  unfolding Heap.push
  enqueue e priority q =
      let index = suc q.next_index in
      let t : PrioritizedTask E = record { event = e; priority = priority; index = index } in
      if q.closed
      then q
      else (record q { items = Heap.push less t q.items; not_empty = true; next_index = index })

  unfoldable pub take_top : Option (PrioritizedTask E) → Answer E
  take_top none = waits
  take_top (some t) = event t.event

  unfoldable pub pop_top : TaskQueue E → TaskQueue E × Answer E
  unfolding Heap.pop take_top
  pop_top q = let r = Heap.pop less q.items in (record q { items = r.1 }, take_top r.0)

  -- A round of the loop of `Dequeue`, up to the `select` in which it waits.
  unfoldable pub dequeue_round : TaskQueue E → TaskQueue E × Answer E
  unfolding pop_top
  dequeue_round q =
      if ltb 0 (length q.items) then pop_top q else if q.closed then (q, ended) else (q, waits)

  -- The `select` takes the token, and the loop goes round again.
  unfoldable pub woken : TaskQueue E → TaskQueue E × Answer E
  unfolding dequeue_round
  woken q = dequeue_round (record q { not_empty = false })

  -- The `select` finds the worker's context at its end.
  unfoldable pub dequeue_closing : TaskQueue E → TaskQueue E × Answer E
  unfolding pop_top
  dequeue_closing q =
      if ltb 0 (length q.items) then pop_top q else (record q { closed = true }, ended)

  -- `Close`.
  unfoldable pub close : TaskQueue E → TaskQueue E
  close q = record q { closed = true }

  -- `LenSafe`.
  unfoldable pub len_safe : TaskQueue E → ℕ
  len_safe q = length q.items
