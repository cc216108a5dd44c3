-- ===== src/Scheduler/Watchers/Accounted.antt =====
-- infra/engine/scheduler/watch.go: what `dispatch` does with an event.
use vibeflow.Prelude.{
  ℕ, suc, ◌≤◌, ◌≡◌, refl, sym, ap, ◌∙◌, subst, Bool, true, false, List, [], ◌∷◌, ◌++◌, some, lookup,
  insert, string_eq, nat_eq, length, ltb, arith, lookup-insert, beq_refl, if_true, if_false,
  Bool-cases, inl, inr,
}
use vibeflow.Store.{TaskPayload}
use vibeflow.Scheduler.Watchers.{
  Channel, BacklogEntry, Watchers, max_backlog_size, Send, sent, full, panics, try_send, rest_of,
  send_waiting, to_backlog, sent_to, dispatch_to, dispatch, workflow_event_chan_buf,
}

-- A send that does not panic and, where it succeeds, puts the event last.
abbrev Ends : TaskPayload → Send → Type 0
Ends p (sent c) = (xs : List TaskPayload) × (c.buffer ≡ xs ++ p ∷ [])
Ends p full = Unit {0}
Ends p panics = ⊥

try_send-Ends : (p : TaskPayload) (ch : Channel) → ch.closed ≡ false → Ends p (try_send p ch)
unfolding try_send
try_send-Ends p ch h = elim (Bool-cases (ltb (length ch.buffer) workflow_event_chan_buf)) [
  | inl room ↦ subst (Ends p) (sym (if_false _ _ _ h ∙ if_true _ _ _ room)) (ch.buffer, refl)
  | inr none_left ↦ subst (Ends p) (sym (if_false _ _ _ h ∙ if_false _ _ _ none_left)) tt
]

waited-Ends :
    (taken : Bool) (p : TaskPayload) (ch : Channel) (r : Send)
    → try_send p ch ≡ r
    → Ends p r
    → Ends p (send_waiting taken p ch)
unfolding send_waiting
waited-Ends taken p ch (sent c) h e = rw (h, send_waiting) e
waited-Ends true p ch full h e = rw (h, send_waiting) (rest_of ch.buffer, refl)
waited-Ends false p ch full h e = rw (h, send_waiting) tt
waited-Ends taken p ch panics h e = absurd e

-- The event is last in its channel, or last in the backlog, or the backlog was full and it is
-- counted as dropped; what else there is stays.
pub data Accounted (id : ℕ) (e : BacklogEntry) (w v : Watchers) : Type 0 where
  delivered :
      (c : Channel) (xs : List TaskPayload)
      → lookup id v.heap ≡ some c
      → c.buffer ≡ xs ++ e.payload ∷ []
      → v.backlog ≡ w.backlog
      → v.dropped ≡ w.dropped
      → Accounted id e w v
  kept : v.backlog ≡ w.backlog ++ e ∷ [] → v.dropped ≡ w.dropped → Accounted id e w v
  counted :
      max_backlog_size ≤ length w.backlog
      → v.backlog ≡ w.backlog
      → v.dropped ≡ suc w.dropped
      → Accounted id e w v

sent_to-Accounted :
    (id : ℕ) (e : BacklogEntry) (w : Watchers) (r : Send)
    → Ends e.payload r
    → (v : Watchers) × (sent_to id e r w ≡ some v) × Accounted id e w v
unfolding sent_to to_backlog
sent_to-Accounted id e w (sent c) (xs, last) = (
  record w { heap = insert id c w.heap },
  refl,
  delivered c xs (lookup-insert id id c w.heap ∙ if_true _ _ _ (beq_refl id)) last refl refl,
)
sent_to-Accounted id e w full h = elim (Bool-cases (ltb (length w.backlog) max_backlog_size)) [
  | inl room ↦
      (record w { backlog = w.backlog ++ e ∷ [] }, ap some (if_true _ _ _ room), kept refl refl)
  | inr none_left ↦ (
    record w { dropped = suc w.dropped },
    ap some (if_false _ _ _ none_left),
    counted (ground (arith, none_left)) refl refl,
  )
]
sent_to-Accounted id e w panics h = absurd h

-- An event for a workflow whose channel is open is never lost unnoticed: it ends as the last in the
-- channel, or as the last of the backlog, or the backlog is full and the event is counted.
pub dispatch-Accounted :
    (taken : Bool) (id : ℕ) (ch : Channel) (e : BacklogEntry) (w : Watchers)
    → lookup e.workflow_uuid w.chans ≡ some id
    → lookup id w.heap ≡ some ch
    → ch.closed ≡ false
    → (v : Watchers) × (dispatch taken e w ≡ some v) × Accounted id e w v
unfolding dispatch dispatch_to
dispatch-Accounted taken id ch e w known made still_open =
    let p = e.payload in
    let ends = waited-Ends taken p ch (try_send p ch) refl (try_send-Ends p ch still_open) in
    let (v, went, a) = sent_to-Accounted id e w (send_waiting taken p ch) ends in
    let there : dispatch taken e w ≡ sent_to id e (send_waiting taken p ch) w =
      rw (known, dispatch) (rw (made, dispatch_to) refl) in
    (v, there ∙ went, a)
