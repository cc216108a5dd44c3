-- ===== src/Scheduler/Watchers/Closed.antt =====
-- infra/engine/scheduler/watch.go: where the dispatch of an event ends.
use vibeflow.Prelude.{
  ℕ, suc, ◌+◌, ◌≤◌, ◌≡◌, refl, ap, ◌∙◌, subst, Bool, true, List, [], ◌∷◌, ◌++◌, Option, none, some,
  lookup, insert, delete, string_eq, nat_eq, length, ltb, arith, lookup-insert, beq_refl,
  length-append, if_true, Bool-cases, Option-cases, inl, inr,
}
use vibeflow.Scheduler.Watchers.{
  Channel, BacklogEntry, Watchers, close_channel, unregister, Send, sent, full, panics, try_send,
  send_waiting, sent_to, dispatch_to, flush_entry, flush_entries, flush_backlog, flush_sent,
  max_age, flush_to,
}

-- A dispatch looks the channel up under the lock and sends without it. When the workflow's
-- goroutine unregisters the channel in between, which closes it, the send panics, whatever waits in
-- the channel: nothing there recovers, so that the master goes down.
pub dispatch_to-unregister :
    (taken : Bool) (id : ℕ) (ch : Channel) (e : BacklogEntry) (w : Watchers)
    → lookup e.workflow_uuid w.chans ≡ some id
    → lookup id w.heap ≡ some ch
    → dispatch_to taken id e (unregister e.workflow_uuid w) ≡ none
unfolding dispatch_to unregister close_channel send_waiting try_send sent_to
dispatch_to-unregister taken id ch e w known made =
    let shut : Channel = record ch { closed = true } in
    let gone : unregister e.workflow_uuid w
        ≡ record w { chans = delete e.workflow_uuid w.chans; heap = insert id shut w.heap } =
      rw (known, unregister) (rw (made, close_channel) refl) in
    let there : lookup id (insert id shut w.heap) ≡ some shut =
      lookup-insert id id shut w.heap ∙ if_true _ _ _ (beq_refl id) in
    ap (dispatch_to taken id e) gone ∙ rw (there, dispatch_to) refl

-- The entry is not over its age.
abbrev pub AllFresh : ℕ → List BacklogEntry → Type 0
AllFresh now [] = Unit {0}
AllFresh now (e ∷ es) = (now ≤ e.added_at + max_age) × AllFresh now es

snoc-AllFresh :
    (now : ℕ) (es : List BacklogEntry) (e : BacklogEntry)
    → now ≤ e.added_at + max_age
    → AllFresh now es
    → AllFresh now (es ++ e ∷ [])
snoc-AllFresh now [] e h a = (h, tt)
snoc-AllFresh now (x ∷ es) e h a = (a.0, snoc-AllFresh now es e h a.1)

-- What is kept after the loop has looked at `n` entries more.
abbrev Kept : ℕ → ℕ → List BacklogEntry → Option (Watchers × List BacklogEntry) → Type 0
Kept now n kept none = Unit {0}
Kept now n kept (some (w, es)) = AllFresh now es × (length es ≤ length kept + n)

flush_sent-Kept :
    (now id : ℕ) (e : BacklogEntry) (r : Send) (w : Watchers) (kept : List BacklogEntry)
    → now ≤ e.added_at + max_age
    → AllFresh now kept
    → Kept now 1 kept (flush_sent id e r (w, kept))
unfolding flush_sent
flush_sent-Kept now id e (sent ch) w kept h a = (a, omega arith)
flush_sent-Kept now id e full w kept h a =
    (snoc-AllFresh now kept e h a, omega (arith, length-append {0} kept (e ∷ [])))
flush_sent-Kept now id e panics w kept h a = tt

flush_to-Kept :
    (now : ℕ) (o : Option ℕ) (e : BacklogEntry) (w : Watchers) (kept : List BacklogEntry)
    → now ≤ e.added_at + max_age
    → AllFresh now kept
    → Kept now 1 kept (flush_to o e (w, kept))
unfolding flush_to
flush_to-Kept now none e w kept h a = (a, omega arith)
flush_to-Kept now (some id) e w kept h a = elim (Option-cases (lookup id w.heap)) [
  | inl gone ↦ rw (gone, flush_to) (a, omega arith)
  | inr (ch, there) ↦
      rw (there, flush_to) (flush_sent-Kept now id e (try_send e.payload ch) w kept h a)
]

flush_entry-Kept :
    (now : ℕ) (e : BacklogEntry) (w : Watchers) (kept : List BacklogEntry)
    → AllFresh now kept
    → Kept now 1 kept (flush_entry now e (w, kept))
unfolding flush_entry
flush_entry-Kept now e w kept a = elim (Bool-cases (ltb (e.added_at + max_age) now)) [
  | inl old ↦ rw old (a, omega arith)
  | inr fresh ↦
      rw fresh
        (flush_to-Kept now (lookup e.workflow_uuid w.chans) e w kept (ground (arith, fresh)) a)
]

flush_entries-Kept :
    (now : ℕ) (es : List BacklogEntry) (w : Watchers) (kept : List BacklogEntry)
    → AllFresh now kept
    → Kept now (length es) kept (flush_entries now es (w, kept))
unfolding flush_entries
flush_entries-Kept now [] w kept a = (a, omega arith)
flush_entries-Kept now (e ∷ es) w kept a = elim (Option-cases (flush_entry now e (w, kept))) [
  | inl down ↦ rw (down, flush_entries) tt
  | inr ((v, more), went) ↦
      let (fresh, size) = subst (Kept now 1 kept) went (flush_entry-Kept now e w kept a) in
      rw (went, flush_entries)
        (longer more (flush_entries now es (v, more)) (flush_entries-Kept now es v more fresh) size)
]
  where
    longer :
        (more : List BacklogEntry) (o : Option (Watchers × List BacklogEntry))
        → Kept now (length es) more o
        → length more ≤ length kept + 1
        → Kept now (suc (length es)) kept o
    longer more none k h = tt
    longer more (some (v, l)) k h = (k.0, omega (arith, k.1, h))

-- After a round of the backlog, which no closed channel stopped, every entry that is left is at
-- most 30 seconds old, and there are at most as many as before.
pub flush_backlog-AllFresh :
    (now : ℕ) (w v : Watchers)
    → flush_backlog now w ≡ some v
    → AllFresh now v.backlog × (length v.backlog ≤ length w.backlog)
unfolding flush_backlog
flush_backlog-AllFresh now w v h = elim (Option-cases (flush_entries now w.backlog (w, []))) [
  | inl down ↦ absurd (ground (arith, down, h))
  | inr ((u, es), went) ↦
      let (fresh, size) =
        subst (Kept now (length w.backlog) []) went (flush_entries-Kept now w.backlog w [] tt) in
      let same : es ≡ v.backlog = ground (arith, went, h) in
      subst (λ l. AllFresh now l × (length l ≤ length w.backlog)) same (fresh, omega (arith, size))
]
