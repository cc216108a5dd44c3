-- ===== src/Scheduler/Listeners/Kept.antt =====
-- infra/engine/scheduler/scheduler.go: a channel that no map has stays as it is.
use vibeflow.Prelude.{
  ℕ, ◌<◌, ◌≡◌, ◌≢◌, refl, sym, ap, ◌∙◌, subst, true, false, String, List, [], ◌∷◌, Map, Option,
  none, some, lookup, insert, delete, lookup-insert, string_eq, nat_eq, ◌==◌, if_true, if_false,
  arith, Option-cases, Bool-cases, inl, inr,
}
use vibeflow.Store.{TaskPayload}
use vibeflow.Scheduler.Listeners.{
  TaskChannel, TaskListeners, or_empty, chans_of, register_task_listener, close_in, close_channel,
  put_chans, with_heap, unregister_from, unregister_task_listener, send_event, notify_channel,
  notify_task_listener, close_all, cleanup_task_listeners, Call, registers, unregisters, notifies,
  cleans_up, listeners_of, call, calls,
}
use vibeflow.Scheduler.Listeners.Entries.{All, All-insert, All-delete, All-lookup}

module _ (a : ℕ) (ch : TaskChannel) where
  abbrev pub Other : ℕ → Type 0
  Other id = id ≢ a

  -- The channel is as it was, and no map has it.
  abbrev pub Silent : TaskListeners → Type 0
  Silent s = (a < s.made) × All (All Other) s.listeners × (lookup a s.heap ≡ some ch)

  abbrev pub Kept : Option TaskListeners → Type 0
  Kept none = Unit {0}
  Kept (some s) = Silent s

  abbrev KeptHeap : Option (Map ℕ TaskChannel) → Type 0
  KeptHeap none = Unit {0}
  KeptHeap (some h) = lookup a h ≡ some ch

  pub insert-Other :
      (id : ℕ) (c : TaskChannel) (h : Map ℕ TaskChannel)
      → Other id
      → lookup a h ≡ some ch
      → lookup a (insert id c h) ≡ some ch
  insert-Other id c h o e =
      lookup-insert id a c h ∙ if_false (id == a) _ _ (ground (arith, o, nat_eq.beq_iff id a)) ∙ e

  close-KeptHeap :
      (id : ℕ) (h : Map ℕ TaskChannel)
      → Other id
      → lookup a h ≡ some ch
      → KeptHeap (close_channel id h)
  unfolding close_channel close_in
  close-KeptHeap id h o e = elim (Option-cases (lookup id h)) [
    | inl gone ↦ rw (gone, close_channel) e
    | inr (c, there) ↦
        rw (there, close_channel)
          (elim (Bool-cases c.closed) [
            | inl shut ↦ subst KeptHeap (sym (if_true _ _ _ shut)) tt
            | inr still ↦
                subst KeptHeap (sym (if_false _ _ _ still))
                  (insert-Other id (record c { closed = true }) h o e)
          ])
  ]

  close_all-KeptHeap :
      (chans : Map String ℕ) (h : Map ℕ TaskChannel)
      → All Other chans
      → lookup a h ≡ some ch
      → KeptHeap (close_all chans h)
  unfolding close_all
  close_all-KeptHeap [] h o e = e
  close_all-KeptHeap ((task, id) ∷ chans) h o e = elim (Option-cases (close_channel id h)) [
    | inl panic ↦ rw (panic, close_all) tt
    | inr (g, closed) ↦
        rw (closed, close_all)
          (close_all-KeptHeap chans g o.1 (subst KeptHeap closed (close-KeptHeap id h o.0 e)))
  ]

  with_heap-Kept :
      (m : Map String (Map String ℕ)) (h : Option (Map ℕ TaskChannel)) (s : TaskListeners)
      → a < s.made
      → All (All Other) m
      → KeptHeap h
      → Kept (with_heap m h s)
  unfolding with_heap
  with_heap-Kept m none s old o e = tt
  with_heap-Kept m (some h) s old o e = (old, o, e)

  put_chans-All :
      (uuid : String) (chans : Map String ℕ) (m : Map String (Map String ℕ))
      → All Other chans
      → All (All Other) m
      → All (All Other) (put_chans uuid chans m)
  unfolding put_chans
  put_chans-All uuid [] m c o = All-delete (All Other) uuid m o
  put_chans-All uuid (x ∷ xs) m c o = All-insert (All Other) uuid (x ∷ xs) m c o

  unregistered-Kept :
      (uuid task : String) (chans : Map String ℕ) (s : TaskListeners)
      → All Other chans
      → Silent s
      → Kept (unregister_from uuid task chans s)
  unfolding unregister_from
  unregistered-Kept uuid task chans s c (old, o, e) =
      let m = put_chans uuid (delete task chans) s.listeners in
      let kept =
        put_chans-All uuid (delete task chans) s.listeners (All-delete Other task chans c) o in
      elim (Option-cases (lookup task chans)) [
        | inl gone ↦ rw (gone, unregister_from) (old, kept, e)
        | inr (id, there) ↦
            rw (there, unregister_from)
              (with_heap-Kept m (close_channel id s.heap) s old kept
                (close-KeptHeap id s.heap (All-lookup Other task id chans c there) e))
      ]

  pub chans_of-All :
      (uuid : String) (m : Map String (Map String ℕ))
      → All (All Other) m
      → All Other (chans_of uuid m)
  chans_of-All uuid m o = elim (Option-cases (lookup uuid m)) [
    | inl gone ↦ subst (All Other) (sym (ap or_empty gone)) tt
    | inr (c, there) ↦
        subst (All Other) (sym (ap or_empty there)) (All-lookup (All Other) uuid c m o there)
  ]

  sent-Kept :
      (id : ℕ) (p : TaskPayload) (c : TaskChannel) (s : TaskListeners)
      → Other id
      → Silent s
      → Kept (listeners_of (send_event id p c s))
  unfolding send_event listeners_of
  sent-Kept id p c s n (old, o, e) = elim (Bool-cases c.closed) [
    | inl shut ↦ subst (λ r. Kept (listeners_of r)) (sym (if_true _ _ _ shut)) tt
    | inr still ↦
        subst (λ r. Kept (listeners_of r)) (sym (if_false _ _ _ still))
          (elim (Option-cases c.event) [
            | inl empty ↦
                rw (empty, send_event)
                  (old, o, insert-Other id (record c { event = some p }) s.heap n e)
            | inr (q, full) ↦ rw (full, send_event) (old, o, e)
          ])
  ]

  notified-Kept :
      (o : Option ℕ) (p : TaskPayload) (s : TaskListeners)
      → ((id : ℕ) → o ≡ some id → Other id)
      → Silent s
      → Kept (listeners_of (notify_channel o p s))
  unfolding notify_channel listeners_of
  notified-Kept none p s n v = v
  notified-Kept (some id) p s n v = elim (Option-cases (lookup id s.heap)) [
    | inl gone ↦ rw (gone, notify_channel) v
    | inr (c, there) ↦ rw (there, notify_channel) (sent-Kept id p c s (n id refl) v)
  ]

  call-Kept : (c : Call) (s : TaskListeners) → Silent s → Kept (call c s)
  unfolding call register_task_listener unregister_task_listener notify_task_listener
      cleanup_task_listeners
  call-Kept (registers uuid task) s (old, o, e) =
      let fresh : Other s.made = λ same. absurd (omega (arith, old, same)) in
      (
        omega (arith, old),
        All-insert (All Other) uuid (insert task s.made (chans_of uuid s.listeners)) s.listeners
            (All-insert Other task s.made (chans_of uuid s.listeners) fresh
              (chans_of-All uuid s.listeners o))
            o,
        insert-Other s.made (record { event = none; closed = false }) s.heap fresh e,
      )
  call-Kept (unregisters uuid task) s v = elim (Option-cases (lookup uuid s.listeners)) [
    | inl gone ↦ rw (gone, unregister_task_listener) v
    | inr (chans, there) ↦
        rw (there, unregister_task_listener)
          (unregistered-Kept uuid task chans s
            (All-lookup (All Other) uuid chans s.listeners v.1 there) v)
  ]
  call-Kept (notifies uuid task p) s v =
      notified-Kept (lookup task (chans_of uuid s.listeners)) p s
        (λ id h.
          All-lookup Other task id (chans_of uuid s.listeners) (chans_of-All uuid s.listeners v.1)
            h)
        v
  call-Kept (cleans_up uuid) s v = elim (Option-cases (lookup uuid s.listeners)) [
    | inl gone ↦ rw (gone, cleanup_task_listeners) v
    | inr (chans, there) ↦
        rw (there, cleanup_task_listeners)
          (with_heap-Kept (delete uuid s.listeners) (close_all chans s.heap) s v.0
            (All-delete (All Other) uuid s.listeners v.1)
            (close_all-KeptHeap chans s.heap
              (All-lookup (All Other) uuid chans s.listeners v.1 there) v.2))
  ]

  pub calls-Kept : (cs : List Call) (s : TaskListeners) → Silent s → Kept (calls cs s)
  unfolding calls
  calls-Kept [] s v = v
  calls-Kept (c ∷ cs) s v = elim (Option-cases (call c s)) [
    | inl panic ↦ rw (panic, calls) tt
    | inr (t, went) ↦ rw (went, calls) (calls-Kept cs t (subst Kept went (call-Kept c s v)))
  ]
