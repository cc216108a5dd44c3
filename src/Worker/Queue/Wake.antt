-- ===== src/Worker/Queue/Wake.antt =====
-- infra/engine/runtime/priority_queue.go: the consumer that waits in `Dequeue` (worker.go has one)
-- between the calls of the others.
use vibeflow.Prelude.{
  ◌<◌, ◌≡◌, refl, Bool, true, false, ℤ, arith, length, ltb, Bool-cases, inl, inr, if_true, sym, ap,
  ◌∙◌, ◌&&◌, not,
}
use vibeflow.Heap.Pop.{pop-Perm}
use vibeflow.Worker.Queue.{
  TaskQueue, Answer, event, ended, waits, new, enqueue, dequeue_round, dequeue_closing, woken,
  close, pop_top, take_top, less,
}

pub data Phase : Type 0 where
  busy waiting stopped : Phase

-- With an event the consumer is at work until it comes back.
unfoldable pub after : {E : Type 0} → Answer E → Phase
after (event e) = busy
after ended = stopped
after waits = waiting

not_waiting : (ph : Phase) (b : Bool) → ph ≡ busy → ph ≡ waiting → b ≡ true
not_waiting ph b h g = absurd (ground (arith, h, g))

module _ {E : Type 0} where
  -- One step of the queue and its consumer.
  pub data Step : TaskQueue E × Phase → TaskQueue E × Phase → Type 0 where
    enqueues : (e : E) (p : ℤ) (q : TaskQueue E) (ph : Phase) → Step (q, ph) (enqueue e p q, ph)
    closes : (q : TaskQueue E) (ph : Phase) → Step (q, ph) (close q, ph)
    asks : (q : TaskQueue E) → Step (q, busy) ((dequeue_round q).0, after (dequeue_round q).1)
    wakes :
        (q : TaskQueue E) → q.not_empty ≡ true → Step (q, waiting) ((woken q).0, after (woken q).1)
    shuts :
        (q : TaskQueue E) → Step (q, waiting) ((dequeue_closing q).0, after (dequeue_closing q).1)

  pub data Reach (s : TaskQueue E × Phase) : TaskQueue E × Phase → Type 0 where
    start : Reach s s
    next : {t u : TaskQueue E × Phase} → Reach s t → Step t u → Reach s u

  -- Where the consumer waits and tasks are there, the token is there.
  abbrev pub Wakes : TaskQueue E × Phase → Type 0
  Wakes (q, ph) = ph ≡ waiting → 0 < length q.items → q.not_empty ≡ true

  taken-busy : (q : TaskQueue E) → 0 < length q.items → after (pop_top q).1 ≡ busy
  unfolding pop_top take_top after
  taken-busy q h = let (x, _, e, _) = pop-Perm less q.items h in rw e refl

  asked-Wakes : (q : TaskQueue E) → Wakes ((dequeue_round q).0, after (dequeue_round q).1)
  unfolding dequeue_round after
  asked-Wakes q = elim (Bool-cases (ltb 0 (length q.items))) [
    | inl some_left ↦
        let e : dequeue_round q ≡ pop_top q = if_true _ _ _ some_left in
        λ h l.
          not_waiting (after (pop_top q).1) _ (taken-busy q (ground (arith, some_left)))
            (sym (ap (λ r. after r.1) e) ∙ h)
    | inr none_left ↦ λ h l. absurd (ground (arith, none_left))
  ]

  shut-Wakes : (q : TaskQueue E) → Wakes ((dequeue_closing q).0, after (dequeue_closing q).1)
  unfolding dequeue_closing after
  shut-Wakes q = elim (Bool-cases (ltb 0 (length q.items))) [
    | inl some_left ↦
        let e : dequeue_closing q ≡ pop_top q = if_true _ _ _ some_left in
        λ h l.
          not_waiting (after (pop_top q).1) _ (taken-busy q (ground (arith, some_left)))
            (sym (ap (λ r. after r.1) e) ∙ h)
    | inr none_left ↦ λ h l. absurd (ground (arith, none_left))
  ]

  Step-Wakes : {s t : TaskQueue E × Phase} → Step s t → Wakes s → Wakes t
  unfolding enqueue close woken
  Step-Wakes (enqueues e p q ph) w = λ h l. elim (Bool-cases q.closed) [
    | inl over ↦ ground (arith, over, w h)
    | inr on ↦ ground (arith, on)
  ]
  Step-Wakes (closes q ph) w = w
  Step-Wakes (asks q) w = asked-Wakes q
  Step-Wakes (wakes q h) w = asked-Wakes (record q { not_empty = false })
  Step-Wakes (shuts q) w = shut-Wakes q

  reached-Wakes : {t : TaskQueue E × Phase} → Reach (new, busy) t → Wakes t
  unfolding new
  reached-Wakes start = λ h l. absurd (omega arith)
  reached-Wakes (next r s) = Step-Wakes s (reached-Wakes r)

  -- The consumer waits, tasks are there, and nothing will wake it.
  unfoldable pub sleeps_on : TaskQueue E × Phase → Bool
  sleeps_on (q, waiting) = ltb 0 (length q.items) && not q.not_empty
  sleeps_on (q, _) = false

  awake : (t : TaskQueue E × Phase) → Wakes t → sleeps_on t ≡ false
  unfolding sleeps_on
  awake (q, busy) w = refl
  awake (q, stopped) w = refl
  awake (q, waiting) w = ground (arith, w refl)

-- No wake-up is lost: wherever the queue and its one consumer get to from a new queue, the
-- consumer does not wait without a token in the channel while tasks are there.
pub Reach-sleeps_on :
    {E : Type 0} (t : TaskQueue E × Phase) → Reach (new, busy) t → sleeps_on t ≡ false
Reach-sleeps_on t r = awake t (reached-Wakes r)
