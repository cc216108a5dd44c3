-- ===== src/Worker/Queue/Sorted.antt =====
-- infra/engine/runtime/priority_queue.go: the queue against its specification, a list in the order
-- in which the tasks are handed out.
use mathlib.Core.Bool.{true≢false}
use mathlib.Core.Logic.{∥∥₁_prop, inl, inr}
use mathlib.Core.Logic.Or
use mathlib.Core.List.{Perm, Mem, mem-cons, mem-cons_self}
use mathlib.Core.List.Perm
use vibeflow.Prelude.{
  suc, ◌<◌, ◌≡◌, refl, sym, ap, ◌∙◌, subst, Bool, true, false, List, [], ◌∷◌, map, ℤ, arith, length,
  ltb, Bool-cases, if_true, if_false,
}
use vibeflow.Heap
use vibeflow.Heap.Swap.{length-Perm}
use vibeflow.Heap.Up.{IsHeapTo, push-Perm, push-IsHeap}
use vibeflow.Heap.Pop.{pop-Popped}
use vibeflow.Worker.Queue.{
  PrioritizedTask, TaskQueue, Answer, event, ended, waits, less, new, enqueue, pop_top, take_top,
  dequeue_round, close,
}
use vibeflow.Worker.Queue.Order.{
  less-StrictWeak, insert_after, insert_task, view, Ordered, AllBelow, map-insert, insert-Perm,
  insert-Ordered, insert-AllBelow, less_of_mem,
}

-- The calls of the event loop and of the consumer.
pub data Call (E : Type 0) : Type 0 where
  put : E → ℤ → Call E
  take shut : Call E

module _ {E : Type 0} where
  unfoldable pub step : Call E → TaskQueue E → TaskQueue E × List (Answer E)
  unfolding enqueue dequeue_round close
  step (put e p) q = (enqueue e p q, [])
  step take q = let r = dequeue_round q in (r.0, r.1 ∷ [])
  step shut q = (close q, [])

  -- The answers, in order.
  unfoldable pub answers : List (Call E) → TaskQueue E → List (List (Answer E))
  unfolding step
  answers [] q = []
  answers (c ∷ cs) q = let r = step c q in r.1 ∷ answers cs r.0

  -- The specification: a list in which a task stands behind all that have at least its priority.
  unfoldable pub spec_step : Call E → List (E × ℤ) × Bool → (List (E × ℤ) × Bool) × List (Answer E)
  unfolding insert_after
  spec_step (put e p) (l, true) = ((l, true), [])
  spec_step (put e p) (l, false) = ((insert_after e p l, false), [])
  spec_step take ([], true) = (([], true), ended ∷ [])
  spec_step take ([], false) = (([], false), waits ∷ [])
  spec_step take ((e, p) ∷ l, b) = ((l, b), event e ∷ [])
  spec_step shut (l, b) = ((l, true), [])

  unfoldable pub spec_answers : List (Call E) → List (E × ℤ) × Bool → List (List (Answer E))
  unfolding spec_step
  spec_answers [] s = []
  spec_answers (c ∷ cs) s = let r = spec_step c s in r.1 ∷ spec_answers cs r.0

  -- The queue is a heap of the tasks `l`, which stand in the order of the specification.
  record Shows (q : TaskQueue E) (l : List (PrioritizedTask E)) : Type 0 where
    heap : IsHeapTo less (length q.items) q.items
    same : Perm q.items l
    ordered : Ordered l
    below : AllBelow (suc q.next_index) l

  enqueue-Shows :
      (e : E) (p : ℤ) (q : TaskQueue E) (l : List (PrioritizedTask E))
      → q.closed ≡ false
      → Shows q l
      → Shows
          (enqueue e p q)
          (insert_task (record { event = e; priority = p; index = suc q.next_index }) l)
  unfolding enqueue
  enqueue-Shows e p q l o v =
      let t : PrioritizedTask E = record { event = e; priority = p; index = suc q.next_index } in
      let b : AllBelow t.index l = v.below in
      rw o (record {
        heap = push-IsHeap less less-StrictWeak t q.items v.heap;
        same =
            Perm.trans (push-Perm less t q.items)
              (Perm.trans (Perm.cons t v.same) (Perm.symm (insert-Perm t l)));
        ordered = insert-Ordered t l b v.ordered;
        below = insert-AllBelow t l b;
      })

  module _ (events_IsSet : IsSet E) where
    pop_top-Shows :
        (q : TaskQueue E) (t : PrioritizedTask E) (l : List (PrioritizedTask E))
        → Shows q (t ∷ l)
        → ((pop_top q).1 ≡ event t.event) × Shows (pop_top q).0 l
    unfolding pop_top take_top
    pop_top-Shows q t l v =
        let some_left : 0 < length q.items = omega (arith, length-Perm v.same) in
        let popped = pop-Popped less less-StrictWeak q.items some_left v.heap in
        let x = popped.top in
        let among : Perm (x ∷ (Heap.pop less q.items).1) (t ∷ l) = Perm.trans popped.same v.same in
        let found : Mem x (t ∷ l) = (Perm.mem_iff among).0 (mem-cons_self) in
        let not_before : less t x ≡ false =
          popped.least t ((Perm.mem_iff v.same).1 (mem-cons_self)) in
        let not_behind =
          λ (m : Mem x l). true≢false (sym (less_of_mem t l v.ordered.0 x m) ∙ not_before) in
        let same_event : x.event ≡ t.event =
          Or.elim (events_IsSet _ _) (mem-cons.0 found) (ap λ u. u.event)
            (λ m. absurd (not_behind m)) in
        let rest : Perm (Heap.pop less q.items).1 l =
          Or.elim ∥∥₁_prop (mem-cons.0 found) (λ e. Perm.cons_inv (rw e at among))
            (λ m. absurd (not_behind m)) in
        (
          rw (popped.given) (ap event same_event),
          record {
            heap = popped.rest_IsHeap;
            same = rest;
            ordered = v.ordered.1;
            below = v.below.1;
          },
        )

    -- A step of the queue next to the step of the specification.
    abbrev Simulates : Call E → TaskQueue E → List (PrioritizedTask E) → Type 0
    Simulates c q l =
        (k : List (PrioritizedTask E)) × Shows (step c q).0 k
        × ((step c q).1 ≡ (spec_step c (map view l, q.closed)).1)
        × ((spec_step c (map view l, q.closed)).0 ≡ (map view k, (step c q).0.closed))

    step-Simulates :
        (c : Call E) (q : TaskQueue E) (l : List (PrioritizedTask E)) → Shows q l → Simulates c q l
    unfolding step spec_step enqueue dequeue_round pop_top close
    step-Simulates (put e p) q l v = elim (Bool-cases q.closed) [
      | inl over ↦
          let same : enqueue e p q ≡ q = if_true q.closed _ _ over in
          (
            l,
            subst (λ r. Shows r l) (sym same) v,
            ap (λ b. (spec_step (put e p) (map view l, b)).1) (sym over),
            ap (λ b. (spec_step (put e p) (map view l, b)).0) over
                ∙ ap (λ b. (map view l, b)) (sym over ∙ ap (λ r. r.closed) (sym same)),
          )
      | inr on ↦
          let t : PrioritizedTask E = record {
            event = e;
            priority = p;
            index = suc q.next_index;
          } in
          (
            insert_task t l,
            enqueue-Shows e p q l on v,
            ap (λ b. (spec_step (put e p) (map view l, b)).1) (sym on),
            ap (λ b. (spec_step (put e p) (map view l, b)).0) on
                ∙ ap (λ m. (m, false)) (sym (map-insert t l))
                ∙ ap (λ b. (map view (insert_task t l), b)) (sym (ground (arith, on))),
          )
    ]
    step-Simulates take q [] v =
        let none_left : ltb 0 (length q.items) ≡ false = ground (arith, length-Perm v.same) in
        elim (Bool-cases q.closed) [
          | inl over ↦
              let same : dequeue_round q ≡ (q, ended) =
                if_false _ _ _ none_left ∙ if_true q.closed _ _ over in
              (
                [],
                subst (λ r. Shows r.0 []) (sym same) v,
                ap (λ r. r.1 ∷ []) same ∙ ap (λ b. (spec_step take ([], b)).1) (sym over),
                ap (λ b. (spec_step take ([], b)).0) over
                    ∙ ap (λ b. ([], b)) (sym over ∙ ap (λ r. r.0.closed) (sym same)),
              )
          | inr on ↦
              let same : dequeue_round q ≡ (q, waits) =
                if_false _ _ _ none_left ∙ if_false q.closed _ _ on in
              (
                [],
                subst (λ r. Shows r.0 []) (sym same) v,
                ap (λ r. r.1 ∷ []) same ∙ ap (λ b. (spec_step take ([], b)).1) (sym on),
                ap (λ b. (spec_step take ([], b)).0) on
                    ∙ ap (λ b. ([], b)) (sym on ∙ ap (λ r. r.0.closed) (sym same)),
              )
        ]
    step-Simulates take q (t ∷ l) v =
        let some_left : ltb 0 (length q.items) ≡ true = ground (arith, length-Perm v.same) in
        let same : dequeue_round q ≡ pop_top q = if_true _ _ _ some_left in
        let (first, w) = pop_top-Shows q t l v in
        (
          l,
          subst (λ r. Shows r.0 l) (sym same) w,
          ap (λ r. r.1 ∷ []) same ∙ ap (λ a. a ∷ []) first,
          ap (λ r. (map view l, r.0.closed)) (sym same),
        )
    step-Simulates shut q l v = (
      l,
      record { heap = v.heap; same = v.same; ordered = v.ordered; below = v.below },
      refl,
      refl,
    )

    answers-Shows :
        (cs : List (Call E)) (q : TaskQueue E) (l : List (PrioritizedTask E))
        → Shows q l
        → answers cs q ≡ spec_answers cs (map view l, q.closed)
    unfolding answers spec_answers
    answers-Shows [] q l v = refl
    answers-Shows (c ∷ cs) q l v =
        let (k, w, here, next) = step-Simulates c q l v in
        let ih = answers-Shows cs (step c q).0 k w in
        ap (λ a. a ∷ answers cs (step c q).0) here
        ∙ ap (◌∷◌ (spec_step c (map view l, q.closed)).1) (ih ∙ ap (spec_answers cs) (sym next))

-- Whatever sequence of calls a new queue takes, it answers as the list does in which a task stands
-- behind all that have at least its priority: a higher priority goes first, equal ones go in the
-- order of their arrival, a closed queue takes no more tasks and hands out those it has.
pub answers-spec_answers :
    {E : Type 0} → IsSet E → (cs : List (Call E)) → answers cs new ≡ spec_answers cs ([], false)
unfolding new
answers-spec_answers events_IsSet cs =
    answers-Shows events_IsSet cs new []
      (record { heap = λ c p h. absurd (omega arith); same = Perm.rfl; ordered = tt; below = tt })
