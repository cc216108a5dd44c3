-- ===== src/Scheduler/Dispatch/Pending/Exhausted.antt =====
-- infra/engine/scheduler/task_dispatcher.go, `tryDispatchPending`: the limits hold, and they alone
-- keep a task waiting.
use mathlib.Core.Bool.{Bool-set}
use mathlib.Core.List.{Perm, Mem, not-mem-nil, forall_mem-cons, append-nil, perm_middle}
use mathlib.Core.List.Perm
use vibeflow.Prelude.{
  ℕ, zero, suc, ◌*◌, ◌≤◌, ◌≡◌, ◌⊎◌, refl, sym, ap, subst, Bool, true, false, String, List, [], ◌∷◌,
  ◌++◌, none, ℤ, pos, length, get_elem?, arith, Bool-cases, Option-cases, inl, inr, if_true,
  if_false, string_eq, ◌==◌, any,
}
use vibeflow.Heap.Swap.{length-Perm}
use vibeflow.Scheduler.Dispatch.{
  Config, PendingTask, Slots, wf_active, inc_wf, add_global, reached, passed,
}
use vibeflow.Scheduler.Dispatch.Pending.{
  second, pending_timeout, drop_top, evict_timed_out, mark_failed, Round, is_blocked, defer, hand,
  round, hand_out, put_back, try_dispatch_pending,
}
use vibeflow.Scheduler.Dispatch.Pending.Counters.{
  not_reached, still_reached, inc-within, mark_failed-within,
}
use vibeflow.Scheduler.Dispatch.Pending.Kept.{drop_top-Perm, put_back-Perm}

empty : (h : List PendingTask) → length h ≤ 0 → h ≡ []
empty [] l = refl
empty (t ∷ h) l = absurd (omega arith)

no_front : (h : List PendingTask) → get_elem? h 0 ≡ none → h ≡ []
no_front [] e = refl
no_front (t ∷ h) e = absurd (ground (arith, e))

never : (u : String) → is_blocked u [] ≡ true → ⊥
unfolding is_blocked any
never u b = ground (arith, b)

module _ (cfg : Config) where
  abbrev limit : ℤ
  limit = cfg.per_workflow_max_concurrency

  -- No count is above its limit.
  abbrev pub AllWithin : Slots → Type 0
  AllWithin s =
      (passed cfg.max_concurrent_tasks s.global_active ≡ false)
      × ((u : String) → passed cfg.per_workflow_max_concurrency (wf_active u s) ≡ false)

  -- The workflow of each task is at its limit.
  abbrev pub AllReached : Slots → List PendingTask → Type 0
  AllReached s ts =
      (t : PendingTask)
      → Mem t ts
      → reached cfg.per_workflow_max_concurrency (wf_active t.workflow_name s) ≡ true

  record Inv (r : Round) : Type 0 where
    limits : AllWithin r.slots
    stuck :
        (u : String) → is_blocked u r.blocked ≡ true → reached limit (wf_active u r.slots) ≡ true
    aside : AllReached r.slots r.deferred

  snoc-AllReached :
      (s : Slots) (t : PendingTask) (ts : List PendingTask)
      → reached limit (wf_active t.workflow_name s) ≡ true
      → AllReached s ts
      → AllReached s (ts ++ t ∷ [])
  snoc-AllReached s t ts h a u m =
      let swapped : Perm (ts ++ t ∷ []) (t ∷ ts) =
        rw (append-nil ts) at (perm_middle {a = t} ts []) in
      (forall_mem-cons λ w. Bool-set _ _).1 (h, a) u ((Perm.mem_iff swapped).0 m)

  defer-Inv :
      (t : PendingTask) (r : Round)
      → reached limit (wf_active t.workflow_name r.slots) ≡ true
      → Inv r
      → Inv (defer t r)
  unfolding defer
  defer-Inv t r h v = record {
    limits = v.limits;
    stuck = v.stuck;
    aside = snoc-AllReached r.slots t r.deferred h v.aside;
  }

  block-Inv :
      (t : PendingTask) (r : Round)
      → reached limit (wf_active t.workflow_name r.slots) ≡ true
      → Inv r
      → Inv (record r { blocked = t.workflow_name ∷ r.blocked })
  unfolding is_blocked any
  block-Inv t r h v = record {
    limits = v.limits;
    stuck = λ u b. elim (Bool-cases (t.workflow_name == u)) [
      | inl same ↦
          subst (λ w. reached limit (wf_active w r.slots) ≡ true)
            ((string_eq.beq_iff t.workflow_name u).0 same) h
      | inr other ↦ v.stuck u (ground (arith, other, b))
    ];
    aside = v.aside;
  }

  hand-Inv :
      (t : PendingTask) (r : Round)
      → reached cfg.max_concurrent_tasks r.slots.global_active ≡ false
      → reached limit (wf_active t.workflow_name r.slots) ≡ false
      → Inv r
      → Inv (hand t r)
  unfolding hand add_global
  hand-Inv t r g w v =
      let s = add_global (pos 1) (record (r.slots) { pending = drop_top r.slots.pending }) in
      record {
        limits = (
          not_reached cfg.max_concurrent_tasks r.slots.global_active g,
          λ u. inc-within limit t.workflow_name u s w (v.limits.1 u),
        );
        stuck = λ u b. still_reached limit t.workflow_name u s (v.stuck u b);
        aside = λ u m. still_reached limit t.workflow_name u.workflow_name s (v.aside u m);
      }

  round-Inv :
      (t : PendingTask) (r : Round)
      → reached cfg.max_concurrent_tasks r.slots.global_active ≡ false
      → Inv r
      → Inv (round cfg t r)
  unfolding round
  round-Inv t r g v = elim (Bool-cases (reached limit (wf_active t.workflow_name r.slots))) [
    | inl full ↦ subst Inv (sym (if_true _ _ _ full)) (
        defer-Inv t (record r { blocked = t.workflow_name ∷ r.blocked }) full
          (block-Inv t r full v))
    | inr room ↦
        subst Inv (sym (if_false _ _ _ room))
          (elim (Bool-cases (is_blocked t.workflow_name r.blocked)) [
            | inl known ↦
                subst Inv (sym (if_true _ _ _ known))
                  (defer-Inv t r (v.stuck t.workflow_name known) v)
            | inr unknown ↦ subst Inv (sym (if_false _ _ _ unknown)) (hand-Inv t r g room v)
          ])
  ]

  round-pending :
      (t : PendingTask) (r : Round) → (round cfg t r).slots.pending ≡ drop_top r.slots.pending
  unfolding round defer hand inc_wf add_global
  round-pending t r = ground arith

  -- The loop ends with an empty queue, or at the limit of all tasks.
  hand_out-ends :
      (k : ℕ) (r : Round)
      → Inv r
      → length r.slots.pending ≤ k
      → Inv (hand_out k cfg r)
        × ((reached cfg.max_concurrent_tasks (hand_out k cfg r).slots.global_active ≡ true)
            ⊎ ((hand_out k cfg r).slots.pending ≡ []))
  unfolding hand_out
  hand_out-ends zero r v h = (v, inr (empty r.slots.pending h))
  hand_out-ends (suc k) r v h = elim (Option-cases (get_elem? r.slots.pending 0)) [
    | inl none_left ↦ rw (none_left, hand_out) (v, inr (no_front r.slots.pending none_left))
    | inr (t, front) ↦ elim (Bool-cases (reached cfg.max_concurrent_tasks r.slots.global_active)) [
      | inl full ↦ rw (front, hand_out) (rw full (v, inl full))
      | inr room ↦
          let shorter = length-Perm (drop_top-Perm t r.slots.pending front) in
          rw (front, hand_out)
            (rw room (
              hand_out-ends k (round cfg t r) (round-Inv t r room v)
                (omega (arith, ap (λ x. length x) (round-pending t r), shorter))))
    ]
  ]

-- With no count above its limit before, none is above its limit after the queue was looked through
-- and its tasks took their slots, whichever workflows the evicted tasks bring to their end; and the limits alone keep a task in the queue: either the limit
-- of all tasks is reached, or each task that still waits belongs to a workflow at its limit.
pub try_dispatch_pending-Exhausted :
    (runs : String → Bool) (cfg : Config) (timeout : ℤ) (now : ℕ) (s : Slots)
    → AllWithin cfg s
    → AllWithin cfg (try_dispatch_pending runs cfg timeout now s).slots
      × ((reached cfg.max_concurrent_tasks
              (try_dispatch_pending runs cfg timeout now s).slots.global_active
            ≡ true)
          ⊎ AllReached cfg
              (try_dispatch_pending runs cfg timeout now s).slots
              (try_dispatch_pending runs cfg timeout now s).slots.pending)
unfolding try_dispatch_pending
try_dispatch_pending-Exhausted runs cfg timeout now s w =
    let e = evict_timed_out (length s.pending) (pending_timeout timeout * second) now s.pending in
    let start : Round = record {
      slots = record s { pending = e.0; per_wf_active = mark_failed runs e.1 s.per_wf_active };
      blocked = [];
      deferred = [];
      to_push = [];
    } in
    let r = hand_out (length e.0) cfg start in
    let fresh : Inv cfg start = record {
      limits = (
        w.0,
        λ u. mark_failed-within cfg.per_workflow_max_concurrency runs u e.1 s.per_wf_active (w.1 u),
      );
      stuck = λ u b. absurd (never u b);
      aside = λ t m. absurd (not-mem-nil m);
    } in
    let (v, ends) = hand_out-ends cfg (length e.0) start fresh (omega arith) in
    (
      v.limits,
      elim ends [
        | inl full ↦ inl full
        | inr none_left ↦ inr λ t m.
            let left : Perm (put_back r.deferred r.slots.pending) r.deferred =
              Perm.trans (put_back-Perm r.deferred r.slots.pending) (
                subst (λ h. Perm (r.deferred ++ h) r.deferred) (sym none_left)
                  (rw (append-nil r.deferred) Perm.rfl)) in
            v.aside t ((Perm.mem_iff left).0 m)
      ],
    )
