-- ===== src/Scheduler/Dispatch/Pending/Kept.antt =====
-- infra/engine/scheduler/task_dispatcher.go, `tryDispatchPending`: no task of the queue gets lost,
-- and none is handed out beyond the limits.
use mathlib.Core.List.{Perm, append_assoc, perm_middle}
use mathlib.Core.List.Perm
use vibeflow.Prelude.{
  ℕ, zero, suc, ◌+◌, ◌*◌, ◌≡◌, refl, sym, subst, Bool, true, false, String, List, [], ◌∷◌, ◌++◌,
  some, ℤ, ltb, length, get_elem?, arith, if◌then◌else◌, Bool-cases, Option-cases, inl, inr,
  if_true, if_false,
}
use vibeflow.Heap
use vibeflow.Heap.Up.{push-Perm}
use vibeflow.Heap.Pop.{pop-Perm}
use vibeflow.Scheduler.Dispatch.{Config, PendingTask, Slots, pending_less, wf_active, reached}
use vibeflow.Scheduler.Dispatch.Pending.{
  second, pending_timeout, drop_top, evict_timed_out, mark_failed, Round, is_blocked, defer, hand,
  round, hand_out, put_back, try_dispatch_pending,
}

pub drop_top-Perm :
    (t : PendingTask) (h : List PendingTask) → get_elem? h 0 ≡ some t → Perm (t ∷ drop_top h) h
unfolding drop_top
drop_top-Perm t [] e = absurd (ground (arith, e))
drop_top-Perm t (u ∷ h) e =
    let (x, front, _, perm) = pop-Perm pending_less (u ∷ h) (omega arith) in
    let same : x ≡ t = ground (arith, front, e) in
    subst (λ w. Perm (w ∷ (Heap.pop pending_less (u ∷ h)).1) (u ∷ h)) same perm

evicted-Perm :
    (k timeout now : ℕ) (h : List PendingTask)
    → Perm ((evict_timed_out k timeout now h).1 ++ (evict_timed_out k timeout now h).0) h
unfolding evict_timed_out
evicted-Perm zero timeout now h = Perm.rfl
evicted-Perm (suc k) timeout now [] = Perm.rfl
evicted-Perm (suc k) timeout now (t ∷ h) = elim (Bool-cases (ltb (t.enqueued + timeout) now)) [
  | inl late ↦ rw late (
      Perm.trans (Perm.cons t (evicted-Perm k timeout now (drop_top (t ∷ h))))
        (drop_top-Perm t (t ∷ h) refl))
  | inr fresh ↦ rw fresh Perm.rfl
]

pub put_back-Perm : (ts h : List PendingTask) → Perm (put_back ts h) (ts ++ h)
unfolding put_back
put_back-Perm [] h = Perm.rfl
put_back-Perm (t ∷ ts) h =
    Perm.trans (put_back-Perm ts (Heap.push pending_less t h))
      (Perm.trans (Perm.append_left ts (push-Perm pending_less t h)) (perm_middle ts h))

-- The tasks that a round has.
abbrev pub held : Round → List PendingTask
held r = r.to_push ++ (r.deferred ++ r.slots.pending)

module _ (cfg : Config) where
  round-Perm :
      (t : PendingTask) (r : Round)
      → get_elem? r.slots.pending 0 ≡ some t
      → Perm (held (round cfg t r)) (held r)
  unfolding round
  round-Perm t r front =
      let d = drop_top r.slots.pending in
      let gone = drop_top-Perm t r.slots.pending front in
      let aside : Perm (r.to_push ++ ((r.deferred ++ t ∷ []) ++ d)) (held r) =
        rw (append_assoc r.deferred (t ∷ []) d)
          (Perm.append_left r.to_push (Perm.append_left r.deferred gone)) in
      let out : Perm ((r.to_push ++ t ∷ []) ++ (r.deferred ++ d)) (held r) =
        rw (append_assoc r.to_push (t ∷ []) (r.deferred ++ d)) (
          Perm.append_left r.to_push (
            Perm.trans (Perm.symm (perm_middle r.deferred d))
              (Perm.append_left r.deferred gone))) in
      elim (Bool-cases
        (reached cfg.per_workflow_max_concurrency (wf_active t.workflow_name r.slots))) [
          | inl full ↦
              subst (λ x. Perm (held x) (held r)) (sym (if_true _ _ _ full)) (defer-held aside)
          | inr room ↦
              subst (λ x. Perm (held x) (held r)) (sym (if_false _ _ _ room))
                (either (is_blocked t.workflow_name r.blocked) (defer-held aside) (hand-held out))
        ]
    where
      defer-held :
          Perm (r.to_push ++ ((r.deferred ++ t ∷ []) ++ drop_top r.slots.pending)) (held r)
          → Perm (held (defer t r)) (held r)
      defer-held p = p

      hand-held :
          Perm ((r.to_push ++ t ∷ []) ++ (r.deferred ++ drop_top r.slots.pending)) (held r)
          → Perm (held (hand t r)) (held r)
      hand-held p = p

      either :
          (b : Bool)
          → Perm (held (defer t r)) (held r)
          → Perm (held (hand t r)) (held r)
          → Perm (held (if b then defer t r else hand t r)) (held r)
      either true p q = p
      either false p q = q

  hand_out-Perm : (k : ℕ) (r : Round) → Perm (held (hand_out k cfg r)) (held r)
  unfolding hand_out
  hand_out-Perm zero r = Perm.rfl
  hand_out-Perm (suc k) r = elim (Option-cases (get_elem? r.slots.pending 0)) [
    | inl none_left ↦ rw (none_left, hand_out) Perm.rfl
    | inr (t, front) ↦ elim (Bool-cases (reached cfg.max_concurrent_tasks r.slots.global_active)) [
      | inl full ↦ rw (front, hand_out) (rw full Perm.rfl)
      | inr room ↦
          rw (front, hand_out)
            (rw room (Perm.trans (hand_out-Perm k (round cfg t r)) (round-Perm t r front)))
    ]
  ]

-- No waiting task gets lost: the tasks to push, those that waited too long and those left in the
-- queue are, together, the tasks that waited before.
pub try_dispatch_pending-Perm :
    (runs : String → Bool) (cfg : Config) (timeout : ℤ) (now : ℕ) (s : Slots)
    → Perm
        ((try_dispatch_pending runs cfg timeout now s).evicted
          ++ ((try_dispatch_pending runs cfg timeout now s).to_push
              ++ (try_dispatch_pending runs cfg timeout now s).slots.pending))
        s.pending
unfolding try_dispatch_pending
try_dispatch_pending-Perm runs cfg timeout now s =
    let n = length s.pending in
    let limit = pending_timeout timeout * second in
    let e = evict_timed_out n limit now s.pending in
    let start : Round = record {
      slots = record s { pending = e.0; per_wf_active = mark_failed runs e.1 s.per_wf_active };
      blocked = [];
      deferred = [];
      to_push = [];
    } in
    let r = hand_out (length e.0) cfg start in
    Perm.trans
      (Perm.append_left e.1 (
        Perm.trans (Perm.append_left r.to_push (put_back-Perm r.deferred r.slots.pending))
          (hand_out-Perm cfg (length e.0) start)))
      (evicted-Perm n limit now s.pending)
