-- ===== src/Scheduler/Dispatch/Pending/Counters.antt =====
-- infra/engine/scheduler/task_dispatcher.go, `tryDispatchPending`: its counters against their limits.
use vibeflow.Prelude.{
  ◌≡◌, sym, ◌∙◌, subst, Bool, true, false, Map, lookup, delete, lookup-delete, String, List, [],
  ◌∷◌, ℤ, pos, ◌+ℤ◌, arith, if◌then◌else◌, Bool-cases, inl, inr, if_true, if_false, lookup-insert,
  +ℤ_parts, string_eq, ◌==◌,
}
use vibeflow.Scheduler.Dispatch.{PendingTask, Slots, or_zero, wf_active, inc_wf, reached, passed}
use vibeflow.Scheduler.Dispatch.Pending.{mark_failed}

pub wf_active-inc :
    (v u : String) (s : Slots)
    → wf_active u (inc_wf v s) ≡ (if v == u then wf_active v s +ℤ pos 1 else wf_active u s)
unfolding inc_wf
wf_active-inc v u s = ground (arith, lookup-insert v u (wf_active v s +ℤ pos 1) s.per_wf_active)

reached_more : (m n : ℤ) → reached m n ≡ true → reached m (n +ℤ pos 1) ≡ true
reached_more m n h = ground (arith, h, +ℤ_parts n (pos 1))

pub not_reached : (m n : ℤ) → reached m n ≡ false → passed m (n +ℤ pos 1) ≡ false
not_reached m n h = ground (arith, h, +ℤ_parts n (pos 1))

pub still_reached :
    (m : ℤ) (v u : String) (s : Slots)
    → reached m (wf_active u s) ≡ true
    → reached m (wf_active u (inc_wf v s)) ≡ true
still_reached m v u s h = elim (Bool-cases (v == u)) [
  | inl same ↦
      let e : v ≡ u = (string_eq.beq_iff v u).0 same in
      subst (λ n. reached m n ≡ true) (sym (wf_active-inc v u s ∙ if_true _ _ _ same))
        (reached_more m (wf_active v s) (subst (λ w. reached m (wf_active w s) ≡ true) (sym e) h))
  | inr other ↦ subst (λ n. reached m n ≡ true) (sym (wf_active-inc v u s ∙ if_false _ _ _ other)) h
]

pub inc-within :
    (m : ℤ) (v u : String) (s : Slots)
    → reached m (wf_active v s) ≡ false
    → passed m (wf_active u s) ≡ false
    → passed m (wf_active u (inc_wf v s)) ≡ false
inc-within m v u s h g = elim (Bool-cases (v == u)) [
  | inl same ↦
      subst (λ n. passed m n ≡ false) (sym (wf_active-inc v u s ∙ if_true _ _ _ same))
        (not_reached m (wf_active v s) h)
  | inr other ↦ subst (λ n. passed m n ≡ false) (sym (wf_active-inc v u s ∙ if_false _ _ _ other)) g
]

reset-within :
    (limit : ℤ) (b : Bool) (v u : String) (m : Map String ℤ)
    → passed limit (or_zero (lookup u m)) ≡ false
    → passed limit (or_zero (lookup u (if b then delete v m else m))) ≡ false
reset-within limit b v u m h = ground (arith, h, lookup-delete v u m)

pub mark_failed-within :
    (limit : ℤ) (runs : String → Bool) (u : String) (ts : List PendingTask) (m : Map String ℤ)
    → passed limit (or_zero (lookup u m)) ≡ false
    → passed limit (or_zero (lookup u (mark_failed runs ts m))) ≡ false
unfolding mark_failed
mark_failed-within limit runs u [] m h = h
mark_failed-within limit runs u (t ∷ ts) m h =
    mark_failed-within limit runs u ts
      (if runs t.workflow_name then delete t.workflow_name m else m)
      (reset-within limit (runs t.workflow_name) t.workflow_name u m h)
