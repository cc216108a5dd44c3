-- ===== src/Scheduler/Dispatch/Limits.antt =====
-- infra/engine/scheduler/task_dispatcher.go: the limits on what runs at a time, and what a task is
-- given.
use vibeflow.Prelude.{
  ℕ, ◌≡◌, refl, sym, ap, ◌∙◌, Bool, true, false, ◌||◌, String, List, Option, none, some, ℤ, pos,
  negsuc, ◌+ℤ◌, ◌≤ℤ◌, ltb_ℤ, lookup, insert, delete, lookup-insert, lookup-delete, beq_refl,
  string_eq, arith, Bool-cases, inl, inr, subst,
}
use vibeflow.Model.Value.{Output}
use vibeflow.Model.Workflow.{Workflow, TaskNode}
use vibeflow.Store.{TaskPayload}
use vibeflow.Scheduler.Dispatch.{
  Config, PendingTask, Slots, or_zero, wf_active, inc_wf, dec_wf, add_global, reached, passed,
  PushResult, pushed, queued, no_workflow, not_stored, do_push, priority_of, after_push, take_slots,
  push_task, is_zero,
}

not_passed :
    (limit count : ℤ) → ltb_ℤ (pos 0) limit ≡ true → passed limit count ≡ false → count ≤ℤ limit
not_passed limit count g h = ground arith

is_pushed : PushResult → Bool
is_pushed (pushed p) = true
is_pushed _ = false

after_push-pushed :
    (cfg : Config) (uuid : String) (r : PushResult) (s : Slots)
    → is_pushed (after_push cfg uuid r s).1 ≡ true
    → (after_push cfg uuid r s).0 ≡ s
unfolding after_push is_pushed
after_push-pushed cfg uuid (pushed p) s h = refl
after_push-pushed cfg uuid queued s h = refl
after_push-pushed cfg uuid no_workflow s h = absurd (ground arith)
after_push-pushed cfg uuid not_stored s h = absurd (ground arith)

-- Both counters are within their limits.
abbrev pub Within : Config → String → Slots → Type 0
Within cfg uuid s =
    (s.global_active ≤ℤ cfg.max_concurrent_tasks)
    × (wf_active uuid s ≤ℤ cfg.per_workflow_max_concurrency)

take_slots-Within :
    (cfg : Config) (t : PendingTask) (r : PushResult) (s : Slots)
    → ltb_ℤ (pos 0) cfg.max_concurrent_tasks ≡ true
    → ltb_ℤ (pos 0) cfg.per_workflow_max_concurrency ≡ true
    → is_pushed (take_slots cfg t r s).1 ≡ true
    → Within cfg t.workflow_name (take_slots cfg t r s).0
unfolding take_slots is_pushed add_global
take_slots-Within cfg t r s g w h =
    let one = inc_wf t.workflow_name s in
    let both = add_global (pos 1) one in
    elim (Bool-cases (passed cfg.per_workflow_max_concurrency (wf_active t.workflow_name one))) [
      | inl over ↦ absurd (ground (arith, over, h))
      | inr room ↦ elim (Bool-cases (passed cfg.max_concurrent_tasks both.global_active)) [
        | inl over ↦ absurd (ground (arith, room, over, h))
        | inr free ↦
            let through : is_pushed (after_push cfg t.workflow_name r both).1 ≡ true =
              ground (arith, room, free, h) in
            rw (room, free)
              (subst (Within cfg t.workflow_name)
                (sym (after_push-pushed cfg t.workflow_name r both through))
                (
                  not_passed cfg.max_concurrent_tasks both.global_active g free,
                  not_passed cfg.per_workflow_max_concurrency (wf_active t.workflow_name one) w
                      room,
                ))
      ]
    ]

-- With a limit on the tasks of all workflows and one on those of each, a task that is pushed leaves
-- both counters within their limits.
pub push_task-Within :
    (cfg : Config) (stores : Bool) (wf : Option Workflow) (uuid : String) (n : TaskNode)
    (upstream : List Output) (now : ℕ) (s : Slots) (p : TaskPayload)
    → ltb_ℤ (pos 0) cfg.max_concurrent_tasks ≡ true
    → ltb_ℤ (pos 0) cfg.per_workflow_max_concurrency ≡ true
    → (push_task cfg stores wf uuid n upstream now s).1 ≡ pushed p
    → Within cfg uuid (push_task cfg stores wf uuid n upstream now s).0
unfolding push_task is_pushed
push_task-Within cfg stores wf uuid n upstream now s p g w h =
    let t : PendingTask = record {
      workflow_name = uuid;
      node = n;
      upstream_outputs = upstream;
      priority = priority_of wf;
      enqueued = now;
    } in
    let r = do_push cfg stores wf uuid n upstream in
    let e : is_pushed (push_task cfg stores wf uuid n upstream now s).1 ≡ true = ap is_pushed h in
    let full =
      reached cfg.per_workflow_max_concurrency (wf_active uuid s)
      || reached cfg.max_concurrent_tasks s.global_active in
    elim (Bool-cases full) [
      | inl over ↦ absurd (ground (arith, g, over, h))
      | inr room ↦
          let through : is_pushed (take_slots cfg t r s).1 ≡ true = ground (arith, g, room, e) in
          let step : push_task cfg stores wf uuid n upstream now s ≡ take_slots cfg t r s =
            rw room (rw g refl) in
          subst (λ x. Within cfg uuid x.0) (sym step) (take_slots-Within cfg t r s g w through)
    ]

wf_active-dec :
    (uuid : String) (s : Slots) → wf_active uuid (dec_wf uuid s) ≡ wf_active uuid s +ℤ negsuc 0
unfolding dec_wf
wf_active-dec uuid s =
    let left = wf_active uuid s +ℤ negsuc 0 in
    let gone : lookup uuid (delete uuid s.per_wf_active) ≡ none =
      lookup-delete uuid uuid s.per_wf_active ∙ simp beq_refl in
    let there : lookup uuid (insert uuid left s.per_wf_active) ≡ some left =
      lookup-insert uuid uuid left s.per_wf_active ∙ simp beq_refl in
    elim (Bool-cases (is_zero left)) [
      | inl none_left ↦ rw none_left (ap or_zero gone ∙ zero_is left none_left)
      | inr some_left ↦ rw some_left (ap or_zero there)
    ]
  where
    zero_is : (n : ℤ) → is_zero n ≡ true → pos 0 ≡ n
    zero_is n h = ground arith

-- Without limits a push for a workflow that is not running fails, and takes one from the workflow's
-- counter, although it counted nothing.
pub push_task-uncounted :
    (cfg : Config) (stores : Bool) (uuid : String) (n : TaskNode) (upstream : List Output) (now : ℕ)
    (s : Slots)
    → ltb_ℤ (pos 0) cfg.max_concurrent_tasks ≡ false
    → ltb_ℤ (pos 0) cfg.per_workflow_max_concurrency ≡ false
    → ((push_task cfg stores none uuid n upstream now s).1 ≡ no_workflow)
      × (wf_active uuid (push_task cfg stores none uuid n upstream now s).0
          ≡ wf_active uuid s +ℤ negsuc 0)
unfolding push_task do_push after_push
push_task-uncounted cfg stores uuid n upstream now s g w =
    let step : push_task cfg stores none uuid n upstream now s ≡ (dec_wf uuid s, no_workflow) =
      rw (g, w) refl in
    (ap (λ x. x.1) step, ap (λ x. wf_active uuid x.0) step ∙ wf_active-dec uuid s)
