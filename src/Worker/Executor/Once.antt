-- ===== src/Worker/Executor/Once.antt =====
-- infra/engine/runtime/executor.go: how often a task is run.
use vibeflow.Prelude.{ℕ, zero, suc, ◌≡◌, refl, sym, ap, ◌∙◌, false, String, arith, if_true}
use vibeflow.Store.{TaskPayload, TaskStatus}
use vibeflow.Worker.Lock.{
  task, KeyValue, refused, after_read, acquire_step, acquire_steps, try_acquire, update_status,
  is_pending,
}
use vibeflow.Worker.Lock.Report.{try_acquire_alone, update_status-current}
use vibeflow.Worker.Registry.{Registry}
use vibeflow.Worker.Executor.{
  RunError, no_error, run_error, executed, ended_as, finish_cas, execute_with_cas, Context, run,
  set_all, new_context,
}

ended_as-ended :
    (p : TaskPayload) (r : RunError × Context)
    → (is_pending (ended_as p r).status ≡ false)
      × ((ended_as p r).etcd_mod_revision ≡ p.etcd_mod_revision)
unfolding ended_as
ended_as-ended p (no_error, c) = (refl, refl)
ended_as-ended p (run_error m n, c) = (refl, refl)

executed-ended :
    (reg : Registry) (p : TaskPayload)
    → (is_pending (executed reg p).status ≡ false)
      × ((executed reg p).etcd_mod_revision ≡ p.etcd_mod_revision)
unfolding executed
executed-ended reg p = ended_as-ended p (run reg p (set_all p.input new_context))

module _ (kv : KeyValue) (key : String) where
  open kv use {State, get_with_revision}

  refused_stays : (n : ℕ) (s : State) → acquire_steps kv key n refused s ≡ (s, refused)
  unfolding acquire_steps acquire_step
  refused_stays zero s = refl
  refused_stays (suc n) s = refused_stays n s

  try_acquire-ended :
      (s : State) (p : TaskPayload) (r : ℕ)
      → get_with_revision key s ≡ (task p, r)
      → is_pending p.status ≡ false
      → try_acquire kv key s ≡ (s, refused)
  unfolding try_acquire acquire_steps acquire_step after_read
  try_acquire-ended s p r there over = rw (there, over) (refused_stays 5 s)

  execute_with_cas-ended :
      (reg : Registry) (overwrite : TaskPayload → State → State) (s : State) (p : TaskPayload)
      → (get_with_revision key s).0 ≡ task p
      → is_pending p.status ≡ false
      → execute_with_cas kv key reg overwrite s ≡ (s, 0)
  unfolding execute_with_cas finish_cas
  execute_with_cas-ended reg overwrite s p there over =
      let none_taken =
        try_acquire-ended s p (get_with_revision key s).1
          (ap (λ v. (v, (get_with_revision key s).1)) there) over in
      ap (λ a. finish_cas kv key reg overwrite a.1 a.0) none_taken

-- Under the conditional write, a worker that finds the task pending runs it once and leaves the
-- record of how it ended; another delivery of the task then neither runs it nor writes.
pub execute_with_cas-once :
    (kv : KeyValue) (key : String) (reg : Registry) (overwrite : TaskPayload → kv.State → kv.State)
    (s : kv.State) (p : TaskPayload) (r : ℕ)
    → kv.get_with_revision key s ≡ (task p, r)
    → p.status ≡ TaskStatus.pending
    → (t : kv.State) × (q : ℕ) × (execute_with_cas kv key reg overwrite s ≡ (t, 1))
      × ((kv.get_with_revision key t).0
          ≡ task (executed reg (record p { status = TaskStatus.running; etcd_mod_revision = q })))
      × (execute_with_cas kv key reg overwrite t ≡ (t, 0))
unfolding execute_with_cas finish_cas
execute_with_cas-once kv key reg overwrite s p r there open_still =
    let (u, q, taken, holds, later) = try_acquire_alone kv key s p r there open_still in
    let held = record p { status = TaskStatus.running; etcd_mod_revision = q } in
    let result = executed reg held in
    let (over, kept) = executed-ended reg held in
    let (stored, at) =
      update_status-current kv key result u (ap (λ x. x.1) holds ∙ sym kept)
        (omega (arith, kept)) in
    let t = (update_status kv key result u).0 in
    (
      t,
      q,
      ap (λ a. finish_cas kv key reg overwrite a.1 a.0) taken
          ∙ ap (λ x. (x, 1)) (if_true _ _ _ stored),
      at,
      execute_with_cas-ended kv key reg overwrite t result at over,
    )
