-- ===== src/Worker/Lock/Report.antt =====
-- infra/engine/runtime/cas_lock.go: a worker alone at a task key, and the report of the outcome.
use vibeflow.Prelude.{ℕ, zero, suc, ◌<◌, ◌≡◌, refl, ap, ◌∙◌, true, false, String, nat_beq, arith}
use vibeflow.Store.{TaskPayload, TaskStatus}
use vibeflow.Worker.Lock.{
  task, KeyValue, Phase, reading, writing, acquired, after_read, after_write, acquire_step,
  acquire_steps, try_acquire, update_status,
}

module _ (kv : KeyValue) (key : String) where
  open kv use {State, get_with_revision, cas_put, cas_won, cas_lost}

  acquired_stays :
      (n : ℕ) (p : TaskPayload) (s : State)
      → acquire_steps kv key n (acquired p) s ≡ (s, acquired p)
  unfolding acquire_steps
  acquired_stays zero p s = refl
  acquired_stays (suc n) p s = acquired_stays n p s

  acquire_steps-suc :
      (n : ℕ) (ph next : Phase) (s t : State)
      → acquire_step kv key ph s ≡ (t, next)
      → acquire_steps kv key (suc n) ph s ≡ acquire_steps kv key n next t
  unfolding acquire_steps
  acquire_steps-suc n ph next s t e = ap (λ x. acquire_steps kv key n x.1 x.0) e

  first_step :
      (s : State) (p : TaskPayload) (r : ℕ)
      → get_with_revision key s ≡ (task p, r)
      → p.status ≡ TaskStatus.pending
      → acquire_step kv key (reading 3) s ≡ (s, writing 2 p r)
  unfolding acquire_step after_read
  first_step s p r there open_still = rw (there, open_still) refl

  second_step :
      (s : State) (p : TaskPayload) (r : ℕ)
      → (cas_put key (task (record p { status = TaskStatus.running })) r s).1 ≡ true
      → acquire_step kv key (writing 2 p r) s ≡ (
        (cas_put key (task (record p { status = TaskStatus.running })) r s).0,
        acquired (record p {
          status = TaskStatus.running;
          etcd_mod_revision = (cas_put key (task (record p { status = TaskStatus.running })) r s).2;
        }),
      )
  unfolding acquire_step after_write
  second_step s p r won = rw won refl

-- A worker that nobody interrupts takes a pending task at its first attempt: the key then holds the
-- task as running, and the worker has the task with the revision of that write, a later one.
pub try_acquire_alone :
    (kv : KeyValue) (key : String) (s : kv.State) (p : TaskPayload) (r : ℕ)
    → kv.get_with_revision key s ≡ (task p, r)
    → p.status ≡ TaskStatus.pending
    → (t : kv.State) × (q : ℕ) × (try_acquire kv key s
        ≡ (t, acquired (record p { status = TaskStatus.running; etcd_mod_revision = q })))
      × (kv.get_with_revision key t ≡ (task (record p { status = TaskStatus.running }), q))
      × (r < q)
unfolding try_acquire acquire_steps
try_acquire_alone kv key s p r there open_still =
    let v = task (record p { status = TaskStatus.running }) in
    let w = kv.cas_put key v r s in
    let won = kv.cas_won key v r s (ap (λ x. x.1) there) in
    let held = record p { status = TaskStatus.running; etcd_mod_revision = w.2 } in
    (
      w.0,
      w.2,
      acquire_steps-suc kv key 5 (reading 3) (writing 2 p r) s s
            (first_step kv key s p r there open_still)
          ∙ acquire_steps-suc kv key 4 (writing 2 p r) (acquired held) s w.0
              (second_step kv key s p r won.0)
          ∙ acquired_stays kv key 4 held w.0,
      won.1,
      won.2,
    )

-- A report at the revision of the worker's own write, which is not 0, is stored and counts as
-- delivered.
pub update_status-current :
    (kv : KeyValue) (key : String) (p : TaskPayload) (s : kv.State)
    → (kv.get_with_revision key s).1 ≡ p.etcd_mod_revision
    → 0 < p.etcd_mod_revision
    → ((update_status kv key p s).1 ≡ true)
      × ((kv.get_with_revision key (update_status kv key p s).0).0 ≡ task p)
unfolding update_status
update_status-current kv key p s current positive =
    let won = kv.cas_won key (task p) p.etcd_mod_revision s current in
    let some_read : nat_beq p.etcd_mod_revision 0 ≡ false = ground arith in
    rw (some_read, won.0) (refl, ap (λ x. x.0) won.1)
