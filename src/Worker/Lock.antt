-- ===== src/Worker/Lock.antt =====
-- infra/engine/runtime/cas_lock.go: workers compete for a task by compare-and-swap on its etcd key.
-- A worker moves by one access of the key at a time, so that the accesses of several workers
-- interleave freely. A failed access, where the worker gives up, is a move of its own.
pub mod Moves
pub mod Invariant
pub mod Exclusion
pub mod Report
use vibeflow.Prelude.{
  ℕ, zero, suc, ◌<◌, ◌≡◌, ◌≢◌, Bool, true, false, String, List, [], ◌∷◌, if◌then◌else◌, nat_beq,
}
use vibeflow.Store.{TaskPayload, TaskStatus}

-- What a key holds: nothing, a text that is no task, or a task.
pub data Stored : Type 0 where
  absent garbled : Stored
  task : TaskPayload → Stored

-- The store as etcd documents it: a value with its modification revision, and a write on condition
-- that the revision is still the given one. A write raises the revision; a refused one only answers
-- a revision.
pub record KeyValue : Type 1 where
  pub State : Type 0
  pub get_with_revision : String → State → Stored × ℕ
  pub cas_put : String → Stored → ℕ → State → State × Bool × ℕ
  pub cas_won :
      (k : String) (v : Stored) (r : ℕ) (s : State)
      → (get_with_revision k s).1 ≡ r
      → ((cas_put k v r s).1 ≡ true)
        × (get_with_revision k (cas_put k v r s).0 ≡ (v, (cas_put k v r s).2))
        × (r < (cas_put k v r s).2)
  pub cas_lost :
      (k : String) (v : Stored) (r : ℕ) (s : State)
      → (get_with_revision k s).1 ≢ r
      → (q : ℕ) × (cas_put k v r s ≡ (s, false, q))

abbrev pub is_pending : TaskStatus → Bool
is_pending TaskStatus.pending = true
is_pending _ = false

-- Where a worker stands in `tryAcquire`: before a read with that many attempts left, between the
-- read and the write, or at the end.
pub data Phase : Type 0 where
  reading : ℕ → Phase
  writing : ℕ → TaskPayload → ℕ → Phase
  acquired : TaskPayload → Phase
  refused : Phase

abbrev pub max_retries : ℕ
max_retries = 3

unfoldable pub after_read : ℕ → Stored → ℕ → Phase
after_read left absent r = refused
after_read left garbled r = refused
after_read left (task p) r = if is_pending p.status then writing left p r else refused

-- After a conflict: another attempt if one is left.
unfoldable pub after_conflict : ℕ → Phase
after_conflict zero = refused
after_conflict (suc left) = reading (suc left)

unfoldable pub after_write : Bool → ℕ → ℕ → TaskPayload → Phase
unfolding after_conflict
after_write true left r p =
    acquired (record p { status = TaskStatus.running; etcd_mod_revision = r })
after_write false left r p = after_conflict left

module _ (kv : KeyValue) (key : String) where
  open kv use {State, get_with_revision, cas_put}

  -- One access of the key by a worker in `tryAcquire`.
  unfoldable pub acquire_step : Phase → State → State × Phase
  unfolding after_read after_write
  acquire_step (reading zero) s = (s, refused)
  acquire_step (reading (suc left)) s =
      let v = get_with_revision key s in (s, after_read left v.0 v.1)
  acquire_step (writing left p r) s =
      let w = cas_put key (task (record p { status = TaskStatus.running })) r s in
      (w.0, after_write w.1 left w.2 p)
  acquire_step (acquired p) s = (s, acquired p)
  acquire_step refused s = (s, refused)

  unfoldable pub acquire_steps : ℕ → Phase → State → State × Phase
  unfolding acquire_step
  acquire_steps zero ph s = (s, ph)
  acquire_steps (suc n) ph s = let next = acquire_step ph s in acquire_steps n next.1 next.0

  -- `tryAcquire` of a worker that nobody interrupts: a read and a write for each attempt.
  unfoldable pub try_acquire : State → State × Phase
  unfolding acquire_steps
  try_acquire s = acquire_steps 6 (reading max_retries) s

  is_final : TaskStatus → Bool
  is_final TaskStatus.completed = true
  is_final TaskStatus.failed = true
  is_final _ = false

  final_task : Stored → Bool
  unfolding is_final
  final_task absent = false
  final_task garbled = false
  final_task (task p) = is_final p.status

  -- `updateStatus`: whether the report counts as delivered.
  unfoldable pub update_status : TaskPayload → State → State × Bool
  unfolding final_task
  update_status p s =
      let w = cas_put key (task p) p.etcd_mod_revision s in
      if nat_beq p.etcd_mod_revision 0
      then (s, false)
      else if w.1
      then (w.0, true)
      else (w.0, final_task (get_with_revision key w.0).0)
