-- ===== src/Scheduler/Workers/Counts.antt =====
-- infra/engine/scheduler/worker_manager.go: whether the counts are those of the workers.
use vibeflow.Prelude.{
  ℕ, zero, suc, ◌+◌, ◌≡◌, refl, sym, ap, ◌∙◌, String, [], ◌∷◌, Map, some, ℤ, pos, negsuc, ◌+ℤ◌,
  int_laws, lookup, insert, string_eq, length, arith,
}
use vibeflow.Store.{HeartbeatPayload}
use vibeflow.Scheduler.Workers.{
  alive, dead, WorkerState, WorkerManager, minus_one, leave_dead, put_heartbeat, mark_one, is_stale,
  mark_all, minus, mark_stale_workers, total_count,
}

length-insert_there :
    (k : String) (w v : WorkerState) (m : Map String WorkerState)
    → lookup k m ≡ some w
    → length (insert k v m) ≡ length m
unfolding lookup insert
length-insert_there k w v [] h = cc
length-insert_there k w v ((j, x) ∷ m) h = ground (arith, length-insert_there k w v m)

+ℤ_assoc : (a b c : ℤ) → a +ℤ (b +ℤ c) ≡ a +ℤ b +ℤ c
+ℤ_assoc a b c = grind int_laws

-- The heartbeat of a worker that was taken for dead brings it back among the same workers, and the
-- total count falls by one: the count of the dead falls, and that of the living does not rise.
pub revived-total :
    (hb : HeartbeatPayload) (w : WorkerState) (m : WorkerManager)
    → lookup hb.worker_id m.workers ≡ some w
    → w.status ≡ dead
    → (total_count (put_heartbeat hb m) ≡ minus_one (total_count m))
      × ((put_heartbeat hb m).alive_count ≡ m.alive_count)
      × (length (put_heartbeat hb m).workers ≡ length m.workers)
unfolding put_heartbeat total_count leave_dead
revived-total hb w m h d = (
  rw (h, put_heartbeat, d) (+ℤ_assoc m.alive_count m.dead_count (negsuc 0)),
  rw (h, put_heartbeat) refl,
  rw (h, put_heartbeat)
      (length-insert_there hb.worker_id w
        (record w { status = alive; alive_at = hb.alive_at; tasks = hb.tasks }) m.workers h),
)

abbrev pub alive_in : Map String WorkerState → ℕ
alive_in [] = 0
alive_in ((id, w) ∷ m) = elim w.status [ alive ↦ suc (alive_in m) | dead ↦ alive_in m ]

abbrev pub dead_in : Map String WorkerState → ℕ
dead_in [] = 0
dead_in ((id, w) ∷ m) = elim w.status [ alive ↦ dead_in m | dead ↦ suc (dead_in m) ]

-- The counts are those of the workers.
pub record Counted (m : WorkerManager) : Type 0 where
  pub living : m.alive_count ≡ pos (alive_in m.workers)
  pub gone : m.dead_count ≡ pos (dead_in m.workers)

marked-counts :
    (now threshold : ℕ) (m : Map String WorkerState)
    → (alive_in (mark_all now threshold m).0 + (mark_all now threshold m).1 ≡ alive_in m)
      × (dead_in (mark_all now threshold m).0 ≡ dead_in m + (mark_all now threshold m).1)
unfolding mark_all is_stale mark_one
marked-counts now threshold [] = (omega arith, omega arith)
marked-counts now threshold ((id, w) ∷ m) = ground (arith, marked-counts now threshold m)

minus_pos : (a n b : ℕ) → b + n ≡ a → minus (pos a) n ≡ pos b
unfolding ◌+ℤ◌
minus_pos a zero b h = ap pos (omega arith)
minus_pos a (suc n) b h = ground arith

plus_pos : (a b : ℕ) → pos a +ℤ pos b ≡ pos (a + b)
unfolding ◌+ℤ◌
plus_pos a b = ground arith

-- The check for stale workers keeps the counts those of the workers.
pub mark_stale_workers-Counted :
    (now threshold : ℕ) (m : WorkerManager)
    → Counted m
    → Counted (mark_stale_workers now threshold m)
unfolding mark_stale_workers
mark_stale_workers-Counted now threshold m c =
    let marked = mark_all now threshold m.workers in
    let counts = marked-counts now threshold m.workers in
    record {
      living =
          ap (λ n. minus n marked.1) c.living
          ∙ minus_pos (alive_in m.workers) marked.1 (alive_in marked.0) counts.0;
      gone =
          ap (λ n. n +ℤ pos marked.1) c.gone
          ∙ plus_pos (dead_in m.workers) marked.1
          ∙ ap pos (sym counts.1);
    }
