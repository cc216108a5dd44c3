-- ===== src/Scheduler/Persist/Verdict.antt =====
-- infra/engine/scheduler/repository.go: what `persistToMySQLInternal` tells the breaker.
use vibeflow.Prelude.{ℕ, zero, suc, ◌≤◌, ◌≡◌, refl, Bool, true, false, arith, if◌then◌else◌}
use vibeflow.Circuit.{Breaker, allow, success, failure}
use vibeflow.Scheduler.Persist.{
  max_retries, attempts, MysqlRun, persist_writes, persist_to_mysql_internal,
}

-- Whether one of the first `n` attempts from number `i` on succeeds.
abbrev pub stored_within : ℕ → ℕ → (ℕ → Bool) → Bool
stored_within zero i stored = false
stored_within (suc n) i stored = if stored i then true else stored_within n (suc i) stored

attempts_lem :
    (n i : ℕ) (stored : ℕ → Bool)
    → ((attempts n i stored).0 ≡ stored_within n i stored) × ((attempts n i stored).1 ≤ n)
unfolding attempts
attempts_lem zero i stored = (refl, omega arith)
attempts_lem (suc n) i stored = ground (arith, attempts_lem n (suc i) stored)

-- The failures in a row after a write with these two outcomes.
abbrev pub fails_after : Bool → Bool → ℕ → ℕ
fails_after status_ok exec_ok n = if exec_ok then 0 else if status_ok then suc n else suc (suc n)

-- A write that the breaker lets through makes at most three attempts for each of its two updates. The
-- breaker counts no failures in a row after it if one of the three attempts for the execution
-- succeeds, whatever became of the status; else the update of the execution counts as one failure,
-- and that of the status, if its three attempts fail, as another.
pub persist_counts :
    (r : MysqlRun) (b : Breaker)
    → (allow b r.asked_at).1 ≡ true
    → ((persist_to_mysql_internal r b).0.consecutive_fails
        ≡ fails_after
            (stored_within 3 0 r.status_stored)
            (stored_within 3 0 r.exec_stored)
            b.consecutive_fails)
      × ((attempts max_retries 0 r.status_stored).1 ≤ 3)
      × ((attempts max_retries 0 r.exec_stored).1 ≤ 3)
unfolding persist_to_mysql_internal persist_writes allow success failure
persist_counts r b h =
    let (s, a) = attempts_lem 3 0 r.status_stored in
    let (e, c) = attempts_lem 3 0 r.exec_stored in (ground (arith, h, s, e), a, c)
