-- ===== src/Worker/Reporter.antt =====
-- infra/engine/runtime/reporter.go: a status report to etcd, behind the circuit breaker. What etcd
-- and the worker's context do in each attempt is an argument; the waits between attempts only show
-- in whether they are cut short.
pub mod Stuck
use vibeflow.Prelude.{ℕ, zero, suc, ◌-◌, Bool, true, false, not, if◌then◌else◌}
use vibeflow.Circuit.{Breaker, allow, success, failure}

pub record Attempt : Type 0 where
  -- `ctx.Err() != nil` before the write
  pub cancelled : Bool
  pub stored : Bool
  -- the context ends while the reporter waits for the next attempt
  pub cut_short : Bool

abbrev pub report_max_retries : ℕ
report_max_retries = 3

-- With `left + 1` attempts left, of which the next is number `i`.
unfoldable pub report_from : ℕ → ℕ → (ℕ → Attempt) → ℕ → Breaker → Breaker × Bool
report_from zero i tries now b =
    if (tries i).cancelled
    then (b, false)
    else if (tries i).stored
    then (success b now, true)
    else (failure b now, false)
report_from (suc left) i tries now b =
    let rest = report_from left (suc i) tries now b in
    if (tries i).cancelled
    then (b, false)
    else if (tries i).stored
    then (success b now, true)
    else if (tries i).cut_short
    then (b, false)
    else rest

-- `Report`: whether the record was stored. `serialized` is the answer of the JSON library.
unfoldable pub report : Bool → (ℕ → Attempt) → ℕ → Breaker → Breaker × Bool
unfolding report_from
report serialized tries now b =
    let asked = allow b now in
    if not serialized
    then (b, false)
    else if asked.1
    then report_from (report_max_retries - 1) 0 tries now asked.0
    else (asked.0, false)
