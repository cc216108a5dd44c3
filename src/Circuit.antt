-- ===== src/Circuit.antt =====
-- infra/circuit/circuit.go: the circuit breaker in front of MySQL and etcd.
-- Each method runs under the breaker's mutex, so it is one step of its state; `time.Now()` is an
-- argument, in nanoseconds. `maxFailures` and the durations are not negative.
pub mod Trace
mod Samples
use vibeflow.Prelude.{ℕ, suc, ◌+◌, Bool, true, false, leb, if◌then◌else◌, String}

pub data State : Type 0 where
  closed opened half_open : State

-- `State.String`. The default branch answers values that are no state.
pub string : State → String
string closed = "CLOSED"
string opened = "OPEN"
string half_open = "HALF_OPEN"

pub record Breaker : Type 0 where
  pub name : String
  pub max_failures : ℕ
  pub cooldown_interval : ℕ
  pub state : State
  pub consecutive_fails : ℕ
  pub last_failure_time : ℕ
  pub last_state_change : ℕ

pub new_breaker : String → ℕ → ℕ → ℕ → Breaker
new_breaker name max_failures cooldown now = record {
  name = name;
  max_failures = max_failures;
  cooldown_interval = cooldown;
  state = closed;
  consecutive_fails = 0;
  last_failure_time = 0;
  last_state_change = now;
}

move : Breaker → State → ℕ → Breaker
move b s now = record b { state = s; last_state_change = now }

-- `now.Sub(b.lastStateChange) >= b.cooldownInterval`.
abbrev cooled : Breaker → ℕ → Bool
cooled b now = leb (b.last_state_change + b.cooldown_interval) now

allow_in : State → Breaker → ℕ → Breaker × Bool
unfolding move
allow_in closed b now = (b, true)
allow_in opened b now = if cooled b now then (move b half_open now, true) else (b, false)
allow_in half_open b now = (b, false)

unfoldable pub allow : Breaker → ℕ → Breaker × Bool
unfolding allow_in
allow b now = allow_in b.state b now

success_in : State → Breaker → ℕ → Breaker
unfolding move
success_in closed b now = b
success_in _ b now = move b closed now

unfoldable pub success : Breaker → ℕ → Breaker
unfolding success_in
success b now = success_in b.state (record b { consecutive_fails = 0 }) now

failure_in : State → Breaker → ℕ → Breaker
unfolding move
failure_in half_open b now = move b opened now
failure_in closed b now = if leb b.max_failures b.consecutive_fails then move b opened now else b
failure_in opened b now = b

unfoldable pub failure : Breaker → ℕ → Breaker
unfolding failure_in
failure b now =
    failure_in b.state
      (record b { consecutive_fails = suc b.consecutive_fails; last_failure_time = now }) now

-- `Stats`.
pub stats : Breaker → State × ℕ × ℕ
stats b = (b.state, b.consecutive_fails, b.last_failure_time)
