-- ===== src/Circuit/Samples.antt =====
-- Small histories of a breaker, and the theorems of `Trace` at them.
use vibeflow.Prelude.{◌≡◌, refl, [], ◌∷◌, arith}
use vibeflow.Circuit.{closed, opened, half_open, Breaker, new_breaker}
use vibeflow.Circuit.Trace.{allows, failures, run, Inv, run-Inv}

abbrev fresh : Breaker
fresh = record {
  name = "mysql";
  max_failures = 3;
  cooldown_interval = 100;
  state = closed;
  consecutive_fails = 0;
  last_failure_time = 0;
  last_state_change = 0;
}

abbrev tripped : Breaker
tripped = record fresh { state = opened; consecutive_fails = 3; last_state_change = 50 }

abbrev probing : Breaker
probing = record tripped { state = half_open; last_state_change = 150 }

new_breaker-fresh : new_breaker "mysql" 3 100 0 ≡ fresh
unfolding new_breaker
new_breaker-fresh = refl

run-Inv_example : Inv (run fresh ((1, failures) ∷ (2, failures) ∷ (3, allows) ∷ []))
run-Inv_example =
    run-Inv fresh ((1, failures) ∷ (2, failures) ∷ (3, allows) ∷ []) (omega arith)
      (record { within = λ _. omega arith })
