-- ===== src/Scheduler/StoreSamples.antt =====
-- The theorems on the writes to MySQL at small inputs.
use vibeflow.Prelude.{ℕ, ◌≡◌, refl, true, [], ◌∷◌, none, some, lookup, string_eq, arith, List}
use vibeflow.Circuit.{Breaker, State, opened}
use vibeflow.Scheduler.State.{lock_entry}
use vibeflow.Scheduler.Samples.{system, entry, entry_there}
use vibeflow.Scheduler.Lifecycle.{cancel_workflow}
use vibeflow.Scheduler.Init.{async_init_mysql}
use vibeflow.Scheduler.Init.Orphan.{state_after, cancelled_system, cancelled_init-orphan}
use vibeflow.Scheduler.Persist.{Snapshotting, Step, persists, saves, snapshots, ends_write}
use vibeflow.Scheduler.Persist.Probe.{started, AllRefused, gone, lost_probe-AllRefused}

abbrev breaker_in : State → ℕ → Breaker
breaker_in s fails = record {
  name = "mysql-persist";
  max_failures = 5;
  cooldown_interval = 30;
  state = s;
  consecutive_fails = fails;
  last_failure_time = 100;
  last_state_change = 100;
}

abbrev before_probe : Snapshotting
before_probe = record { system = system; last_time = []; breaker = breaker_in opened 5; seq = 0 }

u4_gone : lock_entry "u4" system ≡ none
unfolding lookup
u4_gone = refl

no_snapshot_yet : lookup "u4" before_probe.last_time ≡ none
unfolding lookup
no_snapshot_yet = refl

abbrev steps_after : List Step
steps_after = persists 150 ∷ saves true 9 900 ∷ ends_write true 901 ∷ snapshots true 990 "u1" ∷ []

lost_probe-AllRefused_example : AllRefused (
    started
      (snapshots true 140 "u4" ∷ steps_after)
      (record { shared = before_probe; under_way = 0 }))
lost_probe-AllRefused_example =
    lost_probe-AllRefused true 140 "u4" before_probe refl (omega arith) no_snapshot_yet
      (gone u4_gone) steps_after

cancelled_init-orphan_example :
    (async_init_mysql "u1"
        (record { saved = some 7; serialized = true; created = some 12 })
        (λ t. state_after (cancel_workflow "u1" t))
        system
      ≡ (cancelled_system "u1" 7 entry system, some 12))
    × (lock_entry "u1" (cancelled_system "u1" 7 entry system) ≡ none)
cancelled_init-orphan_example = cancelled_init-orphan "u1" 7 12 entry system entry_there tt
