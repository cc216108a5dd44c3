-- ===== src/Scheduler/FleetSamples.antt =====
-- The theorems on the heartbeats of workers at small inputs.
use vibeflow.Prelude.{◌≡◌, refl, true, false, [], ◌∷◌, none, some, pos, string_eq}
use vibeflow.Circuit.{closed, allow}
use vibeflow.Worker.Registry.{Registry, Task, fine}
use vibeflow.Worker.Reporter.{Attempt}
use vibeflow.Worker.Heartbeat.{HeartbeatSender, Beat, beat_hash, report_heartbeat, start}
use vibeflow.Scheduler.Workers.{WorkerManager}
use vibeflow.Scheduler.Workers.Types.{hear_written, hear_all}
use vibeflow.Scheduler.Workers.Types.Announced.{SameHash, start-task_registry}

abbrev resize : Task
resize = record {
  name = "resize";
  params = [];
  execute = λ params vars. (fine, vars);
  on_rollback = none;
}

abbrev known_tasks : Registry
known_tasks = ("resize", resize) ∷ []

abbrev refused_write : Attempt
refused_write = record { cancelled = false; stored = false; cut_short = false }

abbrev written_at_once : Attempt
written_at_once = record { cancelled = false; stored = true; cut_short = false }

-- etcd is down at the first report, and up from then on.
abbrev lost_beat : Beat
lost_beat = record {
  hashed = known_tasks;
  listed = known_tasks;
  alive_at = 10;
  now = 10;
  serialized = true;
  tries = λ i. refused_write;
}

abbrev next_beat : Beat
next_beat = record lost_beat { alive_at = 20; now = 20; tries = λ i. written_at_once }

abbrev sender : HeartbeatSender
sender = record {
  breaker = record {
    name = "etcd";
    max_failures = 5;
    cooldown_interval = 30;
    state = closed;
    consecutive_fails = 0;
    last_failure_time = 0;
    last_state_change = 0;
  };
  last_full_hash = "";
}

abbrev new_master : WorkerManager
new_master = record {
  workers = [];
  task_registry = [];
  worker_type_hash = [];
  alive_count = pos 0;
  dead_count = pos 0;
}

closed_lets_through : (allow sender.breaker lost_beat.now).1 ≡ true
unfolding allow
closed_lets_through = refl

still_hashed :
    SameHash
      (λ ts. some "7f3a")
      (beat_hash (λ ts. some "7f3a") lost_beat)
      (next_beat ∷ next_beat ∷ [])
still_hashed = (refl, (refl, tt))

start-task_registry_example :
    (hear_all
      (λ p q. false)
      (start (λ ts. some "7f3a") "w1" 5 lost_beat (next_beat ∷ next_beat ∷ []) sender)
      new_master).task_registry
    ≡ (hear_written
        (λ p q. false)
        (report_heartbeat (λ ts. some "7f3a") "w1" 5 true lost_beat sender).1
        new_master).task_registry
start-task_registry_example =
    start-task_registry (λ p q. false) (λ ts. some "7f3a") "w1" 5 lost_beat
      (next_beat ∷ next_beat ∷ []) sender new_master closed_lets_through still_hashed
