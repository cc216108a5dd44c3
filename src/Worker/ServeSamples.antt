-- ===== src/Worker/ServeSamples.antt =====
-- The theorems on the worker's queue, its reports and its rounds at small inputs.
use native.Mathlib.Nat.{ℕ_set}
use mathlib.Core.Bool.{Bool-set}
use mathlib.Core.List.{not-mem-nil, forall_mem-cons}
use vibeflow.Prelude.{
  ℕ, ◌+◌, ◌≡◌, refl, true, false, List, [], ◌∷◌, none, some, pos, has, lookup, string_eq,
}
use vibeflow.Circuit.{Breaker, opened, closed}
use vibeflow.Store.{TaskPayload, TaskStatus}
use vibeflow.Worker.Queue.{TaskQueue, PrioritizedTask, new, enqueue, dequeue_round}
use vibeflow.Worker.Queue.Sorted.{
  Call, put, take, shut, answers, spec_answers, answers-spec_answers,
}
use vibeflow.Worker.Queue.Wake.{
  Phase, after, enqueues, asks, start, next, sleeps_on, Reach-sleeps_on,
}
use vibeflow.Worker.Registry.{Registry, Task, fine}
use vibeflow.Worker.Reporter.{Attempt}
use vibeflow.Worker.Executor.{Reports}
use vibeflow.Worker.Serve.{Event, event_put, accepts, Worker, serves}
use vibeflow.Worker.Serve.Repeats.{Loaded, IsPrompt, serves-repeats}

abbrev calls : List (Call ℕ)
calls =
    put 7 (pos 1)
    ∷ put 8 (pos 5)
    ∷ put 9 (pos 5)
    ∷ take
    ∷ shut
    ∷ put 6 (pos 9)
    ∷ take
    ∷ take
    ∷ take
    ∷ []

answers-spec_answers_example : answers calls new ≡ spec_answers calls ([], false)
answers-spec_answers_example = answers-spec_answers ℕ_set calls

abbrev asked : TaskQueue ℕ × Phase
asked = ((dequeue_round {E = ℕ} new).0, after (dequeue_round {E = ℕ} new).1)

abbrev filled : TaskQueue ℕ × Phase
filled = (enqueue 4 (pos 0) asked.0, asked.1)

Reach-sleeps_on_example : sleeps_on filled ≡ false
Reach-sleeps_on_example =
    Reach-sleeps_on filled (next (next start (asks new)) (enqueues 4 (pos 0) asked.0 asked.1))

abbrev open_breaker : Breaker
open_breaker = record {
  name = "etcd";
  max_failures = 5;
  cooldown_interval = 15;
  state = opened;
  consecutive_fails = 5;
  last_failure_time = 100;
  last_state_change = 100;
}

abbrev cancelled : ℕ → Attempt
cancelled i = record { cancelled = true; stored = false; cut_short = false }

abbrev prompt : ℕ → Attempt
prompt i = record { cancelled = false; stored = true; cut_short = false }

abbrev fetch : Task
fetch = record {
  name = "fetch";
  params = [];
  execute = λ params vars. (fine, vars);
  on_rollback = none;
}

abbrev registry : Registry
registry = ("fetch", fetch) ∷ []

abbrev payload : TaskPayload
payload = record {
  workflow_id = "u1";
  task_name = "fetch";
  status = TaskStatus.pending;
  priority = pos 0;
  params = [];
  input = [];
  output = [];
  result = "";
  retry_count = 0;
  max_retries = pos 2;
  timeout_sec = pos 30;
  base_backoff = 1;
  rollback = false;
  no_retry = false;
  etcd_mod_revision = 0;
  etcd_key = "";
}

abbrev given : PrioritizedTask Event
given = record {
  event = record { type = event_put; key = "k"; value = some payload };
  priority = pos 0;
  index = 1;
}

abbrev one_event : TaskQueue Event
one_event = record { items = given ∷ []; not_empty = true; closed = false; next_index = 1 }

abbrev worker : Worker
worker = record { queue = one_event; breaker = record open_breaker { state = closed }; runs = 0 }

abbrev stored : ℕ → Reports
stored i = record {
  running = prompt;
  final = prompt;
  running_at = 200 + i;
  final_at = 200 + i;
  running_serialized = true;
  final_serialized = true;
}

given_accepted : accepts registry given.event ≡ true
unfolding accepts has lookup
given_accepted = refl

worker-Loaded : Loaded registry 1 worker
worker-Loaded = record {
  holding = record {
    open_still = refl;
    size = refl;
    accepted =
        (forall_mem-cons λ w. Bool-set _ _).1 (given_accepted, λ t m. absurd (not-mem-nil m));
  };
  connected = refl;
}

stored-IsPrompt : (i : ℕ) → IsPrompt (stored i)
stored-IsPrompt i = (refl, refl, refl, refl, refl, refl)

serves-repeats_example :
    Loaded registry 4 (serves registry stored 3 worker)
    × ((serves registry stored 3 worker).runs ≡ 3)
serves-repeats_example = serves-repeats registry stored 3 0 worker stored-IsPrompt worker-Loaded
