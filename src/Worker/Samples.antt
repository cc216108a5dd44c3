-- ===== src/Worker/Samples.antt =====
-- A store that keeps etcd's promise for conditional writes, and the theorems on the task lock at it.
use vibeflow.Prelude.{
  ℕ, suc, ◌<◌, ◌≡◌, ◌≢◌, refl, Bool, true, false, String, List, [], ◌∷◌, if◌then◌else◌, ◌==◌,
  string_eq, beq_refl, nat_beq, nat_beq_iff, arith, pos, Bool-cases, inl, inr,
}
use vibeflow.Store.{TaskPayload, TaskStatus}
use vibeflow.Worker.Lock.{Stored, task, KeyValue}
use vibeflow.Worker.Lock.Exclusion.{moves-exclusive}
use vibeflow.Worker.Lock.Invariant.{holds}
use vibeflow.Worker.Lock.Moves.{Move, access, report, moves, all_start}
use vibeflow.Worker.Executor.{executed, execute_with_cas}
use vibeflow.Worker.Executor.Once.{execute_with_cas-once}

abbrev Keys : Type 0
Keys = String → Stored × ℕ

abbrev write_key : String → Stored → ℕ → Keys → Keys
write_key k v r s = λ j. if j == k then (v, r) else s j

abbrev cas : String → Stored → ℕ → Keys → Keys × Bool × ℕ
cas k v r s =
    if nat_beq (s k).1 r then (write_key k v (suc r) s, true, suc r) else (s, false, (s k).1)

cas_wins :
    (k : String) (v : Stored) (r : ℕ) (s : Keys)
    → (s k).1 ≡ r
    → ((cas k v r s).1 ≡ true) × ((cas k v r s).0 k ≡ (v, (cas k v r s).2)) × (r < (cas k v r s).2)
cas_wins k v r s h =
    let same : nat_beq (s k).1 r ≡ true = (nat_beq_iff (s k).1 r).1 h in
    rw same (refl, rw (beq_refl k) refl, omega arith)

cas_loses :
    (k : String) (v : Stored) (r : ℕ) (s : Keys)
    → (s k).1 ≢ r
    → (q : ℕ) × (cas k v r s ≡ (s, false, q))
cas_loses k v r s h = elim (Bool-cases (nat_beq (s k).1 r)) [
  | inl same ↦ absurd (h ((nat_beq_iff (s k).1 r).0 same))
  | inr other ↦ ((s k).1, rw other refl)
]

abbrev memory : KeyValue
memory = record {
  State = Keys;
  get_with_revision = λ k s. s k;
  cas_put = cas;
  cas_won = cas_wins;
  cas_lost = cas_loses;
}

abbrev pending_task : TaskPayload
pending_task = record {
  workflow_id = "u1";
  task_name = "fetch";
  status = TaskStatus.pending;
  priority = pos 0;
  params = [];
  input = [];
  output = [];
  result = "";
  retry_count = 0;
  max_retries = pos 2;
  timeout_sec = pos 30;
  base_backoff = 1;
  rollback = false;
  no_retry = false;
  etcd_mod_revision = 0;
  etcd_key = "";
}

abbrev one_key : Keys
one_key = λ k. (task pending_task, 7)

abbrev contest : List Move
contest = access 1 ∷ access 2 ∷ access 2 ∷ access 1 ∷ report 2 true pending_task ∷ access 1 ∷ []

winner : holds ((moves memory "k" contest (one_key, all_start)).1 2) ≡ true
unfolding moves
winner = refl

moves-exclusive_example : ◌≡◌ {A = ℕ} 2 2
moves-exclusive_example = moves-exclusive memory "k" contest one_key 2 2 winner winner

abbrev overwrite : TaskPayload → Keys → Keys
overwrite p s = write_key "k" (task p) (suc (s "k").1) s

execute_with_cas-once_example :
    (t : Keys) × (q : ℕ) × (execute_with_cas memory "k" [] overwrite one_key ≡ (t, 1))
    × ((t "k").0
        ≡ task (
            executed []
              (record pending_task { status = TaskStatus.running; etcd_mod_revision = q })))
    × (execute_with_cas memory "k" [] overwrite t ≡ (t, 0))
execute_with_cas-once_example =
    execute_with_cas-once memory "k" [] overwrite one_key pending_task 7 refl refl
