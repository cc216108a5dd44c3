-- ===== src/Scheduler/Persist.antt =====
-- infra/engine/scheduler/repository.go: the writes to MySQL of the repository, behind their circuit
-- breaker. What MySQL answers to each attempt, and the times, are arguments; the waits between
-- attempts are left out. `step` has the interleaving of all goroutines that write.
pub mod Probe
pub mod Verdict
use vibeflow.Prelude.{
  ℕ, zero, suc, ◌+◌, ◌-◌, ◌*◌, Bool, true, false, not, ◌||◌, String, List, [], ◌∷◌, ◌++◌, Map,
  Option, none, some, length, ltb, nat_beq, lookup, string_eq, if◌then◌else◌,
}
use vibeflow.Circuit.{Breaker, allow, success, failure}
use vibeflow.Model.Workflow.{WorkflowState}
use vibeflow.Model.Delta.{TaskDelta}
use vibeflow.Scheduler.State.{System, Entry, lock_entry, put_entry}
use vibeflow.Scheduler.Snapshot.{snapshot_throttle, collect_task_deltas}

abbrev pub persist_worker_pool_size : ℕ
persist_worker_pool_size = 32

pub record PersistJob : Type 0 where
  pub uuid : String
  pub workflow_id : ℕ
  pub exec_id : ℕ
  pub status : String
  pub err_msg : String

-- What ends the wait of `submit` for room.
pub data PoolWait : Type 0 where
  worker_takes timer_ends context_ends : PoolWait

rest_of : List PersistJob → List PersistJob
rest_of [] = []
rest_of (j ∷ js) = js

submit_full : PoolWait → PersistJob → List PersistJob → List PersistJob × Bool
unfolding rest_of
submit_full worker_takes job jobs = (rest_of jobs ++ job ∷ [], true)
submit_full _ job jobs = (jobs, false)

-- `submit`: the channel then, and whether the job is in it.
unfoldable pub submit : PoolWait → PersistJob → List PersistJob → List PersistJob × Bool
unfolding submit_full
submit wait job jobs =
    if ltb (length jobs) (persist_worker_pool_size * 4)
    then (jobs ++ job ∷ [], true)
    else submit_full wait job jobs

abbrev pub max_retries : ℕ
max_retries = 3

-- The loop of at most `left` attempts, from number `i` on: whether one succeeded, and how many
-- there were.
unfoldable pub attempts : ℕ → ℕ → (ℕ → Bool) → Bool × ℕ
attempts zero i stored = (false, 0)
attempts (suc left) i stored =
    let rest = attempts left (suc i) stored in if stored i then (true, 1) else (rest.0, suc rest.1)

-- The answers of MySQL to the attempts of the two updates, and the times at which the breaker is told.
pub record MysqlRun : Type 0 where
  pub status_stored : ℕ → Bool
  pub exec_stored : ℕ → Bool
  pub asked_at : ℕ
  pub status_at : ℕ
  pub exec_at : ℕ

abbrev pub told : Bool → ℕ → Breaker → Breaker
told ok now b = if ok then success b now else failure b now

-- The two loops, for a breaker that let the write through.
unfoldable pub persist_writes : MysqlRun → Breaker → Breaker
unfolding attempts
persist_writes r b =
    let after_status =
      if (attempts max_retries 0 r.status_stored).0 then b else failure b r.status_at in
    told (attempts max_retries 0 r.exec_stored).0 r.exec_at after_status

-- `persistToMySQLInternal`: the breaker then, and whether MySQL was asked.
unfoldable pub persist_to_mysql_internal : MysqlRun → Breaker → Breaker × Bool
unfolding persist_writes
persist_to_mysql_internal r b =
    let asked = allow b r.asked_at in
    if asked.1 then (persist_writes r asked.0, true) else (asked.0, false)

-- `saveTaskRecord` up to its goroutine: the breaker, and whether a write is started.
unfoldable pub save_task_record : Bool → ℕ → ℕ → Breaker → Breaker × Bool
save_task_record has_store exec_id now b =
    if not has_store || nat_beq exec_id 0 then (b, false) else allow b now

abbrev pub snapshot_throttle_interval : ℕ
snapshot_throttle_interval = 5000000000

-- What a snapshot works on: the manager, the throttle, the breaker, and the number of the last one.
pub record Snapshotting : Type 0 where
  pub system : System
  pub last_time : Map String ℕ
  pub breaker : Breaker
  pub seq : ℕ

-- The snapshot of an entry whose execution has an id; `serialized` is the answer of the JSON library.
-- The deltas whose write is started, if any.
unfoldable pub snapshot_entry :
    Bool → String → Entry → Snapshotting → Snapshotting × Option (List TaskDelta)
unfolding collect_task_deltas
snapshot_entry serialized uuid e s =
    let c = collect_task_deltas e.state s.seq in
    let marked = record s {
      system = put_entry uuid (record e { state = c.0 }) s.system;
      seq = c.1;
    } in
    (marked, if serialized then some c.2 else none)

-- `snapshotRunningWorkflow` once the breaker has let it through.
unfoldable pub snapshot_allowed :
    Bool → String → Option Entry → Snapshotting → Snapshotting × Option (List TaskDelta)
unfolding snapshot_entry
snapshot_allowed serialized uuid none s = (s, none)
snapshot_allowed serialized uuid (some e) s =
    if nat_beq e.state.execution_id 0 || not s.system.wm.has_history_store
    then (s, none)
    else snapshot_entry serialized uuid e s

unfoldable pub snapshot_asked :
    Bool → ℕ → String → Snapshotting → Snapshotting × Option (List TaskDelta)
unfolding snapshot_allowed
snapshot_asked serialized now uuid s =
    let asked = allow s.breaker now in
    let t = record s { breaker = asked.0 } in
    if asked.1 then snapshot_allowed serialized uuid (lock_entry uuid s.system) t else (t, none)

-- Up to the goroutine that writes.
unfoldable pub snapshot_running_workflow :
    Bool → ℕ → String → Snapshotting → Snapshotting × Option (List TaskDelta)
unfolding snapshot_asked snapshot_throttle
snapshot_running_workflow serialized now uuid s =
    let throttle = snapshot_throttle uuid snapshot_throttle_interval now s.last_time in
    let t = record s { last_time = throttle.0 } in
    if throttle.1 then snapshot_asked serialized now uuid t else (t, none)

-- With the number of writes that are started and have not told the breaker their outcome.
pub record Writing : Type 0 where
  pub shared : Snapshotting
  pub under_way : ℕ

-- The steps of all goroutines: a worker of the pool asks the breaker for its write of a workflow's end, a
-- task record and a snapshot are asked for; a write tells its outcome and is over, or tells that the
-- first of its two updates failed and goes on; anything else changes the manager.
pub data Step : Type 0 where
  persists : ℕ → Step
  saves : Bool → ℕ → ℕ → Step
  snapshots : Bool → ℕ → String → Step
  ends_write : Bool → ℕ → Step
  fails_on : ℕ → Step
  changes : System → Step

abbrev pub one_more : Bool → ℕ → ℕ
one_more b n = if b then suc n else n

abbrev pub has_deltas : Option (List TaskDelta) → Bool
has_deltas none = false
has_deltas (some ds) = true

abbrev pub with_breaker : Breaker → Snapshotting → Snapshotting
with_breaker b s = record s { breaker = b }

unfoldable pub tell : Bool → ℕ → ℕ → ℕ → Snapshotting → Writing
tell ok now zero left s = record { shared = s; under_way = zero }
tell ok now (suc n) left s = record {
  shared = with_breaker (told ok now s.breaker) s;
  under_way = left;
}

-- A step, and whether it starts a write to MySQL: `persistToMySQLInternal`, `saveTaskRecord` and
-- `snapshotRunningWorkflow`, cut where other goroutines come between the question to the breaker and its answers.
unfoldable pub step : Step → Writing → Writing × Bool
unfolding save_task_record snapshot_running_workflow tell
step (persists now) w =
    let asked = allow w.shared.breaker now in
    (
      record { shared = with_breaker asked.0 w.shared; under_way = one_more asked.1 w.under_way },
      asked.1,
    )
step (saves has_store id now) w =
    let asked = save_task_record has_store id now w.shared.breaker in
    (
      record { shared = with_breaker asked.0 w.shared; under_way = one_more asked.1 w.under_way },
      asked.1,
    )
step (snapshots serialized now uuid) w =
    let r = snapshot_running_workflow serialized now uuid w.shared in
    let started = has_deltas r.1 in
    (record { shared = r.0; under_way = one_more started w.under_way }, started)
step (ends_write ok now) w = (tell ok now w.under_way (w.under_way - 1) w.shared, false)
step (fails_on now) w = (tell false now w.under_way w.under_way w.shared, false)
step (changes t) w = (record w { shared = record (w.shared) { system = t } }, false)
