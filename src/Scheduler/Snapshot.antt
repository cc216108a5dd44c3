-- ===== src/Scheduler/Snapshot.antt =====
-- infra/engine/scheduler/repository.go and scheduler.go: the incremental snapshots of a running
-- workflow, and its recovery from them when the master starts. What MySQL and etcd answer, and how
-- the JSON in them reads, is given. Times of the recovery are in seconds.
pub mod Collected
pub mod Resumed
use vibeflow.Prelude.{
  ℕ, zero, suc, ◌+◌, ◌-◌, ◌%◌, Bool, true, false, not, ◌&&◌, ◌||◌, String, List, [], ◌∷◌, ◌++◌, Map,
  Option, none, some, ℤ, pos, pos_part, lookup, insert, delete, has, string_eq, nat_beq, ltb, ltb_ℤ,
  length, if◌then◌else◌, ◌==◌,
}
use vibeflow.Model.Value.{Output}
use vibeflow.Model.Workflow.{Workflow, WorkflowState, WorkflowStatus, TaskNode, TaskGroup, name_of}
use vibeflow.Model.Index.{build_task_group_index, build_branch_task_index}
use vibeflow.Model.Delta.{TaskDelta, Action, apply_deltas}
use vibeflow.Scheduler.State.{
  System, Entry, emit, put_entry, lock_entry, watch_status, start_timeout, execute_workflow,
}

-- `snapshotThrottle`, in nanoseconds: whether a snapshot may be taken now.
unfoldable pub snapshot_throttle : String → ℕ → ℕ → Map String ℕ → Map String ℕ × Bool
snapshot_throttle uuid interval now last = elim (lookup uuid last) [
  | none ↦ (insert uuid now last, true)
  | some t ↦ if ltb now (t + interval) then (last, false) else (insert uuid now last, true)
]

-- `cleanSnapshotThrottle`.
unfoldable pub clean_snapshot_throttle : String → Map String ℕ → Map String ℕ
clean_snapshot_throttle uuid last = delete uuid last

-- `state.Snapshotted[name] != 0`.
unfoldable pub is_marked : String → Map String ℕ → Bool
is_marked name marks = elim (lookup name marks) [ none ↦ false | some n ↦ not (nat_beq n 0) ]

unfoldable pub completed_deltas : Map String ℕ → Map String Output → List TaskDelta
completed_deltas marks [] = []
completed_deltas marks ((t, output) ∷ m) =
    let d : TaskDelta = record {
      task_name = t;
      action = Action.completed;
      output = output;
      result = "";
    } in
    let rest = completed_deltas marks m in if is_marked t marks then rest else d ∷ rest

unfoldable pub failed_deltas : Map String ℕ → Map String String → List TaskDelta
failed_deltas marks [] = []
failed_deltas marks ((t, result) ∷ m) =
    let d : TaskDelta = record {
      task_name = t;
      action = Action.failed;
      output = [];
      result = result;
    } in
    let rest = failed_deltas marks m in if is_marked t marks then rest else d ∷ rest

unfoldable pub rolled_back_deltas : Map String ℕ → Map String Bool → List TaskDelta
rolled_back_deltas marks [] = []
rolled_back_deltas marks ((t, b) ∷ m) =
    let d : TaskDelta = record {
      task_name = t;
      action = Action.rolled_back;
      output = [];
      result = "";
    } in
    let rest = rolled_back_deltas marks m in if is_marked t marks then rest else d ∷ rest

unfoldable pub task_deltas : WorkflowState → List TaskDelta
unfolding completed_deltas failed_deltas rolled_back_deltas
task_deltas s =
    completed_deltas s.snapshotted s.completed_tasks
    ++ (failed_deltas s.snapshotted s.failed_tasks
        ++ rolled_back_deltas s.snapshotted s.rolled_back)

mark_snapshotted : ℕ → List TaskDelta → Map String ℕ → Map String ℕ
mark_snapshotted seq [] marks = marks
mark_snapshotted seq (d ∷ ds) marks = mark_snapshotted seq ds (insert d.task_name seq marks)

-- The marks of tasks that the state has no more.
drop_stale : WorkflowState → Map String ℕ → Map String ℕ
drop_stale s [] = []
drop_stale s ((t, n) ∷ marks) =
    let rest = drop_stale s marks in
    if has t s.completed_tasks || (has t s.failed_tasks || has t s.rolled_back)
    then (t, n) ∷ rest
    else rest

-- `collectTaskDeltasLocked`, from the number of the last snapshot: the state, its number and the
-- deltas. Every tenth snapshot that has deltas clears the marks.
unfoldable pub collect_task_deltas : WorkflowState → ℕ → WorkflowState × ℕ × List TaskDelta
unfolding task_deltas mark_snapshotted drop_stale
collect_task_deltas s seq =
    let ds = task_deltas s in
    let marks = mark_snapshotted (suc seq) ds s.snapshotted in
    let kept =
      if ltb 0 (length ds) && nat_beq (suc seq % 10) 0 then drop_stale s marks else marks in
    (record s { snapshotted = kept }, suc seq, ds)

-- The outputs of a group, if all its tasks are completed.
unfoldable pub group_outputs : Map String Output → List TaskNode → Option (List Output)
group_outputs done [] = some []
group_outputs done (n ∷ ns) = elim (lookup (name_of n) done) [
  | none ↦ none
  | some o ↦ elim (group_outputs done ns) [ none ↦ none | some os ↦ some (o ∷ os) ]
]

-- Where a recovered workflow goes on: the group, and the outputs of those before. A pending task of
-- the group in etcd only changes what is logged.
unfoldable pub resume_point : Map String Output → List TaskGroup → ℕ × List Output
unfolding group_outputs
resume_point done [] = (0, [])
resume_point done (g ∷ gs) =
    let rest = resume_point done gs in
    elim (group_outputs done g) [ none ↦ (0, []) | some os ↦ (suc rest.0, os ++ rest.1) ]

abbrev uuid_of : WorkflowState → String
uuid_of s = if s.workflow_uuid == "" then s.workflow.uuid else s.workflow_uuid

-- The state that a recovered workflow runs with. A table without entries is built anew, as the
-- missing one of an old record is.
unfoldable pub recovered_state : WorkflowState → WorkflowState
recovered_state s = record s {
  status = WorkflowStatus.running;
  task_group_index = elim s.task_group_index [
    | none ↦ some (build_task_group_index s.workflow.task_groups)
    | some m ↦ some m
  ];
  branch_task_index = elim s.branch_task_index [
    | [] ↦ build_branch_task_index s.workflow.task_groups
    | b ∷ m ↦ b ∷ m
  ];
}

remaining : Workflow → ℕ → ℤ
remaining wf elapsed = pos (pos_part wf.timeout_sec - elapsed)

-- The goroutines of a recovered workflow.
unfoldable pub relaunch : String → WorkflowState → ℕ → System → System
unfolding emit resume_point remaining
relaunch uuid st now s =
    let watched = emit (watch_status uuid) s in
    let timed =
      if ltb_ℤ (pos 0) st.workflow.timeout_sec
      then emit (start_timeout uuid (remaining st.workflow (now - st.started_at))) watched
      else watched in
    let r = resume_point st.completed_tasks st.workflow.task_groups in
    if ltb r.0 (length st.workflow.task_groups)
    then emit (execute_workflow uuid r.1 r.0) timed
    else timed

recover_named : String → WorkflowState → ℕ → System → System
unfolding relaunch put_entry recovered_state
recover_named uuid st now s =
    let fresh = recovered_state st in
    elim (lock_entry uuid s) [
      | some e ↦ s
      | none ↦
          relaunch uuid fresh now (put_entry uuid (record { state = fresh; recovered = true }) s)
    ]

-- `recoverSingleWorkflow`, from the stored state and its deltas.
unfoldable pub recover_single_workflow : WorkflowState → List TaskDelta → ℕ → System → System
unfolding recover_named apply_deltas
recover_single_workflow st ds now s =
    let uuid = uuid_of st in if uuid == "" then s else recover_named uuid (apply_deltas ds st) now s
