-- ===== src/Scheduler/Dispatch/Retry.antt =====
-- infra/engine/scheduler/task_dispatcher.go: `RetryTask` after its wait, and `PushRollbackTask`.
-- Errors of the JSON library and of etcd are given as their texts.
use vibeflow.Prelude.{
  suc, Bool, true, false, ◌||◌, String, [], Option, none, some, pos, ltb_ℤ, ◌<>◌, ◌≡◌, ◌+ℤ◌, refl,
  ap, ◌∙◌, if◌then◌else◌, if_true, beq_refl, string_eq, beq_refl,
}
use vibeflow.Model.Value.{Output}
use vibeflow.Model.Workflow.{TaskNode, fields, name_of}
use vibeflow.Store.{TaskPayload, TaskStatus}
use vibeflow.Scheduler.Dispatch.{Config, Slots, inc_wf, add_global, release_slot, wf_active}
use vibeflow.Scheduler.Dispatch.Pending.Counters.{wf_active-inc}

-- What a retry leaves: the slots, the record written, the workflow marked failed with its message,
-- and whether the mark of the failed task is taken away. A retry that fails goes on with
-- `tryDispatchPending`, from these slots.
pub data RetryEnd : Type 0 where
  stopped : RetryEnd
  retried : TaskPayload → RetryEnd
  failed : TaskPayload → String → RetryEnd

abbrev pub limited : Config → Bool
limited cfg =
    ltb_ℤ (pos 0) cfg.max_concurrent_tasks || ltb_ℤ (pos 0) cfg.per_workflow_max_concurrency

unfoldable pub take_retry_slot : Config → String → Slots → Slots
unfolding inc_wf add_global
take_retry_slot cfg uuid s =
    if limited cfg
    then inc_wf uuid (if ltb_ℤ (pos 0) cfg.max_concurrent_tasks then add_global (pos 1) s else s)
    else s

-- The record of the next attempt.
unfoldable pub next_attempt : TaskPayload → TaskPayload
next_attempt p = record p {
  retry_count = suc p.retry_count;
  status = TaskStatus.pending;
  result = "";
}

unfoldable pub retry_message : String → String → String → String
retry_message name what err = "任务 " <> (name <> (what <> err))

unfoldable pub retry_written : Config → Option String → TaskPayload → Slots → Slots × RetryEnd
unfolding release_slot retry_message
retry_written cfg none p s = (s, retried p)
retry_written cfg (some err) p s =
    (release_slot cfg p.workflow_id s, failed p (retry_message p.task_name " 重试写入失败: " err))

unfoldable pub retry_serialized :
    Config → Option String → Option String → TaskPayload → Slots → Slots × RetryEnd
unfolding release_slot retry_message retry_written
retry_serialized cfg none stored p s = retry_written cfg stored p s
retry_serialized cfg (some err) stored p s =
    (release_slot cfg p.workflow_id s, failed p (retry_message p.task_name " 重试序列化失败: " err))

-- `RetryTask`: whether the scheduler's context ended during the wait, and the errors of the JSON
-- library and of the store.
unfoldable pub retry_task :
    Config → Bool → Option String → Option String → TaskPayload → Slots → Slots × RetryEnd
unfolding take_retry_slot next_attempt retry_serialized
retry_task cfg cancelled serialized stored p s =
    if cancelled
    then (s, stopped)
    else retry_serialized cfg serialized stored (next_attempt p)
        (take_retry_slot cfg p.workflow_id s)

-- The record that `PushRollbackTask` writes.
unfoldable pub rollback_payload : Config → String → TaskNode → Output → TaskPayload
rollback_payload cfg uuid n original_output = record {
  workflow_id = uuid;
  task_name = name_of n;
  status = TaskStatus.pending;
  priority = pos 0;
  params = (fields n).params;
  input = original_output;
  output = [];
  result = "";
  retry_count = 0;
  max_retries = pos 0;
  timeout_sec = cfg.default_task_timeout_sec;
  base_backoff = 0;
  rollback = true;
  no_retry = false;
  etcd_mod_revision = 0;
  etcd_key = "";
}

-- A retry with a limit on all tasks that etcd takes writes the next attempt and holds a slot more, of the
-- workflow and of all, however many are in use: it looks at no limit.
pub retry_task-unlimited :
    (cfg : Config) (p : TaskPayload) (s : Slots)
    → ltb_ℤ (pos 0) cfg.max_concurrent_tasks ≡ true
    → ((retry_task cfg false none none p s).1 ≡ retried (next_attempt p))
      × ((retry_task cfg false none none p s).0.global_active ≡ s.global_active +ℤ pos 1)
      × (wf_active p.workflow_id (retry_task cfg false none none p s).0
          ≡ wf_active p.workflow_id s +ℤ pos 1)
unfolding retry_task retry_serialized retry_written take_retry_slot add_global inc_wf
retry_task-unlimited cfg p s g =
    let one : Slots = add_global (pos 1) s in
    let taken : take_retry_slot cfg p.workflow_id s ≡ inc_wf p.workflow_id one =
      rw (g, take_retry_slot) refl in
    (
      refl,
      ap (λ x. x.global_active) taken,
      ap (wf_active p.workflow_id) taken
          ∙ wf_active-inc p.workflow_id p.workflow_id one
          ∙ if_true _ _ _ (beq_refl p.workflow_id),
    )
