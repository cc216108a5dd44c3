-- ===== src/Validate/Node.antt =====
-- `validateTaskNode` and `validateLoopDef` (infra/engine/scheduler/types.go). `group` is the
-- group's number, from 1; the `parentInfo` that every caller leaves empty is not shown.
use Prim.Native.String
use vibeflow.Prelude.{ℕ, String, Option, none, some, if◌then◌else◌, ◌==◌, string_eq, ltb_ℤ, pos}
use vibeflow.Model.Workflow.{
  TaskNode, TaskNodeType, LoopDef, LoopConditionType, EventTriggerType, fields, name_of, fan_out_of,
  FanOutDef, get_task_node_type,
}
use vibeflow.Model.Policy.{PolicyError}

pub data TaskError : Type 0 where
  bad_policy : PolicyError → TaskError
  no_event_trigger : TaskError
  no_filter : EventTriggerType → TaskError
  unknown_event : String → TaskError
  empty_mapping_key empty_mapping_source : ℕ → String → TaskError
  unknown_default_branch : ℕ → String → String → TaskError
  no_sub_workflow no_fan_out no_iterator_key negative_max_parallel no_template_name : ℕ → TaskError
  no_name : ℕ → TaskError
  bad_max_iterations bad_condition_type no_condition_key : ℕ → String → TaskError
  twice_in_group : ℕ → String → TaskError
  twice : String → ℕ → ℕ → TaskError
  branch_no_name : ℕ → String → String → TaskError
  branch_twice_in_group : ℕ → String → String → String → TaskError
  branch_conflict : String → ℕ → String → String → ℕ → TaskError

pub data Checked {ℓ} (A : Type ℓ) : Type ℓ where
  ok : A → Checked A
  err : TaskError → Checked A

infixl 5 ◌>>=◌
abbrev pub ◌>>=◌ {ℓ κ} : {X : Type ℓ} {Y : Type κ} → Checked X → (X → Checked Y) → Checked Y
err e >>= k = err e
ok x >>= k = k x

needs_key : LoopConditionType → LoopDef → ℕ → String → Checked String
needs_key LoopConditionType.key l group name =
    if l.condition_key == "" then err (no_condition_key group name) else ok name
needs_key LoopConditionType.always l group name = ok name
needs_key (LoopConditionType.other s) l group name = err (bad_condition_type group name)

-- `max_iterations <= 0` is refused.
unfoldable pub validate_loop_def : LoopDef → ℕ → String → Checked String
unfolding needs_key
validate_loop_def l group name =
    if ltb_ℤ (pos 0) l.max_iterations
    then needs_key l.condition_type l group name
    else err (bad_max_iterations group name)

validate_loop : Option LoopDef → ℕ → String → Checked String
unfolding validate_loop_def
validate_loop none group name = ok name
validate_loop (some l) group name = validate_loop_def l group name

validate_fan_out : Option FanOutDef → String → ℕ → Checked String
validate_fan_out none name group = err (no_fan_out group)
validate_fan_out (some f) name group =
    if f.iterator_key == ""
    then err (no_iterator_key group)
    else if ltb_ℤ f.max_parallel (pos 0)
    then err (negative_max_parallel group)
    else if name_of f.task == ""
    then err (no_template_name group)
    else ok name

validate_sub_workflow : TaskNode → ℕ → Checked String
unfolding validate_loop
validate_sub_workflow n group =
    if (fields n).sub_workflow == ""
    then err (no_sub_workflow group)
    else validate_loop (fields n).loop group
        (if name_of n == "" then String.◌++◌ "__sub_wf_" (fields n).sub_workflow else name_of n)

validate_task : TaskNode → ℕ → Checked String
unfolding validate_loop
validate_task n group =
    if name_of n == "" then err (no_name group) else validate_loop (fields n).loop group (name_of n)

validate_as : TaskNodeType → TaskNode → ℕ → Checked String
unfolding validate_sub_workflow validate_fan_out validate_task fan_out_of
validate_as TaskNodeType.sub_workflow n group = validate_sub_workflow n group
validate_as TaskNodeType.fan_out n group = validate_fan_out (fan_out_of n) (name_of n) group
validate_as TaskNodeType.task n group = validate_task n group
validate_as _ n group = ok (name_of n)

-- The name under which the node is known, or the error.
unfoldable pub validate_task_node : TaskNode → ℕ → Checked String
unfolding validate_as get_task_node_type
validate_task_node n group = validate_as (get_task_node_type n) n group
