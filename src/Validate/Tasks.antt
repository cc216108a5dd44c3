-- ===== src/Validate/Tasks.antt =====
-- `validateWorkflowTasks` (infra/engine/scheduler/types.go), its phases in the code's order. The
-- code writes a generated name to a copy of the node, so the definition itself does not change.
use vibeflow.Prelude.{
  ℕ, suc, String, List, [], ◌∷◌, Map, Option, none, some, has, string_eq, if◌then◌else◌, ◌==◌,
}
use vibeflow.Model.Workflow.{
  Workflow, TaskNode, TaskGroup, TriggerType, EventTrigger, EventTriggerType, fields, name_of,
  branches_of,
}
use vibeflow.Model.Policy.{PolicyError, validate}
use vibeflow.Validate.Node.{
  bad_policy, no_event_trigger, no_filter, unknown_event, empty_mapping_key, empty_mapping_source,
  unknown_default_branch, Checked, ok, err, ◌>>=◌,
}
use vibeflow.Validate.Names.{Seen, declare_groups, declare_all_branches}

policy_checked : Option PolicyError → Checked (Unit {0})
policy_checked none = ok tt
policy_checked (some e) = err (bad_policy e)

event_checked : EventTriggerType → String → Checked (Unit {0})
event_checked EventTriggerType.webhook filter = ok tt
event_checked (EventTriggerType.other s) filter = err (unknown_event s)
event_checked t filter = if filter == "" then err (no_filter t) else ok tt

trigger_checked : TriggerType → Option EventTrigger → Checked (Unit {0})
unfolding event_checked
trigger_checked TriggerType.event none = err no_event_trigger
trigger_checked TriggerType.event (some t) = event_checked t.event_type t.filter
trigger_checked _ t = ok tt

mapping_checked : ℕ → String → Map String String → Checked (Unit {0})
mapping_checked group task [] = ok tt
mapping_checked group task ((key, source) ∷ m) =
    let rest = mapping_checked group task m in
    if key == ""
    then err (empty_mapping_key group task)
    else if source == ""
    then err (empty_mapping_source group task)
    else rest

mappings_checked : ℕ → List TaskNode → Checked (Unit {0})
unfolding mapping_checked
mappings_checked group [] = ok tt
mappings_checked group (n ∷ ns) = do
  _ ← mapping_checked group (name_of n) (fields n).input_mapping
  mappings_checked group ns

all_mappings_checked : ℕ → List TaskGroup → Checked (Unit {0})
unfolding mappings_checked
all_mappings_checked group [] = ok tt
all_mappings_checked group (g ∷ gs) = do
  _ ← mappings_checked group g
  all_mappings_checked (suc group) gs

default_checked : ℕ → TaskNode → Option (Map String (List TaskGroup)) → Checked (Unit {0})
default_checked group n none = ok tt
default_checked group n (some m) =
    if (fields n).default_branch == ""
    then ok tt
    else if has (fields n).default_branch m
    then ok tt
    else err (unknown_default_branch group (name_of n) (fields n).default_branch)

defaults_checked : ℕ → List TaskNode → Checked (Unit {0})
unfolding default_checked
defaults_checked group [] = ok tt
defaults_checked group (n ∷ ns) = do
  _ ← default_checked group n (branches_of n)
  defaults_checked group ns

all_defaults_checked : ℕ → List TaskGroup → Checked (Unit {0})
unfolding defaults_checked
all_defaults_checked group [] = ok tt
all_defaults_checked group (g ∷ gs) = do
  _ ← defaults_checked group g
  all_defaults_checked (suc group) gs

-- The phases before the names are looked at.
pub prechecked : Workflow → Checked (Unit {0})
unfolding policy_checked trigger_checked all_mappings_checked all_defaults_checked
prechecked wf = do
  _ ← policy_checked (validate wf.error_policy)
  _ ← trigger_checked wf.trigger wf.event_trigger
  _ ← all_mappings_checked 1 wf.task_groups
  all_defaults_checked 1 wf.task_groups

-- The phases on names.
unfoldable pub names_declared : List TaskGroup → Checked Seen
names_declared groups = do seen ← declare_groups 1 groups []; declare_all_branches 1 groups seen

-- The names that were declared, or the first error.
unfoldable pub validate_workflow_tasks : Workflow → Checked Seen
unfolding prechecked names_declared
validate_workflow_tasks wf = do _ ← prechecked wf; names_declared wf.task_groups
