-- ===== src/Model/Workflow.antt =====
-- domain/model/workflow.go: workflow definitions and the state of an execution.
-- A string type with named constants is a data type with one more constructor for the other texts;
-- `unset` is the empty text.
use vibeflow.Prelude.{ℕ, Bool, String, List, [], ◌∷◌, Map, Option, none, some, ℤ}
use vibeflow.Model.Value.{Output}

pub data TriggerType : Type 0 where
  manual cron event : TriggerType
  other : String → TriggerType

pub data EventTriggerType : Type 0 where
  webhook workflow_completed task_failed : EventTriggerType
  other : String → EventTriggerType

pub record EventTrigger : Type 0 where
  pub event_type : EventTriggerType
  pub filter : String
  pub webhook_secret : String

pub data WorkflowStatus : Type 0 where
  pending running paused rolling_back rolled_back completed failed : WorkflowStatus

pub data LoopConditionType : Type 0 where
  always key : LoopConditionType
  other : String → LoopConditionType

pub record LoopDef : Type 0 where
  pub max_iterations : ℤ
  pub condition_type : LoopConditionType
  pub condition_key : String

pub data TaskNodeType : Type 0 where
  unset task sub_workflow fan_out : TaskNodeType
  other : String → TaskNodeType

-- A node's fields that hold no node.
pub record NodeFields : Type 0 where
  pub type : TaskNodeType
  pub name : String
  pub params : Output
  pub delay_sec : ℤ
  pub default_branch : String
  pub parallel_branch : Bool
  pub sub_workflow : String
  pub sub_workflow_params : Output
  pub loop : Option LoopDef
  pub input_mapping : Map String String

-- `TaskNode`, with `BranchDef` (`unset` is the nil map) and `FanOutDef` (`unset` is the nil pointer).
mutual
  pub data TaskNode : Type 0 where
    task_node : NodeFields → Branches → FanOut → TaskNode

  pub data Branches : Type 0 where
    no_branches : Branches
    branch_def : BranchMap → Branches

  pub data BranchMap : Type 0 where
    no_branch : BranchMap
    branch : String → NodeGroups → BranchMap → BranchMap

  pub data NodeGroups : Type 0 where
    no_group : NodeGroups
    group : Nodes → NodeGroups → NodeGroups

  pub data Nodes : Type 0 where
    no_node : Nodes
    and_node : TaskNode → Nodes → Nodes

  pub data FanOut : Type 0 where
    no_fan_out : FanOut
    fan_out_def : String → TaskNode → ℤ → String → FanOut

abbrev pub fields : TaskNode → NodeFields
fields (task_node f b o) = f

abbrev pub name_of : TaskNode → String
name_of n = (fields n).name

abbrev pub TaskGroup : Type 0
TaskGroup = List TaskNode

unfoldable pub nodes_list : Nodes → TaskGroup
nodes_list no_node = []
nodes_list (and_node n ns) = n ∷ nodes_list ns

unfoldable pub groups_list : NodeGroups → List TaskGroup
unfolding nodes_list
groups_list no_group = []
groups_list (group g gs) = nodes_list g ∷ groups_list gs

unfoldable pub branch_list : BranchMap → Map String (List TaskGroup)
unfolding groups_list
branch_list no_branch = []
branch_list (branch b gs m) = (b, groups_list gs) ∷ branch_list m

-- `node.Branches`: `none` is the nil map.
unfoldable pub branches_of : TaskNode → Option (Map String (List TaskGroup))
unfolding branch_list
branches_of (task_node f no_branches o) = none
branches_of (task_node f (branch_def m) o) = some (branch_list m)

pub record FanOutDef : Type 0 where
  pub iterator_key : String
  pub task : TaskNode
  pub max_parallel : ℤ
  pub output_key : String

unfoldable pub fan_out_of : TaskNode → Option FanOutDef
fan_out_of (task_node f b no_fan_out) = none
fan_out_of (task_node f b (fan_out_def i t m k)) =
    some (record { iterator_key = i; task = t; max_parallel = m; output_key = k })

-- `GetTaskNodeType`: a node without a type is a task.
unfoldable pub get_task_node_type : TaskNode → TaskNodeType
get_task_node_type n = elim (fields n).type [ TaskNodeType.unset ↦ TaskNodeType.task | t ↦ t ]

pub data ErrorPolicyType : Type 0 where
  unset retry rollback skip fail_fast : ErrorPolicyType
  other : String → ErrorPolicyType

pub data TimeoutPolicy : Type 0 where
  unset rollback fail : TimeoutPolicy
  other : String → TimeoutPolicy

pub record ErrorPolicy : Type 0 where
  pub on_task_failure : ErrorPolicyType
  pub on_timeout : TimeoutPolicy
  pub skippable_tasks : List String
  pub task_policies : Map String ErrorPolicyType

pub record Workflow : Type 0 where
  pub uuid : String
  pub name : String
  pub task_groups : List TaskGroup
  pub trigger : TriggerType
  pub cron_expr : String
  pub event_trigger : Option EventTrigger
  pub timeout_sec : ℤ
  pub task_timeout_sec : ℤ
  pub max_retries : ℤ
  pub base_backoff : ℤ
  pub priority : ℤ
  pub error_policy : Option ErrorPolicy

pub record BranchLocation : Type 0 where
  pub parent_group_idx : ℕ
  pub parent_node_name : String
  pub branch_name : String

-- `WorkflowState`. A map that the code makes before it writes is not told from the empty one.
pub record WorkflowState : Type 0 where
  pub workflow : Workflow
  pub status : WorkflowStatus
  pub started_at : ℕ
  pub completed_tasks : Map String Output
  pub failed_tasks : Map String String
  pub rolled_back : Map String Bool
  pub error : String
  pub paused_task_name : String
  pub paused_task_output : Output
  pub paused_group_idx : ℕ
  pub task_group_index : Option (Map String ℕ)
  pub branch_task_index : Map String BranchLocation
  pub workflow_uuid : String
  pub workflow_id : ℕ
  pub execution_id : ℕ
  pub snapshotted : Map String ℕ
