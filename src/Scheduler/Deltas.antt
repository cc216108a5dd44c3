-- ===== src/Scheduler/Deltas.antt =====
-- infra/store/mysql/history.go and infra/engine/scheduler/repository.go: how snapshots are stored, and
-- what a master that starts reads of them. JSON is a tree; which keys a record is written and read
-- under is of its tags in domain/model/workflow.go. The workflows are recovered one after the other,
-- in the order of the argument.
pub mod Grouped
pub mod Lost
use vibeflow.Prelude.{
  ℕ, Bool, true, false, String, List, [], ◌∷◌, ◌++◌, Map, Option, none, some, lookup, insert, any,
  string_eq, nat_eq, nat_beq, if◌then◌else◌, ◌==◌,
}
use vibeflow.Model.Value.{Output}
use vibeflow.Model.Workflow.{WorkflowState}
use vibeflow.Model.Delta.{TaskDelta, Action}
use vibeflow.Scheduler.State.{System}
use vibeflow.Scheduler.Snapshot.{recover_single_workflow}

mutual
  pub data Json : Type 0 where
    text : String → Json
    number : ℕ → Json
    values : Output → Json
    array : Elements → Json
    object : Members → Json

  pub data Elements : Type 0 where
    no_element : Elements
    element : Json → Elements → Elements

  pub data Members : Type 0 where
    no_member : Members
    member : String → Json → Members → Members

pub record WorkflowSnapshot : Type 0 where
  pub workflow_uuid : String
  pub execution_id : ℕ
  pub status : String
  pub changed_tasks : List TaskDelta
  pub error : String
  pub updated_at : String

abbrev pub action_text : Action → String
action_text Action.completed = "completed"
action_text Action.failed = "failed"
action_text Action.rolled_back = "rolled_back"
action_text (Action.other s) = s

unfoldable pub action_of : String → Action
action_of s =
    if s == "completed"
    then Action.completed
    else if s == "failed"
    then Action.failed
    else if s == "rolled_back"
    then Action.rolled_back
    else Action.other s

-- `omitempty`.
abbrev pub text_member : String → String → Members → Members
text_member key s ms = if s == "" then ms else member key (text s) ms

abbrev pub values_member : String → Output → Members → Members
values_member key [] ms = ms
values_member key (e ∷ es) ms = member key (values (e ∷ es)) ms

unfoldable pub marshal_delta : TaskDelta → Json
marshal_delta d = object (
    member "task_name" (text d.task_name) (
      member "action" (text (action_text d.action))
        (values_member "output" d.output (text_member "result" d.result no_member))))

unfoldable pub marshal_deltas : List TaskDelta → Elements
unfolding marshal_delta
marshal_deltas [] = no_element
marshal_deltas (d ∷ ds) = element (marshal_delta d) (marshal_deltas ds)

abbrev pub changed_member : List TaskDelta → Members → Members
changed_member [] ms = ms
changed_member (d ∷ ds) ms = member "changed_tasks" (array (marshal_deltas (d ∷ ds))) ms

-- What `snapshotRunningWorkflow` hands to `SaveTaskDeltas`.
unfoldable pub marshal_snapshot : WorkflowSnapshot → Json
marshal_snapshot w = object (
    member "workflow_uuid" (text w.workflow_uuid) (
      member "execution_id" (number w.execution_id) (
        member "status" (text w.status) (
          changed_member w.changed_tasks
            (text_member "error" w.error (member "updated_at" (text w.updated_at) no_member))))))

abbrev pub empty_delta : TaskDelta
empty_delta = record { task_name = ""; action = Action.other ""; output = []; result = "" }

abbrev pub as_text : Json → Option String
as_text (text s) = some s
as_text _ = none

abbrev pub as_values : Json → Option Output
as_values (values o) = some o
as_values _ = none

-- A member under a key that the record has not is passed over; one of another type is an error.
-- (The JSON library also takes a key that differs in case alone.)
unfoldable pub read_member : String → Json → TaskDelta → Option TaskDelta
unfolding action_of
read_member key j d =
    if key == "task_name"
    then elim (as_text j) [ none ↦ none | some s ↦ some (record d { task_name = s }) ]
    else if key == "action"
    then elim (as_text j) [ none ↦ none | some s ↦ some (record d { action = action_of s }) ]
    else if key == "output"
    then elim (as_values j) [ none ↦ none | some o ↦ some (record d { output = o }) ]
    else if key == "result"
    then elim (as_text j) [ none ↦ none | some s ↦ some (record d { result = s }) ]
    else some d

unfoldable pub read_members : Members → TaskDelta → Option TaskDelta
unfolding read_member
read_members no_member d = some d
read_members (member key j ms) d = elim (read_member key j d) [
  | none ↦ none
  | some d' ↦ read_members ms d'
]

unfoldable pub unmarshal_delta : Json → Option TaskDelta
unfolding read_members
unmarshal_delta (object ms) = read_members ms empty_delta
unmarshal_delta _ = none

unfoldable pub unmarshal_deltas : Elements → Option (List TaskDelta)
unfolding unmarshal_delta
unmarshal_deltas no_element = some []
unmarshal_deltas (element j js) = elim (unmarshal_delta j) [
  | none ↦ none
  | some d ↦ elim (unmarshal_deltas js) [ none ↦ none | some ds ↦ some (d ∷ ds) ]
]

infixr 65 ◌+++◌
abbrev pub ◌+++◌ : Elements → Elements → Elements
no_element +++ ks = ks
element j js +++ ks = element j (js +++ ks)

-- A row that is no array counts as one element.
abbrev pub batch : Json → Elements
batch (array js) = js
batch j = element j no_element

abbrev pub elements_of : Option Elements → Elements
elements_of none = no_element
elements_of (some js) = js

-- The rows of `vibeflow_task_deltas`, in the order of their ids.
abbrev pub DeltaRows : Type 0
DeltaRows = List (ℕ × Json)

unfoldable pub flatten : ℕ → DeltaRows → Option Elements
flatten id [] = none
flatten id ((i, j) ∷ rows) =
    let rest = flatten id rows in if nat_beq i id then some (batch j +++ elements_of rest) else rest

-- `LoadTaskDeltas`, and `BatchLoadTaskDeltas` for a list of ids.
unfoldable pub load_task_deltas : ℕ → DeltaRows → Option Elements
unfolding flatten
load_task_deltas id rows = flatten id rows

unfoldable pub add_batch : ℕ → Json → Map ℕ Elements → Map ℕ Elements
add_batch i j m = elim (lookup i m) [
  | none ↦ insert i (batch j) m
  | some js ↦ insert i (js +++ batch j) m
]

unfoldable pub group_rows : List ℕ → DeltaRows → Map ℕ Elements → Map ℕ Elements
unfolding add_batch
group_rows ids [] m = m
group_rows ids ((i, j) ∷ rows) m =
    group_rows ids rows (if any (λ x. nat_beq x i) ids then add_batch i j m else m)

unfoldable pub batch_load_task_deltas : List ℕ → DeltaRows → Map ℕ Elements
unfolding group_rows
batch_load_task_deltas ids rows = group_rows ids rows []

-- The deltas that are applied to a state: none where the elements do not decode.
unfoldable pub decoded_deltas : Option Elements → List TaskDelta
unfolding unmarshal_deltas
decoded_deltas none = []
decoded_deltas (some js) = elim (unmarshal_deltas js) [ none ↦ [] | some ds ↦ ds ]

-- `[]` is the nil map of a failed batch, or of one without rows: then each execution is asked for.
unfoldable pub stored_deltas : Map ℕ Elements → DeltaRows → ℕ → List TaskDelta
unfolding decoded_deltas load_task_deltas
stored_deltas [] rows id = decoded_deltas (load_task_deltas id rows)
stored_deltas (e ∷ es) rows id = decoded_deltas (lookup id (e ∷ es))

pub record RunningRecord : Type 0 where
  pub execution_id : ℕ
  pub decoded : Option WorkflowState

abbrev pub ids_of : List RunningRecord → List ℕ
ids_of [] = []
ids_of (r ∷ rs) = r.execution_id ∷ ids_of rs

unfoldable pub recover_record : Map ℕ Elements → DeltaRows → ℕ → RunningRecord → System → System
unfolding stored_deltas
recover_record all rows now r s = elim r.decoded [
  | none ↦ s
  | some st ↦ recover_single_workflow st (stored_deltas all rows r.execution_id) now s
]

unfoldable pub recover_records :
    Map ℕ Elements → DeltaRows → ℕ → List RunningRecord → System → System
unfolding recover_record
recover_records all rows now [] s = s
recover_records all rows now (r ∷ rs) s =
    recover_records all rows now rs (recover_record all rows now r s)

-- `recoverRunningWorkflows`; `batched` tells whether the batch is answered.
unfoldable pub recover_running_workflows :
    Bool → DeltaRows → ℕ → List RunningRecord → System → System
unfolding recover_records batch_load_task_deltas
recover_running_workflows batched rows now rs s =
    if s.wm.has_history_store
    then recover_records (if batched then batch_load_task_deltas (ids_of rs) rows else []) rows now
        rs s
    else s
