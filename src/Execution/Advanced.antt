-- ===== src/Execution/Advanced.antt =====
-- infra/engine/scheduler/advanced_executor.go, `ExecuteFanOut`, and execution_manager.go,
-- `executeAdvancedGroup`: what the nodes of a group with Fan-Outs and sub-workflows come to. What the
-- workers report for an input, and the order in which results arrive, are arguments.
pub mod Gathered
use vibeflow.Prelude.{
  ℕ, suc, ◌+◌, Bool, true, false, String, List, [], ◌∷◌, ◌++◌, Option, none, some, pos, map, insert,
  string_eq, length, if◌then◌else◌, ◌==◌, ◌<>◌,
}
use vibeflow.Model.Value.{
  Value, Output, Values, Fields, int, string, slice, object, end, item, empty, field,
}
use vibeflow.Model.Mapping.{merge_into}
use vibeflow.Model.Workflow.{
  TaskNode, TaskGroup, TaskNodeType, FanOutDef, fields, fan_out_of, get_task_node_type,
}
use vibeflow.Execution.Control.{GroupResult, outputs, error}
use vibeflow.Execution.Parallel.{
  TaskResult, output, failure, Tally, no_results, or_first, count_results,
}
use vibeflow.Execution.FanOut.{extract_iterator_list, build_item_output}

abbrev pub default_fan_out_output_key : String
default_fan_out_output_key = "fan_out_results"

-- The answer to the callback of `ExecuteFanOut`.
pub data FanResult : Type 0 where
  fan_output : Output → FanResult
  fan_error : String → FanResult

-- What the executor of the template reports for one element: its first output counts.
unfoldable pub item_result : GroupResult → TaskResult
item_result (outputs []) = output none
item_result (outputs (o ∷ os)) = output (some o)
item_result (error e) = failure e

unfoldable pub numbered : ℕ → List Value → List (ℕ × Value)
numbered i [] = []
numbered i (v ∷ vs) = (i, v) ∷ numbered (suc i) vs

unfoldable pub fields_value : Output → Fields
fields_value [] = empty
fields_value ((k, v) ∷ o) = field k v (fields_value o)

unfoldable pub outputs_value : List Output → Values
unfolding fields_value
outputs_value [] = end
outputs_value (o ∷ os) = item (object (fields_value o)) (outputs_value os)

-- The map at the end of `ExecuteFanOut`.
unfoldable pub gathered : String → List Output → Output
unfolding outputs_value
gathered key os =
    insert "_count" (int (pos (length os)))
      (insert (if key == "" then default_fan_out_output_key else key) (slice (outputs_value os)) [])

unfoldable pub fan_verdict : String → Tally → FanResult
unfolding gathered
fan_verdict key t = elim t.first_err [
  | some e ↦ fan_error e
  | none ↦ fan_output (gathered key t.all_outputs)
]

module _ (worker : Output → GroupResult) (order : List (ℕ × Value) → List (ℕ × Value)) where
  unfoldable pub item_results : List Output → List (ℕ × Value) → List TaskResult
  unfolding item_result
  item_results upstream [] = []
  item_results upstream ((i, v) ∷ vs) =
      item_result (worker (build_item_output i v upstream)) ∷ item_results upstream vs

  unfoldable pub fan_out_items : String → List Output → List Value → FanResult
  unfolding item_results fan_verdict numbered
  fan_out_items key upstream [] = fan_output []
  fan_out_items key upstream (v ∷ vs) =
      fan_verdict key
        (count_results (item_results upstream (order (numbered 0 (v ∷ vs)))) no_results)

  -- `ExecuteFanOut`.
  unfoldable pub execute_fan_out : Option FanOutDef → List Output → FanResult
  unfolding fan_out_items extract_iterator_list
  execute_fan_out none upstream = fan_error "Fan-Out 定义为空"
  execute_fan_out (some d) upstream = elim (extract_iterator_list upstream d.iterator_key) [
    | none ↦ fan_error ("Fan-Out: 上游输出中未找到 key=\"" <> (d.iterator_key <> "\" 的列表"))
    | some vs ↦ fan_out_items d.output_key upstream vs
  ]

is_advanced : TaskNodeType → Bool
is_advanced TaskNodeType.sub_workflow = true
is_advanced TaskNodeType.fan_out = true
is_advanced _ = false

-- The two lists of `executeAdvancedGroup`, the normal nodes first.
unfoldable pub split_nodes : TaskGroup → TaskGroup × TaskGroup
unfolding is_advanced
split_nodes [] = ([], [])
split_nodes (n ∷ ns) =
    let rest = split_nodes ns in
    if is_advanced (get_task_node_type n) then (rest.0, n ∷ rest.1) else (n ∷ rest.0, rest.1)

-- A callback of `executeAdvancedGroup`: of the normal nodes, of a sub-workflow with its UUID and the
-- node's name, or of a Fan-Out.
pub data Arrival : Type 0 where
  normal : GroupResult → Arrival
  sub_workflow : String → String → GroupResult → Arrival
  fanned_out : FanResult → Arrival

-- The outputs of a sub-workflow in one, marked by where they come from.
unfoldable pub merge_all : Output → List Output → Output
unfolding merge_into
merge_all out [] = out
merge_all out (o ∷ os) = merge_all (merge_into out o) os

unfoldable pub sub_output : String → String → List Output → Output
unfolding merge_all
sub_output uuid name os =
    merge_all (insert "_task_name" (string name) (insert "_sub_workflow" (string uuid) [])) os

-- The outputs that a callback adds, or its error.
unfoldable pub arrived : Arrival → GroupResult
unfolding sub_output
arrived (normal r) = r
arrived (sub_workflow uuid name (outputs os)) = outputs (sub_output uuid name os ∷ [])
arrived (sub_workflow uuid name (error e)) = error e
arrived (fanned_out (fan_output o)) = outputs (o ∷ [])
arrived (fanned_out (fan_error e)) = error e

-- `allOutputs` and `firstErr` after the callbacks so far.
unfoldable pub after_arrival :
    GroupResult → List Output × Option String → List Output × Option String
after_arrival (outputs os) (all, err) = (all ++ os, err)
after_arrival (error e) (all, err) = (all, or_first err e)

unfoldable pub after_arrivals :
    List Arrival → List Output × Option String → List Output × Option String
unfolding arrived after_arrival
after_arrivals [] t = t
after_arrivals (a ∷ arrivals) t = after_arrivals arrivals (after_arrival (arrived a) t)

-- What the goroutine that waits for the nodes reads, after the callbacks that came by then.
unfoldable pub advanced_result : List Arrival → GroupResult
unfolding after_arrivals
advanced_result arrivals =
    let t = after_arrivals arrivals ([], none) in elim t.1 [ some e ↦ error e | none ↦ outputs t.0 ]
