-- ===== src/Model/Mapping.antt =====
-- domain/model/workflow.go: which of the upstream outputs a task gets.
pub mod Laws
use vibeflow.Prelude.{
  String, List, [], ◌∷◌, ◌++◌, Map, Option, none, some, insert, lookup, string_eq,
}
use vibeflow.Model.Value.{Value, Output}
use vibeflow.Model.Workflow.{TaskNode, fields}

-- `for k, v := range output { merged[k] = v }`.
unfoldable pub merge_into : Output → Output → Output
merge_into merged [] = merged
merge_into merged ((k, v) ∷ output) = merge_into (insert k v merged) output

-- A nil output is the empty one: both add nothing.
unfoldable pub merge_outputs : Output → List Output → Output
unfolding merge_into
merge_outputs merged [] = merged
merge_outputs merged (o ∷ os) = merge_outputs (merge_into merged o) os

put_found : String → Option Value → Output → Output
put_found key none result = result
put_found key (some v) result = insert key v result

unfoldable pub pick_mapped : Map String String → Output → Output → Output
unfolding put_found
pick_mapped [] merged result = result
pick_mapped ((key, source) ∷ m) merged result =
    pick_mapped m merged (put_found key (lookup source merged) result)

unfoldable pub mapped_input : Map String String → List Output → Option Output
unfolding pick_mapped merge_outputs
mapped_input [] outputs = none
mapped_input (e ∷ m) outputs = some (pick_mapped (e ∷ m) (merge_outputs [] outputs) [])

-- `ApplyInputMapping`: `none` where the caller is to fall back to the full merge.
unfoldable pub apply_input_mapping : TaskNode → List Output → Option Output
unfolding mapped_input
apply_input_mapping n outputs = mapped_input (fields n).input_mapping outputs
