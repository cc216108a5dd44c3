-- ===== src/Model/Mapping/Laws.antt =====
-- Input mapping (domain/model/workflow.go, `ApplyInputMapping`) against a direct description.
use vibeflow.Prelude.{
  ◌≡◌, refl, String, List, [], ◌∷◌, Map, Option, none, some, insert, lookup, lookup-insert,
  string_eq, arith, ◌==◌, if◌then◌else◌, ◌∙◌, ap,
}
use vibeflow.Model.Value.{Value, Output}
use vibeflow.Model.Workflow.{TaskNode, fields}
use vibeflow.Model.Mapping.{
  merge_into, merge_outputs, pick_mapped, put_found, mapped_input, apply_input_mapping,
}

-- What an output, read to its end, says last of a key.
unfoldable pub latest_in : String → Output → Option Value → Option Value
latest_in k [] o = o
latest_in k ((j, v) ∷ m) o = latest_in k m (if j == k then some v else o)

-- The value of a key in the last upstream output that has it.
unfoldable pub latest : String → List Output → Option Value → Option Value
unfolding latest_in
latest k [] o = o
latest k (m ∷ ms) o = latest k ms (latest_in k m o)

pub lookup-merge_into :
    (k : String) (merged m : Output)
    → lookup k (merge_into merged m) ≡ latest_in k m (lookup k merged)
unfolding merge_into latest_in
lookup-merge_into k merged [] = refl
lookup-merge_into k merged ((j, v) ∷ m) =
    lookup-merge_into k (insert j v merged) m ∙ ap (latest_in k m) (lookup-insert j k v merged)

pub lookup-merge_outputs :
    (k : String) (merged : Output) (ms : List Output)
    → lookup k (merge_outputs merged ms) ≡ latest k ms (lookup k merged)
unfolding merge_outputs latest
lookup-merge_outputs k merged [] = refl
lookup-merge_outputs k merged (m ∷ ms) =
    lookup-merge_outputs k (merge_into merged m) ms
    ∙ ap (latest k ms) (lookup-merge_into k merged m)

-- The last rule for a parameter whose source is there.
unfoldable pub mapped_value : String → Map String String → List Output → Option Value → Option Value
unfolding latest
mapped_value k [] outputs o = o
mapped_value k ((j, source) ∷ m) outputs o =
    mapped_value k m outputs
      (if j == k then elim (latest source outputs none) [ none ↦ o | some v ↦ some v ] else o)

lookup-put_found :
    (k j : String) (v : Option Value) (r : Output)
    → lookup k (put_found j v r)
      ≡ (if j == k then elim v [ none ↦ lookup k r | some w ↦ some w ] else lookup k r)
unfolding put_found
lookup-put_found k j none r = ground arith
lookup-put_found k j (some v) r = lookup-insert j k v r

lookup-pick_mapped :
    (k : String) (m : Map String String) (outputs : List Output) (r : Output)
    → lookup k (pick_mapped m (merge_outputs [] outputs) r) ≡ mapped_value k m outputs (lookup k r)
unfolding pick_mapped mapped_value
lookup-pick_mapped k [] outputs r = refl
lookup-pick_mapped k ((j, source) ∷ m) outputs r =
    lookup-pick_mapped k m outputs (put_found j (lookup source (merge_outputs [] outputs)) r)
    ∙ ap (mapped_value k m outputs) (
        lookup-put_found k j (lookup source (merge_outputs [] outputs)) r
        ∙ ap
            (λ (o : Option Value).
              if j == k then elim o [ none ↦ lookup k r | some w ↦ some w ] else lookup k r)
            (merged_value source outputs))
  where
    merged_value :
        (s : String) (os : List Output) → lookup s (merge_outputs [] os) ≡ latest s os none
    merged_value s os = unfold lookup in lookup-merge_outputs s [] os

mapped_input_lem :
    (m : Map String String) (outputs : List Output) (input : Output) (k : String)
    → mapped_input m outputs ≡ some input
    → lookup k input ≡ mapped_value k m outputs none
unfolding mapped_input lookup
mapped_input_lem [] outputs input k h = cc
mapped_input_lem (e ∷ m) outputs input k h = ground (arith, lookup-pick_mapped k (e ∷ m) outputs [])

-- Where a node has a mapped input, it is exactly what the mapping says: a parameter gets the value
-- that its source has in the last upstream output which has it, and nothing else is passed on.
pub apply_input_mapping_lem :
    (n : TaskNode) (outputs : List Output) (input : Output) (k : String)
    → apply_input_mapping n outputs ≡ some input
    → lookup k input ≡ mapped_value k (fields n).input_mapping outputs none
unfolding apply_input_mapping
apply_input_mapping_lem n outputs input k h =
    mapped_input_lem (fields n).input_mapping outputs input k h
