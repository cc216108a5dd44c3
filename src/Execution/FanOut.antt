-- ===== src/Execution/FanOut.antt =====
-- infra/engine/scheduler/advanced_executor.go: the input of a Fan-Out node and of its elements.
pub mod Item
use vibeflow.Prelude.{
  ℕ, zero, suc, ◌+◌, ◌≡◌, refl, sym, ap, ◌∙◌, Bool, true, false, not, ◌&&◌, String, List, [], ◌∷◌,
  ◌++◌, Map, Option, none, some, ℤ, pos, lookup, has, insert, lookup-insert, string_eq, beq_refl,
  length, if◌then◌else◌, ◌==◌, arith, Bool-cases, Option-cases, inl, inr,
}
use vibeflow.Model.Value.{Value, Output, int, slice, object, entries, items}
use vibeflow.Model.Mapping.{merge_into}

abbrev pub as_list : Option Value → Option (List Value)
as_list (some (slice vs)) = some (items vs)
as_list _ = none

-- `extractIteratorList`: the latest output that has a list under the key.
unfoldable pub extract_iterator_list : List Output → String → Option (List Value)
extract_iterator_list [] key = none
extract_iterator_list (o ∷ os) key = elim (extract_iterator_list os key) [
  | some vs ↦ some vs
  | none ↦ as_list (lookup key o)
]

abbrev pub item_fields : Value → Output
item_fields (object fs) = entries fs
item_fields _ = []

-- `if _, exists := output[k]; !exists { output[k] = v }`.
unfoldable pub fill_in : Output → Output → Output
fill_in out [] = out
fill_in out ((k, v) ∷ m) = fill_in (if has k out then out else insert k v out) m

unfoldable pub fill_in_all : Output → List Output → Output
unfolding fill_in
fill_in_all out [] = out
fill_in_all out (o ∷ os) = fill_in_all (fill_in out o) os

-- `buildItemOutput`.
unfoldable pub build_item_output : ℕ → Value → List Output → Output
unfolding fill_in_all merge_into
build_item_output index item upstream =
    fill_in_all
      (merge_into (insert "_item" item (insert "_index" (int (pos index)) [])) (item_fields item))
      upstream

-- Which of two values counts.
abbrev pub or_else : Option Value → Option Value → Option Value
or_else (some v) later = some v
or_else none later = later

-- The value of the first output that has the key; within an output, the first entry.
abbrev pub earliest : String → List Output → Option Value
earliest k [] = none
earliest k (o ∷ os) = or_else (lookup k o) (earliest k os)
