-- ===== src/Execution/FanOut/Item.antt =====
-- infra/engine/scheduler/advanced_executor.go: what the task of a Fan-Out element reads as its input.
use vibeflow.Prelude.{
  ℕ, ◌≡◌, refl, ap, ◌∙◌, String, List, [], ◌∷◌, Option, none, some, pos, lookup, has, insert,
  lookup-insert, string_eq, if◌then◌else◌, ◌==◌, arith,
}
use vibeflow.Model.Value.{Value, Output, int}
use vibeflow.Model.Mapping.{merge_into}
use vibeflow.Model.Mapping.Laws.{latest_in, lookup-merge_into}
use vibeflow.Execution.FanOut.{
  item_fields, fill_in, fill_in_all, build_item_output, or_else, earliest,
}

lookup-fill_one :
    (k j : String) (v : Value) (out : Output)
    → lookup k (if has j out then out else insert j v out)
      ≡ or_else (lookup k out) (if j == k then some v else none)
unfolding has
lookup-fill_one k j v out = ground (arith, lookup-insert j k v out, string_eq.beq_iff j k)

or_else_assoc : (a b c : Option Value) → or_else (or_else a b) c ≡ or_else a (or_else b c)
or_else_assoc none b c = refl
or_else_assoc (some v) b c = refl

lookup-fill_in :
    (k : String) (out m : Output) → lookup k (fill_in out m) ≡ or_else (lookup k out) (lookup k m)
unfolding fill_in lookup
lookup-fill_in k out [] = ground arith
lookup-fill_in k out ((j, v) ∷ m) =
    lookup-fill_in k (if has j out then out else insert j v out) m
    ∙ ground (arith, lookup-fill_one k j v out)

lookup-fill_in_all :
    (k : String) (out : Output) (os : List Output)
    → lookup k (fill_in_all out os) ≡ or_else (lookup k out) (earliest k os)
unfolding fill_in_all
lookup-fill_in_all k out [] = ground arith
lookup-fill_in_all k out (o ∷ os) =
    lookup-fill_in_all k (fill_in out o) os
    ∙ ap (λ x. or_else x (earliest k os)) (lookup-fill_in k out o)
    ∙ or_else_assoc (lookup k out) (lookup k o) (earliest k os)

-- The task of a Fan-Out element reads under a key: what the element itself has there if it is an
-- object, else its number under `_index` and the element under `_item`, and else the value of the
-- first upstream output that has the key.
pub build_item_output_lem :
    (k : String) (index : ℕ) (item : Value) (upstream : List Output)
    → lookup k (build_item_output index item upstream)
      ≡ or_else
          (latest_in k (item_fields item) (
            if "_item" == k
            then some item
            else if "_index" == k
            then some (int (pos index))
            else none))
          (earliest k upstream)
unfolding build_item_output
build_item_output_lem k index item upstream =
    let base = insert "_item" item (insert "_index" (int (pos index)) []) in
    lookup-fill_in_all k (merge_into base (item_fields item)) upstream
    ∙ ap (λ x. or_else x (earliest k upstream))
        (lookup-merge_into k base (item_fields item)
          ∙ ap (latest_in k (item_fields item))
              (lookup-insert "_item" k item (insert "_index" (int (pos index)) []) ∙ indexed))
  where
    indexed :
        (if "_item" == k then some item else lookup k (insert "_index" (int (pos index)) [])) ≡ (
          if "_item" == k
          then some item
          else if "_index" == k
          then some (int (pos index))
          else none)
    indexed =
        ap (λ o. if "_item" == k then some item else o)
          (unfold lookup in lookup-insert "_index" k (int (pos index)) [])
