-- ===== src/Scheduler/Deltas/Grouped.antt =====
-- infra/store/mysql/history.go: the batch against the query for one execution.
use vibeflow.Prelude.{
  ℕ, ◌≡◌, refl, sym, ap, ◌∙◌, true, List, [], ◌∷◌, Map, Option, none, some, lookup, lookup-insert,
  any, nat_eq, nat_beq, nat_beq_iff, if_true, if_false, subst, if◌then◌else◌, arith, Option-cases,
  Bool-cases, inl, inr,
}
use vibeflow.Scheduler.Deltas.{
  Json, Elements, no_element, element, ◌+++◌, batch, elements_of, DeltaRows, flatten,
  load_task_deltas, add_batch, group_rows, batch_load_task_deltas, stored_deltas, decoded_deltas,
}

+++-nil : (js : Elements) → (js +++ no_element) ≡ js
+++-nil no_element = refl
+++-nil (element j js) = ap (element j) (+++-nil js)

+++_assoc : (a b c : Elements) → ((a +++ b) +++ c) ≡ (a +++ (b +++ c))
+++_assoc no_element b c = refl
+++_assoc (element j js) b c = ap (element j) (+++_assoc js b c)

-- What is known of an execution, and what more rows bring.
abbrev joined : Option Elements → Option Elements → Option Elements
joined none more = more
joined (some js) none = some js
joined (some js) (some ks) = some (js +++ ks)

add_batch_lem :
    (id i : ℕ) (j : Json) (m : Map ℕ Elements)
    → lookup id (add_batch i j m)
      ≡ (if nat_beq i id then joined (lookup id m) (some (batch j)) else lookup id m)
unfolding add_batch
add_batch_lem id i j m = elim (Option-cases (lookup i m)) [
  | inl n ↦ rw (n, add_batch) (lookup-insert i id (batch j) m ∙ ground (arith, n))
  | inr (js, n) ↦ rw (n, add_batch) (lookup-insert i id (js +++ batch j) m ∙ ground (arith, n))
]

joined_assoc :
    (k : Option Elements) (js : Elements) (more : Option Elements)
    → joined (joined k (some js)) more ≡ joined k (some (js +++ elements_of more))
joined_assoc none js none = ap some (sym (+++-nil js))
joined_assoc none js (some ks) = refl
joined_assoc (some is) js none = ap (λ x. some (is +++ x)) (sym (+++-nil js))
joined_assoc (some is) js (some ks) = ap some (+++_assoc is js ks)

group_rows_lem :
    (ids : List ℕ) (id : ℕ) (rows : DeltaRows) (m : Map ℕ Elements)
    → any (λ x. nat_beq x id) ids ≡ true
    → lookup id (group_rows ids rows m) ≡ joined (lookup id m) (flatten id rows)
unfolding group_rows flatten
group_rows_lem ids id [] m asked = elim (Option-cases (lookup id m)) [
  | inl n ↦ rw n refl
  | inr (js, n) ↦ rw n refl
]
group_rows_lem ids id ((i, j) ∷ rows) m asked =
    let m' : Map ℕ Elements = if any (λ x. nat_beq x i) ids then add_batch i j m else m in
    let known = add_batch_lem id i j m in
    let longer = joined_assoc (lookup id m) (batch j) (flatten id rows) in
    let later = group_rows_lem ids id rows m' asked in
    elim (Bool-cases (nat_beq i id)) [
      | inl same ↦
          let same_id : i ≡ id = (nat_beq_iff i id).0 same in
          let now : any (λ x. nat_beq x i) ids ≡ true =
            subst (λ x. any (λ y. nat_beq y x) ids ≡ true) (sym same_id) asked in
          later
          ∙ ap (λ k. joined k (flatten id rows))
              (ap (lookup id) (if_true _ _ _ now) ∙ known ∙ if_true _ _ _ same)
          ∙ longer
          ∙ ap (joined (lookup id m)) (sym (if_true _ _ _ same))
      | inr other ↦
          let kept : lookup id m' ≡ lookup id m = elim (Bool-cases (any (λ x. nat_beq x i) ids)) [
            | inl wanted ↦ ap (lookup id) (if_true _ _ _ wanted) ∙ known ∙ if_false _ _ _ other
            | inr unwanted ↦ ap (lookup id) (if_false _ _ _ unwanted)
          ] in
          later
          ∙ ap (λ k. joined k (flatten id rows)) kept
          ∙ ap (joined (lookup id m)) (sym (if_false _ _ _ other))
    ]

-- For an execution whose id is asked for, the batch has the deltas that the query for it alone answers,
-- in the same order, or none of both.
pub batch-load_task_deltas :
    (ids : List ℕ) (id : ℕ) (rows : DeltaRows)
    → any (λ x. nat_beq x id) ids ≡ true
    → lookup id (batch_load_task_deltas ids rows) ≡ load_task_deltas id rows
unfolding batch_load_task_deltas load_task_deltas lookup
batch-load_task_deltas ids id rows asked = group_rows_lem ids id rows [] asked

stored-grouped :
    (m : Map ℕ Elements) (rows : DeltaRows) (id : ℕ)
    → lookup id m ≡ load_task_deltas id rows
    → stored_deltas m rows id ≡ decoded_deltas (load_task_deltas id rows)
unfolding stored_deltas
stored-grouped [] rows id h = refl
stored-grouped (e ∷ es) rows id h = ap decoded_deltas h

-- The deltas of an execution are the same whether they come of the batch or of a query of their own.
pub stored_deltas-batch :
    (ids : List ℕ) (id : ℕ) (rows : DeltaRows)
    → any (λ x. nat_beq x id) ids ≡ true
    → stored_deltas (batch_load_task_deltas ids rows) rows id
      ≡ decoded_deltas (load_task_deltas id rows)
stored_deltas-batch ids id rows asked =
    stored-grouped (batch_load_task_deltas ids rows) rows id
      (batch-load_task_deltas ids id rows asked)
