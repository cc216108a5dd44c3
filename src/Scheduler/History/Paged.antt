-- ===== src/Scheduler/History/Paged.antt =====
-- infra/engine/scheduler/workflow_manager.go: `ListHistoryPaged`, with `sortedHistory`.
pub mod Sliced
pub mod Joined
use vibeflow.Prelude.{
  ℕ, zero, suc, ◌+◌, ◌-◌, ◌*◌, ◌%◌, ◌^◌, String, Bool, true, false, List, [], ◌∷◌, Map, Option,
  none, some, ℤ, pos, negsuc, pos_part, ◌+ℤ◌, ltb_ℤ, ltb, leb, length, drop, if◌then◌else◌,
}
use vibeflow.Heap.{take}
use vibeflow.Model.Workflow.{WorkflowState}
use vibeflow.Scheduler.Backoff.{wrap_int64}
use vibeflow.Scheduler.State.{Manager}

-- `sort.Slice` by the execution, the latest first. Executions of the history differ, so that any
-- sort gives this order.
insert_latest : WorkflowState → List WorkflowState → List WorkflowState
insert_latest s [] = s ∷ []
insert_latest s (t ∷ ts) =
    let rest = insert_latest s ts in
    if ltb s.execution_id t.execution_id then t ∷ rest else s ∷ t ∷ ts

unfoldable pub sorted_history_locked : Map ℕ WorkflowState → List WorkflowState
unfolding insert_latest
sorted_history_locked [] = []
sorted_history_locked ((id, s) ∷ history) = insert_latest s (sorted_history_locked history)

abbrev pub max_history_page_size : ℤ
max_history_page_size = pos 100

-- The 64 bits of an integer, and the product of two.
unfoldable pub bits : ℤ → ℕ
bits (pos n) = n % 2 ^ 64
bits (negsuc n) = 2 ^ 64 - 1 - n % 2 ^ 64

unfoldable pub mul_int64 : ℤ → ℤ → ℤ
unfolding bits wrap_int64
mul_int64 a b = wrap_int64 (bits a * bits b)

-- Go panics where a slice starts below 0.
pub data Paged : Type 0 where
  panics : Paged
  paged : List WorkflowState → ℕ → Paged

unfoldable pub slice_from : ℤ → ℕ → List WorkflowState → Paged
slice_from (negsuc n) size all = panics
slice_from (pos start) size all =
    let total = length all in
    if leb total start
    then paged [] total
    else paged
        (take ((if ltb total (start + size) then total else start + size) - start) (drop start all))
        total

-- The pages of what is in memory.
unfoldable pub page_in_memory : ℤ → ℤ → List WorkflowState → Paged
unfolding slice_from mul_int64
page_in_memory page size all =
    let at_least_one : ℤ = if ltb_ℤ page (pos 1) then pos 1 else page in
    let some_size : ℤ = if ltb_ℤ size (pos 1) then pos 10 else size in
    slice_from (mul_int64 (at_least_one +ℤ negsuc 0) some_size) (pos_part some_size) all

unfoldable pub readable : List (Option WorkflowState) → List WorkflowState
readable [] = []
readable (none ∷ rs) = readable rs
readable (some s ∷ rs) = s ∷ readable rs

-- `load` is `LoadExecutions` of the history store from an offset, each record as what the JSON
-- library reads in it; `none` is its error.
unfoldable pub list_history_paged :
    (ℤ → ℤ → Option (List (Option WorkflowState) × ℕ)) → ℤ → ℤ → Manager → Paged
unfolding page_in_memory sorted_history_locked readable mul_int64
list_history_paged load page page_size m =
    let size : ℤ =
      if ltb_ℤ max_history_page_size page_size then max_history_page_size else page_size in
    let stored : Option (List (Option WorkflowState) × ℕ) =
      if m.has_history_store then load (mul_int64 (page +ℤ negsuc 0) size) size else none in
    elim stored [
      | none ↦ page_in_memory page size (sorted_history_locked m.workflow_history)
      | some r ↦ paged (readable r.0) r.1
    ]
