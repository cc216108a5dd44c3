-- ===== src/Scheduler/History/Paged/Joined.antt =====
-- infra/engine/scheduler/workflow_manager.go: all pages of the history, one after the other.
use vibeflow.Prelude.{
  ℕ, zero, suc, ◌+◌, ◌*◌, ◌≤◌, ◌<◌, ◌^◌, ◌≡◌, ap, sym, ◌∙◌, List, [], ◌∷◌, ◌++◌, Option, none, ℤ,
  pos, negsuc, length, drop, arith, Map, ltb, ltb_ℤ, none, some, if_false, Bool-cases, inl, inr,
  ◌+ℤ◌, if◌then◌else◌, false,
}
use mathlib.Core.List.{Perm}
use mathlib.Core.List.Perm
use native.Mathlib.Nat.{mul-le-mul_left}
use vibeflow.Heap.{take}
use vibeflow.Model.Workflow.{WorkflowState}
use vibeflow.Scheduler.State.{Manager}
use vibeflow.Scheduler.History.Paged.{
  Paged, insert_latest, panics, paged, readable, mul_int64, slice_from, page_in_memory,
  sorted_history_locked, list_history_paged,
}
use vibeflow.Scheduler.History.Paged.Sliced.{
  take-add, take-all, slice_from-pos, mul_int64-small, page_in_memory-pos, mul_int64-negative,
}

abbrev Pages : Type 0
Pages = ℤ → ℤ → Option (List (Option WorkflowState) × ℕ)

-- Without a history store.
in_memory :
    (load : Pages) (page : ℤ) (size : ℕ) (m : Manager)
    → m.has_history_store ≡ false
    → size ≤ 100
    → list_history_paged load page (pos size) m
      ≡ page_in_memory page (pos size) (sorted_history_locked m.workflow_history)
unfolding list_history_paged
in_memory load page size m none_there small =
    let stored : ℤ → Option (List (Option WorkflowState) × ℕ) =
      λ s. if m.has_history_store then load (mul_int64 (page +ℤ negsuc 0) s) s else none in
    let all = sorted_history_locked m.workflow_history in
    let answer : ℤ → Option (List (Option WorkflowState) × ℕ) → Paged =
      λ s r. elim r [ none ↦ page_in_memory page s all | some r ↦ paged (readable r.0) r.1 ] in
    let size_kept : (if ltb_ℤ (pos 100) (pos size) then pos 100 else pos size) ≡ pos size =
      if_false (ltb_ℤ (pos 100) (pos size)) (pos 100) _ (ground (arith, small)) in
    ap (λ s. answer s (stored s)) size_kept ∙ ap (answer (pos size)) (if_false _ _ _ none_there)

abbrev pub items : Paged → List WorkflowState
items panics = []
items (paged l total) = l

-- The first `n` pages.
abbrev pub pages : Pages → ℕ → Manager → ℕ → List WorkflowState
pages load size m zero = []
pages load size m (suc n) =
    pages load size m n ++ items (list_history_paged load (pos (suc n)) (pos size) m)

pages-take :
    (load : Pages) (size : ℕ) (m : Manager) (n : ℕ)
    → m.has_history_store ≡ false
    → 1 ≤ size
    → size ≤ 100
    → n < 2 ^ 56
    → pages load size m n ≡ take (n * size) (sorted_history_locked m.workflow_history)
pages-take load size m zero none_there p small few =
    let e : 0 * size ≡ 0 = omega arith in
    sym (ap (λ k. take k (sorted_history_locked m.workflow_history)) e)
pages-take load size m (suc n) none_there p small few =
    let all = sorted_history_locked m.workflow_history in
    let fits : n * size < 2 ^ 63 = omega (arith, few, mul-le-mul_left n small) in
    let e : suc n * size ≡ n * size + size = omega arith in
    let page : list_history_paged load (pos (suc n)) (pos size) m
        ≡ paged (take size (drop (n * size) all)) (length all) =
      in_memory load (pos (suc n)) size m none_there small
      ∙ page_in_memory-pos n size all p
      ∙ ap (λ x. slice_from x size all)
          (mul_int64-small n size (omega (arith, few)) (omega (arith, small)) fits)
      ∙ slice_from-pos (n * size) size all in
    ap (λ p. pages load size m n ++ items p) page
    ∙ ap (λ xs. xs ++ take size (drop (n * size) all))
        (pages-take load size m n none_there p small (omega (arith, few)))
    ∙ sym (ap (λ k. take k all) e ∙ take-add (n * size) size all)

insert_latest-Perm : (s : WorkflowState) (l : List WorkflowState) → Perm (insert_latest s l) (s ∷ l)
unfolding insert_latest
insert_latest-Perm s [] = Perm.rfl
insert_latest-Perm s (t ∷ ts) = elim (Bool-cases (ltb s.execution_id t.execution_id)) [
  | inl later ↦ rw later (Perm.trans (Perm.cons t (insert_latest-Perm s ts)) (Perm.swap s t ts))
  | inr latest ↦ rw latest Perm.rfl
]

abbrev pub states : Map ℕ WorkflowState → List WorkflowState
states [] = []
states ((id, s) ∷ history) = s ∷ states history

sorted-Perm :
    (history : Map ℕ WorkflowState) → Perm (sorted_history_locked history) (states history)
unfolding sorted_history_locked
sorted-Perm [] = Perm.rfl
sorted-Perm ((id, s) ∷ history) =
    Perm.trans (insert_latest-Perm s (sorted_history_locked history))
      (Perm.cons s (sorted-Perm history))

-- Without a history store and for a page size between 1 and 100, as many pages as the history
-- needs, fewer than 2 ^ 56, are, one after the other, the history in its order: each execution that
-- is kept stands on exactly one of them.
pub pages-Perm :
    (load : Pages) (size : ℕ) (m : Manager) (n : ℕ)
    → m.has_history_store ≡ false
    → 1 ≤ size
    → size ≤ 100
    → n < 2 ^ 56
    → length (sorted_history_locked m.workflow_history) ≤ n * size
    → (pages load size m n ≡ sorted_history_locked m.workflow_history)
      × Perm (pages load size m n) (states m.workflow_history)
pages-Perm load size m n none_there p small few enough =
    let all = sorted_history_locked m.workflow_history in
    let same : pages load size m n ≡ all =
      pages-take load size m n none_there p small few ∙ take-all (n * size) all enough in
    (same, rw same (sorted-Perm m.workflow_history))

-- Without a history store, a page so far out that its offset does not fit 63 bits, but fits 64, is
-- not an empty page: the offset is negative and the program panics, whatever the history holds.
pub huge_page-panics :
    (load : Pages) (k size : ℕ) (m : Manager)
    → m.has_history_store ≡ false
    → 1 ≤ size
    → size ≤ 100
    → k < 2 ^ 63
    → 2 ^ 63 ≤ k * size
    → k * size < 2 ^ 64
    → list_history_paged load (pos (suc k)) (pos size) m ≡ panics
unfolding slice_from
huge_page-panics load k size m none_there p small far over top =
    let all = sorted_history_locked m.workflow_history in
    in_memory load (pos (suc k)) size m none_there small
    ∙ page_in_memory-pos k size all p
    ∙ ap (λ x. slice_from x size all)
        (mul_int64-negative k size far (omega (arith, small)) over top)
