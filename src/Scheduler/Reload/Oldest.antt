-- ===== src/Scheduler/Reload/Oldest.antt =====
-- infra/engine/scheduler/repository.go: which execution of a workflow the history answers with after a
-- restart.
use vibeflow.Prelude.{
  ℕ, ◌≤◌, ◌<◌, ◌≡◌, refl, ap, ◌∙◌, true, String, List, [], ◌∷◌, ◌++◌, Option, none, some, length,
  length-append, lookup, lookup-insert, string_eq, nat_eq, if_true, if◌then◌else◌, ◌==◌, arith,
  Option-cases, inl, inr,
}
use mathlib.Core.List.{reverse, reverse-cons}
use vibeflow.Model.Workflow.{WorkflowState}
use vibeflow.Scheduler.State.{Manager, System, ids_or_none}
use vibeflow.Scheduler.Lifecycle.{latest_id, get_history}
use vibeflow.Scheduler.History.Latest.{last_id-snoc}
use vibeflow.Scheduler.History.Paged.Sliced.{take-all}
use vibeflow.Heap.{take}
use vibeflow.Scheduler.Reload.{
  ExecutionRecord, load_executions, max_in_memory, remember, load_record, load_records,
  load_history,
}

-- The first execution of the workflow in the table that can be read.
abbrev pub first_id : String → List ExecutionRecord → Option ℕ
first_id uuid [] = none
first_id uuid (r ∷ rs) = elim r.decoded [
  | none ↦ first_id uuid rs
  | some st ↦ if r.uuid == uuid then some r.execution_id else first_id uuid rs
]

abbrev pub first_state : String → List ExecutionRecord → Option WorkflowState
first_state uuid [] = none
first_state uuid (r ∷ rs) = elim r.decoded [
  | none ↦ first_state uuid rs
  | some st ↦ if r.uuid == uuid then some st else first_state uuid rs
]

abbrev pub Above : ℕ → List ExecutionRecord → Type 0
Above n [] = Unit {0}
Above n (r ∷ rs) = (n < r.execution_id) × Above n rs

-- The ids rise along the table.
abbrev pub Rising : List ExecutionRecord → Type 0
Rising [] = Unit {0}
Rising (r ∷ rs) = Above r.execution_id rs × Rising rs

load-append :
    (xs : List ExecutionRecord) (r : ExecutionRecord) (m : Manager)
    → load_records (xs ++ r ∷ []) m ≡ load_record r (load_records xs m)
unfolding load_records
load-append [] r m = refl
load-append (x ∷ xs) r m = load-append xs r (load_record x m)

-- The history of a table that is read backwards.
abbrev pub read_back : List ExecutionRecord → Manager → Manager
read_back [] m = m
read_back (r ∷ rs) m = load_record r (read_back rs m)

load-reverse :
    (rs : List ExecutionRecord) (m : Manager) → load_records (reverse rs) m ≡ read_back rs m
unfolding load_records
load-reverse [] m = refl
load-reverse (r ∷ rs) m =
    ap (λ l. load_records l m) (reverse-cons r rs)
    ∙ load-append (reverse rs) r m
    ∙ ap (load_record r) (load-reverse rs m)

-- The state that the table holds under an id.
abbrev state_at : ℕ → List ExecutionRecord → Option WorkflowState
state_at id [] = none
state_at id (r ∷ rs) = elim r.decoded [
  | none ↦ state_at id rs
  | some st ↦ if r.execution_id == id then some st else state_at id rs
]

module _ (m : Manager) (fresh : m.history_by_uuid ≡ []) (no_history : m.workflow_history ≡ []) where
  read_back-id :
      (uuid : String) (rs : List ExecutionRecord)
      → latest_id (lookup uuid (read_back rs m).history_by_uuid) ≡ first_id uuid rs
  unfolding load_record remember lookup
  read_back-id uuid [] = rw fresh refl
  read_back-id uuid (r ∷ rs) = elim (Option-cases r.decoded) [
    | inl n ↦ rw (n, load_record) (read_back-id uuid rs)
    | inr (st, n) ↦
        let m' = read_back rs m in
        let ids = ids_or_none (lookup r.uuid m'.history_by_uuid) in
        rw (n, load_record)
          (ap latest_id (lookup-insert r.uuid uuid (ids ++ r.execution_id ∷ []) m'.history_by_uuid)
            ∙ ground (arith, last_id-snoc ids r.execution_id, read_back-id uuid rs))
  ]

  read_back-state :
      (id : ℕ) (rs : List ExecutionRecord)
      → lookup id (read_back rs m).workflow_history ≡ state_at id rs
  unfolding load_record remember lookup
  read_back-state id [] = rw no_history refl
  read_back-state id (r ∷ rs) = elim (Option-cases r.decoded) [
    | inl n ↦ rw (n, load_record) (read_back-state id rs)
    | inr (st, n) ↦
        rw (n, load_record)
          (lookup-insert r.execution_id id st (read_back rs m).workflow_history
            ∙ ground (arith, read_back-state id rs))
  ]

-- An id of the rest of the table is not that of the row before it.
first_id-Above :
    (n id : ℕ) (uuid : String) (rs : List ExecutionRecord)
    → Above n rs
    → first_id uuid rs ≡ some id
    → n < id
first_id-Above n id uuid [] a h = absurd (cc)
first_id-Above n id uuid (r ∷ rs) (a, as') h = ground (arith, first_id-Above n id uuid rs as')

-- With rising ids, the state under the first id is the first state.
found : String → List ExecutionRecord → Option WorkflowState
found uuid rs = elim (first_id uuid rs) [ none ↦ none | some id ↦ state_at id rs ]

found-first :
    (uuid : String) (rs : List ExecutionRecord) → Rising rs → found uuid rs ≡ first_state uuid rs
unfolding found
found-first uuid [] rising = refl
found-first uuid (r ∷ rs) (above, rising) =
    let rest = found-first uuid rs rising in
    elim (Option-cases (first_id uuid rs)) [
      | inl k ↦ ground (arith, k, rest)
      | inr (id, k) ↦
          let past = first_id-Above r.execution_id id uuid rs above k in
          ground (arith, k, rest, past)
    ]

length-reverse : (rs : List ExecutionRecord) → length (reverse rs) ≡ length rs
length-reverse [] = refl
length-reverse (r ∷ rs) =
    ap length (reverse-cons r rs)
    ∙ length-append (reverse rs) (r ∷ [])
    ∙ omega (arith, length-reverse rs)

loaded :
    (table : List ExecutionRecord) (m : Manager)
    → m.has_history_store ≡ true
    → length table ≤ max_in_memory m.max_history_cache
    → load_history (λ offset limit. some (load_executions table offset limit)) m ≡ read_back table m
unfolding load_history load_executions
loaded table m store room =
    let limit = max_in_memory m.max_history_cache in
    let all : take limit (reverse table) ≡ reverse table =
      take-all limit (reverse table) (omega (arith, length-reverse table, room)) in
    if_true _ _ _ store ∙ ap (λ rs. load_records rs m) all ∙ load-reverse table m

answered :
    (uuid : String) (table : List ExecutionRecord) (s : System)
    → s.wm.history_by_uuid ≡ []
    → s.wm.workflow_history ≡ []
    → get_history uuid (record s { wm = read_back table s.wm }) ≡ found uuid table
unfolding get_history found
answered uuid table s fresh none_kept =
    let id_is = read_back-id s.wm fresh none_kept uuid table in
    elim (Option-cases (first_id uuid table)) [
      | inl n ↦ ground (arith, n, id_is)
      | inr (id, n) ↦ ground (arith, n, id_is, read_back-state s.wm fresh none_kept id table)
    ]

-- A master that starts with an empty history, with room for the whole table of executions, whose ids
-- rise, answers for each workflow with the oldest of its executions that can be read.
pub load_history-oldest :
    (uuid : String) (table : List ExecutionRecord) (s : System)
    → s.wm.has_history_store ≡ true
    → s.wm.history_by_uuid ≡ []
    → s.wm.workflow_history ≡ []
    → length table ≤ max_in_memory s.wm.max_history_cache
    → Rising table
    → get_history uuid (record s {
      wm = load_history (λ offset limit. some (load_executions table offset limit)) s.wm;
    })
      ≡ first_state uuid table
unfolding load_history load_executions get_history
load_history-oldest uuid table s store fresh none_kept room rising =
    let kept = λ (m : Manager). get_history uuid (record s { wm = m }) in
    ap kept (loaded table s.wm store room)
    ∙ answered uuid table s fresh none_kept
    ∙ found-first uuid table rising
