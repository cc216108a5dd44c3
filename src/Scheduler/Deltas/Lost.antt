-- ===== src/Scheduler/Deltas/Lost.antt =====
-- infra/engine/scheduler/repository.go: what becomes of the snapshots of a running workflow when the
-- master starts again.
use vibeflow.Prelude.{
  ℕ, ◌≡◌, refl, sym, ap, ◌∙◌, true, false, Bool, String, List, [], ◌∷◌, Map, Option, none, some,
  any, nat_eq, nat_beq, nat_beq_iff, if_true, if_false, subst, string_eq, zero, if◌then◌else◌, ◌==◌,
  suc, arith, Option-cases, Bool-cases, inl, inr,
}
use vibeflow.Model.Workflow.{WorkflowState}
use vibeflow.Model.Delta.{TaskDelta, apply_deltas, apply_delta}
use vibeflow.Scheduler.State.{System}
use vibeflow.Scheduler.Snapshot.{recover_single_workflow}
use vibeflow.Scheduler.Deltas.Grouped.{stored_deltas-batch}
use vibeflow.Scheduler.Deltas.{
  Json, Elements, element, ◌+++◌, DeltaRows, WorkflowSnapshot, marshal_snapshot, group_rows, batch,
  elements_of, batch_load_task_deltas, empty_delta, text, member, no_member, text_member,
  read_members, read_member, unmarshal_delta, unmarshal_deltas, flatten, decoded_deltas,
  stored_deltas, load_task_deltas, RunningRecord, ids_of, recover_record, recover_records,
  recover_running_workflows,
}

unread-error :
    (e updated : String)
    → read_members
        (text_member "error" e (member "updated_at" (text updated) no_member))
        empty_delta
      ≡ some empty_delta
unfolding read_members read_member
unread-error e updated = elim (Bool-cases (e == "")) [ inl b ↦ rw b refl | inr b ↦ rw b refl ]

-- No key of a snapshot is one of a delta.
marshal_snapshot_lem :
    (w : WorkflowSnapshot) → unmarshal_delta (marshal_snapshot w) ≡ some empty_delta
unfolding unmarshal_delta marshal_snapshot read_members read_member
marshal_snapshot_lem w = go w.changed_tasks refl
  where
    go :
        (ds : List TaskDelta)
        → w.changed_tasks ≡ ds
        → unmarshal_delta (marshal_snapshot w) ≡ some empty_delta
    go [] h = rw h (unread-error w.error w.updated_at)
    go (d ∷ ds) h = rw h (unread-error w.error w.updated_at)

-- The rows that hold these snapshots.
abbrev pub snapshot_rows : List (ℕ × WorkflowSnapshot) → DeltaRows
snapshot_rows [] = []
snapshot_rows ((i, w) ∷ rows) = (i, marshal_snapshot w) ∷ snapshot_rows rows

-- So many empty deltas.
unfoldable pub blanks : ℕ → List TaskDelta
blanks zero = []
blanks (suc n) = empty_delta ∷ blanks n

apply_deltas-blanks : (n : ℕ) (st : WorkflowState) → apply_deltas (blanks n) st ≡ st
unfolding apply_deltas apply_delta blanks
apply_deltas-blanks zero st = refl
apply_deltas-blanks (suc n) st = apply_deltas-blanks n st

-- What decodes to empty deltas.
abbrev pub Blank : Elements → Type 0
Blank js = (n : ℕ) × (unmarshal_deltas js ≡ some (blanks n))

Blank-element :
    (j : Json) (js : Elements)
    → unmarshal_delta j ≡ some empty_delta
    → Blank js
    → Blank (element j js)
unfolding unmarshal_deltas blanks
Blank-element j js h (n, k) = (suc n, rw (h, k, unmarshal_deltas) refl)

Blank-batch :
    (w : WorkflowSnapshot) (js : Elements) → Blank js → Blank (batch (marshal_snapshot w) +++ js)
unfolding marshal_snapshot
Blank-batch w js b = Blank-element (marshal_snapshot w) js (marshal_snapshot_lem w) b

flatten-Blank :
    (id : ℕ) (rows : List (ℕ × WorkflowSnapshot))
    → Blank (elements_of (flatten id (snapshot_rows rows)))
unfolding flatten unmarshal_deltas blanks
flatten-Blank id [] = (0, refl)
flatten-Blank id ((i, w) ∷ rows) =
    let rest = flatten-Blank id rows in
    let now = flatten id (snapshot_rows rows) in
    elim (Bool-cases (nat_beq i id)) [
      | inl same ↦
          subst (λ k. Blank (elements_of k)) (sym (if_true _ _ _ same))
            (Blank-batch w (elements_of now) rest)
      | inr other ↦ subst (λ k. Blank (elements_of k)) (sym (if_false _ _ _ other)) rest
    ]

decoded_deltas-Blank :
    (k : Option Elements) (st : WorkflowState)
    → Blank (elements_of k)
    → apply_deltas (decoded_deltas k) st ≡ st
unfolding decoded_deltas apply_deltas
decoded_deltas-Blank none st b = refl
decoded_deltas-Blank (some js) st (n, h) = rw (h, decoded_deltas) (apply_deltas-blanks n st)

-- Whatever the batch answers with, or not, no delta of the execution changes its state.
apply-stored :
    (ids : List ℕ) (id : ℕ) (rows : List (ℕ × WorkflowSnapshot)) (st : WorkflowState)
    → any (λ x. nat_beq x id) ids ≡ true
    → apply_deltas
        (stored_deltas (batch_load_task_deltas ids (snapshot_rows rows)) (snapshot_rows rows) id)
        st
      ≡ st
unfolding load_task_deltas
apply-stored ids id rows st asked =
    let ds = λ (l : List TaskDelta). apply_deltas l st in
    ap ds (stored_deltas-batch ids id (snapshot_rows rows) asked)
    ∙ decoded_deltas-Blank (flatten id (snapshot_rows rows)) st (flatten-Blank id rows)

-- The ids that are asked for have these records.
abbrev pub Asked : List ℕ → List RunningRecord → Type 0
Asked ids [] = Unit {0}
Asked ids (r ∷ rs) = (any (λ x. nat_beq x r.execution_id) ids ≡ true) × Asked ids rs

any-cons :
    (i id : ℕ) (ids : List ℕ)
    → any (λ x. nat_beq x id) ids ≡ true
    → any (λ x. nat_beq x id) (i ∷ ids) ≡ true
unfolding any
any-cons i id ids h = elim (Bool-cases (nat_beq i id)) [
  | inl b ↦ ground (arith, h, b)
  | inr b ↦ ground (arith, h, b)
]

any-first : (id : ℕ) (ids : List ℕ) → any (λ x. nat_beq x id) (id ∷ ids) ≡ true
unfolding any
any-first id ids = rw ((nat_beq_iff id id).1 refl) refl

Asked-cons : (i : ℕ) (ids : List ℕ) (rs : List RunningRecord) → Asked ids rs → Asked (i ∷ ids) rs
Asked-cons i ids [] a = tt
Asked-cons i ids (r ∷ rs) (a, as') = (any-cons i r.execution_id ids a, Asked-cons i ids rs as')

Asked-ids_of : (rs : List RunningRecord) → Asked (ids_of rs) rs
Asked-ids_of [] = tt
Asked-ids_of (r ∷ rs) = (
  any-first r.execution_id (ids_of rs),
  Asked-cons r.execution_id (ids_of rs) rs (Asked-ids_of rs),
)

-- What the recovery has asked for in one batch, or the nil map.
abbrev pub answer : Bool → List ℕ → DeltaRows → Map ℕ Elements
answer batched ids rows = if batched then batch_load_task_deltas ids rows else []

answer-nothing : (batched : Bool) (ids : List ℕ) → answer batched ids [] ≡ []
unfolding batch_load_task_deltas group_rows
answer-nothing true ids = refl
answer-nothing false ids = refl

apply-answer :
    (batched : Bool) (ids : List ℕ) (id : ℕ) (rows : List (ℕ × WorkflowSnapshot))
    (st : WorkflowState)
    → any (λ x. nat_beq x id) ids ≡ true
    → apply_deltas
        (stored_deltas (answer batched ids (snapshot_rows rows)) (snapshot_rows rows) id)
        st
      ≡ st
unfolding load_task_deltas stored_deltas
apply-answer true ids id rows st asked = apply-stored ids id rows st asked
apply-answer false ids id rows st asked =
    decoded_deltas-Blank (flatten id (snapshot_rows rows)) st (flatten-Blank id rows)

recover-single :
    (ds : List TaskDelta) (st : WorkflowState) (now : ℕ) (s : System)
    → apply_deltas ds st ≡ st
    → recover_single_workflow st ds now s ≡ recover_single_workflow st [] now s
unfolding recover_single_workflow apply_deltas
recover-single ds st now s h = rw h refl

module _ (batched : Bool) (ids : List ℕ) (rows : List (ℕ × WorkflowSnapshot)) (now : ℕ) where
  all_rows : DeltaRows
  all_rows = snapshot_rows rows

  all : Map ℕ Elements
  all = answer batched ids all_rows

  recover_record-lost :
      (r : RunningRecord) (s : System)
      → any (λ x. nat_beq x r.execution_id) ids ≡ true
      → recover_record all all_rows now r s ≡ recover_record [] [] now r s
  unfolding recover_record stored_deltas decoded_deltas load_task_deltas flatten all all_rows
  recover_record-lost r s a = elim (Option-cases r.decoded) [
    | inl n ↦ rw (n, recover_record) refl
    | inr (st, n) ↦
        rw (n, recover_record)
          (recover-single (stored_deltas all all_rows r.execution_id) st now s
            (apply-answer batched ids r.execution_id rows st a))
  ]

  recover_records-lost :
      (rs : List RunningRecord) (s : System)
      → Asked ids rs
      → recover_records all all_rows now rs s ≡ recover_records [] [] now rs s
  unfolding recover_records recover_record stored_deltas decoded_deltas load_task_deltas flatten
  recover_records-lost [] s a = refl
  recover_records-lost (r ∷ rs) s (a, as') =
      ap (recover_records all all_rows now rs) (recover_record-lost r s a)
      ∙ recover_records-lost rs (recover_record [] [] now r s) as'

-- Where all that was stored of the running workflows are snapshots, their recovery is as if nothing had
-- been stored, whether or not the batch is answered.
pub recover_running_workflows-snapshots :
    (batched : Bool) (rows : List (ℕ × WorkflowSnapshot)) (now : ℕ) (rs : List RunningRecord)
    (s : System)
    → recover_running_workflows batched (snapshot_rows rows) now rs s
      ≡ recover_running_workflows batched [] now rs s
unfolding recover_running_workflows all all_rows
recover_running_workflows-snapshots batched rows now rs s =
    elim (Bool-cases s.wm.has_history_store) [
      | inl kept ↦
          if_true _ _ _ kept
          ∙ recover_records-lost batched (ids_of rs) rows now rs s (Asked-ids_of rs)
          ∙ ap (λ m. recover_records m [] now rs s) (sym (answer-nothing batched (ids_of rs)))
          ∙ sym (if_true _ _ _ kept)
      | inr none_kept ↦ if_false _ _ _ none_kept ∙ sym (if_false _ _ _ none_kept)
    ]
