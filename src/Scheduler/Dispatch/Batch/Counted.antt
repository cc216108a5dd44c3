-- ===== src/Scheduler/Dispatch/Batch/Counted.antt =====
-- infra/engine/scheduler/task_dispatcher.go, `batchPush`: what becomes of the slots.
use vibeflow.Prelude.{
  ℕ, ◌+◌, ◌≡◌, refl, sym, ap, Bool, true, String, List, [], ◌∷◌, ◌++◌, Option, none, some, ℤ, pos,
  ◌+ℤ◌, int_laws, pos_part, neg_part, +ℤ_parts, ℤ_eq_of_parts, arith, ltb, length, string_eq, ◌==◌,
  Bool-cases, Option-cases, inl, inr, subst,
}
use vibeflow.Model.Workflow.{Workflow}
use vibeflow.Store.{TaskPayload}
use vibeflow.Scheduler.Dispatch.{Config, PendingTask, Slots, payload_of, wf_active}
use vibeflow.Scheduler.Dispatch.Batch.Returned.{one_if, given_back-global, given_back-workflow}
use vibeflow.Scheduler.Dispatch.Batch.{
  Batch, give_back, add_known, add_to_batch, build_batch, give_all_back, batch_push,
}

-- How many elements pass the test.
abbrev pub counted {ℓ} : {A : Type ℓ} → (A → Bool) → List A → ℕ
counted f [] = 0
counted f (x ∷ xs) = one_if (f x) + counted f xs

counted-snoc {ℓ} :
    {A : Type ℓ} (f : A → Bool) (xs : List A) (y : A)
    → counted f (xs ++ y ∷ []) ≡ counted f xs + one_if (f y)
counted-snoc f [] y = omega arith
counted-snoc f (x ∷ xs) y = omega (arith, counted-snoc f xs y)

counted_all {ℓ} : {A : Type ℓ} (xs : List A) → counted (λ x. true) xs ≡ length xs
counted_all [] = refl
counted_all (x ∷ xs) = omega (arith, counted_all xs)

-- The tasks that have a workflow that is running.
unfoldable pub known : (String → Option Workflow) → List PendingTask → List PendingTask
known get_state [] = []
known get_state (t ∷ ts) =
    let rest = known get_state ts in
    elim (get_state t.workflow_name) [ none ↦ rest | some wf ↦ t ∷ rest ]

abbrev pub of_task : (String → Bool) → PendingTask → Bool
of_task p t = p t.workflow_name

abbrev pub of_record : (String → Bool) → TaskPayload → Bool
of_record p r = p r.workflow_id

chain :
    (x y z : ℤ) (e k m n o : ℕ)
    → y +ℤ pos (e + k) ≡ z +ℤ pos m
    → x +ℤ pos (n + m) ≡ y +ℤ pos o
    → x +ℤ pos ((e + n) + k) ≡ z +ℤ pos o
chain x y z e k m n o h g = ℤ_eq_of_parts _ _ (
    omega (
      arith,
      ap pos_part h,
      ap neg_part h,
      ap pos_part g,
      ap neg_part g,
      +ℤ_parts y (pos (e + k)),
      +ℤ_parts z (pos m),
      +ℤ_parts x (pos (n + m)),
      +ℤ_parts y (pos o),
      +ℤ_parts x (pos ((e + n) + k)),
      +ℤ_parts z (pos o),
    ))

-- A counter of the slots, for the workflows that pass a test.
module _ (active : Slots → ℤ) (p : String → Bool)
    (returns : (name : String) (s : Slots)
      → active (give_back true name s) +ℤ pos (one_if (p name)) ≡ active s) where
  all_given_back-active :
      (ts : List PendingTask) (s : Slots)
      → active (give_all_back true ts s) +ℤ pos (counted (of_task p) ts) ≡ active s
  unfolding give_all_back
  all_given_back-active [] s = grind int_laws
  all_given_back-active (t ∷ ts) s =
      let one = returns t.workflow_name s in
      let ih = all_given_back-active ts (give_back true t.workflow_name s) in
      grind (int_laws, one, ih)

  module _ (cfg : Config) (get_state : String → Option Workflow)
      (serializes : PendingTask → Bool) where
    abbrev Balanced : ℕ → Batch → Batch → Type 0
    Balanced n r b =
        (counted (of_record p) r.kvs + counted (of_task p) b.occupied
          ≡ counted (of_task p) r.occupied + counted (of_record p) b.kvs)
        × (active r.slots +ℤ pos (n + counted (of_task p) b.occupied)
            ≡ active b.slots +ℤ pos (counted (of_task p) r.occupied))

    add_known-Balanced :
        (t : PendingTask) (wf : Workflow) (b : Batch)
        → Balanced (one_if (p t.workflow_name)) (add_known cfg get_state serializes true t wf b) b
    unfolding add_known payload_of
    add_known-Balanced t wf b = elim (Bool-cases (serializes t)) [
      | inl fine ↦
          let q = payload_of cfg t.workflow_name wf t.node t.upstream_outputs in
          let one = counted-snoc (of_record p) b.kvs q in
          let two = counted-snoc (of_task p) b.occupied t in
          rw fine (omega (arith, one, two), grind (int_laws, two))
      | inr bad ↦
          let one = returns t.workflow_name b.slots in rw bad (omega arith, grind (int_laws, one))
    ]

    build_batch-Balanced :
        (ts : List PendingTask) (b : Batch)
        → Balanced
            (counted (of_task p) (known get_state ts))
            (build_batch cfg get_state serializes true ts b)
            b
    unfolding build_batch add_to_batch known
    build_batch-Balanced [] b = (omega arith, grind int_laws)
    build_batch-Balanced (t ∷ ts) b =
        let next = add_to_batch cfg get_state serializes true t b in
        let n = counted (of_task p) (known get_state ts) in
        let goal = λ (l : List PendingTask).
          Balanced (counted (of_task p) l) (build_batch cfg get_state serializes true ts next) b in
        elim (Option-cases (get_state t.workflow_name)) [
          | inl gone ↦
              let same : next ≡ b = rw (gone, add_to_batch) refl in
              let count : known get_state (t ∷ ts) ≡ known get_state ts = rw (gone, known) refl in
              subst goal (sym count) (
                subst (λ x. Balanced n (build_batch cfg get_state serializes true ts x) b)
                  (sym same) (build_batch-Balanced ts b))
          | inr (wf, there) ↦
              let same : next ≡ add_known cfg get_state serializes true t wf b =
                rw (there, add_to_batch) refl in
              let count : known get_state (t ∷ ts) ≡ t ∷ known get_state ts =
                rw (there, known) refl in
              let one : Balanced (one_if (p t.workflow_name)) next b =
                subst (λ x. Balanced (one_if (p t.workflow_name)) x b) (sym same)
                  (add_known-Balanced t wf b) in
              let rest = build_batch-Balanced ts next in
              subst goal (sym count)
                (omega (arith, one.0, rest.0), chain _ _ _ _ _ _ _ _ one.1 rest.1)
        ]

    batch_push-active :
        (stores : Bool) (ts : List PendingTask) (s : Slots)
        → active (batch_push cfg get_state serializes true stores ts s).0
            +ℤ pos (counted (of_task p) (known get_state ts))
          ≡ active s
            +ℤ pos (counted (of_record p) (batch_push cfg get_state serializes true stores ts s).1)
    unfolding batch_push
    batch_push-active stores ts s =
        let start : Batch = record { slots = s; kvs = []; occupied = [] } in
        let b = build_batch cfg get_state serializes true ts start in
        let (l, g) = build_batch-Balanced ts start in
        let returned = all_given_back-active b.occupied b.slots in
        elim (Bool-cases (ltb 0 (length b.kvs))) [
          | inl some_left ↦ elim (Bool-cases stores) [
            | inl taken ↦ rw (some_left, taken) (grind (int_laws, l, g))
            | inr refused ↦ rw (some_left, refused) (grind (int_laws, l, g, returned))
          ]
          | inr none_left ↦
              let none_written : b.kvs ≡ [] = ground (arith, none_left) in
              let e : counted (of_record p) b.kvs ≡ 0 = ap (counted (of_record p)) none_written in
              rw none_left (grind (int_laws, l, g, e))
        ]

-- Of the tasks of a batch with a limit for all tasks, each one whose workflow is running is written or
-- gives its slots back, and one whose workflow has ended does neither: each counter after the batch,
-- the one of all tasks and that of every workflow, and the number of its tasks with a running workflow are,
-- together, the counter before and the number of its records written.
pub batch_push-counted :
    (cfg : Config) (get_state : String → Option Workflow) (serializes : PendingTask → Bool)
    (stores : Bool) (ts : List PendingTask) (s : Slots) (uuid : String)
    → ((batch_push cfg get_state serializes true stores ts s).0.global_active
          +ℤ pos (length (known get_state ts))
        ≡ s.global_active +ℤ pos (length (batch_push cfg get_state serializes true stores ts s).1))
      × (wf_active uuid (batch_push cfg get_state serializes true stores ts s).0
            +ℤ pos (counted (λ t. t.workflow_name == uuid) (known get_state ts))
          ≡ wf_active uuid s
            +ℤ pos (
                counted
                  (λ r. r.workflow_id == uuid)
                  (batch_push cfg get_state serializes true stores ts s).1))
batch_push-counted cfg get_state serializes stores ts s uuid =
    let r = batch_push cfg get_state serializes true stores ts s in
    let tasks = counted_all (known get_state ts) in
    let records = counted_all r.1 in
    let all =
      batch_push-active (λ (t : Slots). t.global_active) (λ name. true) given_back-global cfg
        get_state serializes stores ts s in
    (
      grind (int_laws, tasks, records, all),
      batch_push-active (wf_active uuid) (λ name. name == uuid) (given_back-workflow uuid) cfg
          get_state serializes stores ts s,
    )
