-- ===== src/Scheduler/History/Latest.antt =====
-- infra/engine/scheduler/workflow_manager.go: the execution that was archived last is the one that
-- the history answers with.
use vibeflow.Prelude.{
  ℕ, zero, suc, ◌-◌, ◌<◌, ◌≡◌, refl, sym, ap, ◌∙◌, ◌≢◌, false, String, List, [], ◌∷◌, ◌++◌, Map,
  some, ℤ, lookup, insert, delete, lookup-insert, lookup-delete, string_eq, nat_eq, length,
  length-append, drop, any, nat_beq, arith, Option-cases, inl, inr, beq_refl, subst,
}
use vibeflow.Model.Workflow.{WorkflowState, WorkflowStatus}
use vibeflow.Scheduler.State.{
  Manager, System, ids_or_none, keep_latest, remove_first, put_ids, remove_history_by_uuid, forget,
  max_cache, evict, archive, count_outcome, trim_history, persist_workflow_locked,
}
use vibeflow.Scheduler.Lifecycle.{last_id, latest_id, get_history}

last_id-cons : (y a : ℕ) (l : List ℕ) → last_id l ≡ some a → last_id (y ∷ l) ≡ some a
last_id-cons y a [] h = cc
last_id-cons y a (x ∷ xs) h = h

-- Removing another id keeps the last one last.
last_id-remove_first :
    (x id : ℕ) (ids : List ℕ)
    → last_id ids ≡ some id
    → x ≢ id
    → last_id (remove_first x ids) ≡ some id
unfolding remove_first
last_id-remove_first x id [] h n = cc
last_id-remove_first x id (y ∷ []) h n = ground arith
last_id-remove_first x id (y ∷ (z ∷ zs)) h n =
    let rest = last_id-remove_first x id (z ∷ zs) h n in
    ground (arith, rest, last_id-cons y id (remove_first x (z ∷ zs)) rest)

pub last_id-snoc : (ids : List ℕ) (id : ℕ) → last_id (ids ++ id ∷ []) ≡ some id
last_id-snoc [] id = refl
last_id-snoc (x ∷ []) id = refl
last_id-snoc (x ∷ (y ∷ ys)) id = last_id-snoc (y ∷ ys) id

last_id-drop :
    (n id : ℕ) (ids : List ℕ)
    → n < length ids
    → last_id ids ≡ some id
    → last_id (drop n ids) ≡ some id
last_id-drop zero id ids l h = h
last_id-drop (suc n) id [] l h = elim l [ ]
last_id-drop (suc n) id (x ∷ []) l h = absurd (omega arith)
last_id-drop (suc n) id (x ∷ (y ∷ ys)) l h = last_id-drop n id (y ∷ ys) (omega arith) h

last_id-keep_latest : (ids : List ℕ) (id : ℕ) → last_id (keep_latest (ids ++ id ∷ [])) ≡ some id
unfolding keep_latest
last_id-keep_latest ids id = ground (
  arith,
  last_id-snoc ids id,
  length-append ids (id ∷ []),
  last_id-drop (length (ids ++ id ∷ []) - 10) id (ids ++ id ∷ []),
)

latest-put_ids :
    (owner uuid : String) (id : ℕ) (ids : List ℕ) (by : Map String (List ℕ))
    → (owner ≡ uuid → last_id ids ≡ some id)
    → latest_id (lookup uuid by) ≡ some id
    → latest_id (lookup uuid (put_ids owner ids by)) ≡ some id
unfolding put_ids
latest-put_ids owner uuid id [] by own h =
    ground (arith, lookup-delete owner uuid by, string_eq.beq_iff owner uuid, own)
latest-put_ids owner uuid id (x ∷ xs) by own h =
    ground (arith, lookup-insert owner uuid (x ∷ xs) by, string_eq.beq_iff owner uuid, own)

latest-forget :
    (x id : ℕ) (uuid : String) (h : Map ℕ WorkflowState) (by : Map String (List ℕ))
    → x ≢ id
    → latest_id (lookup uuid by) ≡ some id
    → latest_id (lookup uuid (forget x h by)) ≡ some id
unfolding forget remove_history_by_uuid
latest-forget x id uuid h by n e = elim (Option-cases (lookup x h)) [
  | inl gone ↦ rw (gone, forget) e
  | inr (old, there) ↦
      rw (there, forget)
        (elim (Option-cases (lookup old.workflow_uuid by)) [
          | inl gone ↦ rw (gone, remove_history_by_uuid) e
          | inr (ids, listed) ↦
              rw (listed, remove_history_by_uuid)
                (latest-put_ids old.workflow_uuid uuid id (remove_first x ids) by
                  (λ same.
                    last_id-remove_first x id ids
                      (subst (λ o. latest_id o ≡ some id)
                        (ap (λ u. lookup u by) (sym same) ∙ listed) e)
                      n)
                  e)
        ])
]

-- With room for one execution, eviction never reaches the newest one.
evict-newest :
    (limit id : ℕ) (uuid : String) (order : List ℕ) (h : Map ℕ WorkflowState)
    (by : Map String (List ℕ))
    → 0 < limit
    → any (λ x. nat_beq x id) order ≡ false
    → latest_id (lookup uuid by) ≡ some id
    → (lookup id (evict limit (order ++ id ∷ []) h by).1 ≡ lookup id h)
      × (latest_id (lookup uuid (evict limit (order ++ id ∷ []) h by).2) ≡ some id)
unfolding evict any
evict-newest limit id uuid [] h by room fresh e = ground arith
evict-newest limit id uuid (x ∷ order) h by room fresh e = ground (
  arith,
  lookup-delete x id h,
  latest-forget x id uuid h by,
  evict-newest limit id uuid order (delete x h) (forget x h by) room,
)

max_cache_pos : (n : ℤ) → 0 < max_cache n
unfolding max_cache
max_cache_pos n = ground arith

module _ (uuid : String) (st : WorkflowState) (m : Manager)
    (fresh : any (λ x. nat_beq x st.execution_id) m.history_order ≡ false) where
  abbrev ids : List ℕ
  ids = keep_latest (ids_or_none (lookup uuid m.history_by_uuid) ++ st.execution_id ∷ [])

  archived_newest :
      (lookup st.execution_id (trim_history (archive uuid st m)).workflow_history ≡ some st)
      × (latest_id (lookup uuid (trim_history (archive uuid st m)).history_by_uuid)
          ≡ some st.execution_id)
  unfolding trim_history archive
  archived_newest =
      let id = st.execution_id in
      let listed : latest_id (lookup uuid (insert uuid ids m.history_by_uuid)) ≡ some id =
        simp (lookup-insert, beq_refl)
          (last_id-keep_latest (ids_or_none (lookup uuid m.history_by_uuid)) id) in
      let kept =
        evict-newest (max_cache m.max_history_cache) id uuid m.history_order
          (insert id st m.workflow_history) (insert uuid ids m.history_by_uuid)
          (max_cache_pos m.max_history_cache) fresh listed in
      let found : lookup id (insert id st m.workflow_history) ≡ some st =
        simp (lookup-insert, beq_refl) in
      (kept.0 ∙ found, kept.1)

  counted_newest :
      (t : WorkflowStatus)
      → (lookup st.execution_id
            (trim_history (count_outcome t (archive uuid st m))).workflow_history
          ≡ some st)
        × (latest_id
              (lookup uuid (trim_history (count_outcome t (archive uuid st m))).history_by_uuid)
            ≡ some st.execution_id)
  unfolding count_outcome trim_history archived_newest
  counted_newest WorkflowStatus.completed = archived_newest
  counted_newest _ = archived_newest

-- A workflow that has just ended is what the history answers for its UUID, whatever was evicted to
-- make room, provided that its execution id is not in use.
pub get_history-persist :
    (uuid : String) (st : WorkflowState) (s : System)
    → any (λ x. nat_beq x st.execution_id) s.wm.history_order ≡ false
    → get_history uuid (persist_workflow_locked uuid st s) ≡ some st
unfolding get_history persist_workflow_locked
get_history-persist uuid st s fresh =
    let newest = counted_newest uuid st s.wm fresh st.status in rw (newest.1, get_history) newest.0
