-- ===== src/Scheduler/Closed/Bounded.antt =====
-- infra/engine/scheduler/workflow_manager.go: the bounds of the history, under all operations.
use vibeflow.Prelude.{
  ℕ, suc, ◌-◌, ◌≤◌, ◌≡◌, refl, ap, ◌∙◌, subst, Bool, true, false, String, List, [], ◌∷◌, ◌++◌, Map,
  lookup, has, insert, delete, lookup-insert, lookup-delete, string_eq, nat_eq, length, any,
  nat_beq, arith, Option-cases, Bool-cases, inl, inr, ltb, if◌then◌else◌, ◌==◌,
}
use vibeflow.Model.Workflow.{WorkflowState, WorkflowStatus}
use vibeflow.Scheduler.State.{
  Entry, Manager, System, put_entry, ids_or_none, keep_latest, remove_first, put_ids,
  remove_history_by_uuid, forget, max_cache, evict, archive, count_outcome, trim_history,
  persist_workflow_locked,
}
use vibeflow.Scheduler.Lifecycle.{take_from_history}
use vibeflow.Scheduler.History.{cache-count, history-persist_bounded}
use vibeflow.Scheduler.History.Paged.Sliced.{length-drop}
use vibeflow.Scheduler.Closed.{Closed}

-- Whether an execution is in the order in which the history forgets.
abbrev pub ordered : ℕ → List ℕ → Bool
ordered id order = any (λ x. nat_beq x id) order

-- An execution that the history holds is in the order, so that the eviction comes to it.
abbrev pub ListedAt : ℕ → List ℕ → Map ℕ WorkflowState → Type 0
ListedAt id order h = has id h ≡ true → ordered id order ≡ true

abbrev pub RecentAt : String → Map String (List ℕ) → Type 0
RecentAt uuid by = length (ids_or_none (lookup uuid by)) ≤ 10

pub record Remembers (m : Manager) : Type 0 where
  pub bounded : length m.history_order ≤ max_cache m.max_history_cache
  pub listed : (id : ℕ) → ListedAt id m.history_order m.workflow_history
  pub recent : (uuid : String) → RecentAt uuid m.history_by_uuid

has-delete :
    (k j : ℕ) (m : Map ℕ WorkflowState) → has j (delete k m) ≡ (if k == j then false else has j m)
unfolding has
has-delete k j m = ground (arith, lookup-delete k j m)

has-insert :
    (j k : ℕ) (x : WorkflowState) (m : Map ℕ WorkflowState)
    → has k (insert j x m) ≡ (if j == k then true else has k m)
unfolding has
has-insert j k x m = ground (arith, lookup-insert j k x m)

ordered-append :
    (id x : ℕ) (l : List ℕ)
    → ordered id (l ++ x ∷ []) ≡ (if nat_beq x id then true else ordered id l)
unfolding any
ordered-append id x [] = ground arith
ordered-append id x (y ∷ l) = ground (arith, ordered-append id x l)

length-remove_first : (id : ℕ) (l : List ℕ) → length (remove_first id l) ≤ length l
unfolding remove_first
length-remove_first id [] = omega arith
length-remove_first id (x ∷ l) = ground (arith, length-remove_first id l)

ordered-remove_first :
    (x id : ℕ) (l : List ℕ) → nat_beq x id ≡ false → ordered id (remove_first x l) ≡ ordered id l
unfolding remove_first any
ordered-remove_first x id [] n = refl
ordered-remove_first x id (y ∷ l) n = ground (arith, ordered-remove_first x id l n)

put_ids-Recent :
    (owner u : String) (ids : List ℕ) (by : Map String (List ℕ))
    → length ids ≤ 10
    → RecentAt u by
    → RecentAt u (put_ids owner ids by)
unfolding put_ids
put_ids-Recent owner u [] by few r = ground (arith, lookup-delete owner u by)
put_ids-Recent owner u (x ∷ xs) by few r = ground (arith, lookup-insert owner u (x ∷ xs) by)

remove-Recent :
    (owner u : String) (id : ℕ) (by : Map String (List ℕ))
    → ((v : String) → RecentAt v by)
    → RecentAt u (remove_history_by_uuid owner id by)
unfolding remove_history_by_uuid
remove-Recent owner u id by r = elim (Option-cases (lookup owner by)) [
  | inl n ↦ rw (n, remove_history_by_uuid) (r u)
  | inr (ids, n) ↦
      let few : length ids ≤ 10 = subst (λ o. length (ids_or_none o) ≤ 10) n (r owner) in
      rw (n, remove_history_by_uuid)
        (put_ids-Recent owner u (remove_first id ids) by
          (omega (arith, length-remove_first id ids, few)) (r u))
]

forget-Recent :
    (id : ℕ) (u : String) (h : Map ℕ WorkflowState) (by : Map String (List ℕ))
    → ((v : String) → RecentAt v by)
    → RecentAt u (forget id h by)
unfolding forget
forget-Recent id u h by r = elim (Option-cases (lookup id h)) [
  | inl n ↦ rw (n, forget) (r u)
  | inr (old, n) ↦ rw (n, forget) (remove-Recent old.workflow_uuid u id by r)
]

delete-Listed :
    (x id : ℕ) (order : List ℕ) (h : Map ℕ WorkflowState)
    → ListedAt id (x ∷ order) h
    → ListedAt id order (delete x h)
unfolding any
delete-Listed x id order h l there = elim (Bool-cases (nat_beq x id)) [
  | inl same ↦ absurd (ground (arith, has-delete x id h, same, there))
  | inr other ↦
      let l' = l (ground (arith, has-delete x id h, other, there)) in ground (arith, other, l')
]

evict-Listed :
    (limit id : ℕ) (order : List ℕ) (h : Map ℕ WorkflowState) (by : Map String (List ℕ))
    → ListedAt id order h
    → ListedAt id (evict limit order h by).0 (evict limit order h by).1
unfolding evict any
evict-Listed limit id [] h by l = l
evict-Listed limit id (x ∷ order) h by l =
    let gone = delete x h in
    let rest = evict limit order gone (forget x h by) in
    let go : Bool → List ℕ × Map ℕ WorkflowState × Map String (List ℕ) =
      λ b. if b then rest else (x ∷ order, h, by) in
    elim (ltb limit (suc (length order))) as (λ b. ListedAt id (go b).0 (go b).1) [
      | true ↦ evict-Listed limit id order gone (forget x h by) (delete-Listed x id order h l)
      | false ↦ l
    ]

evict-Recent :
    (limit : ℕ) (u : String) (order : List ℕ) (h : Map ℕ WorkflowState) (by : Map String (List ℕ))
    → ((v : String) → RecentAt v by)
    → RecentAt u (evict limit order h by).2
unfolding evict
evict-Recent limit u [] h by r = r u
evict-Recent limit u (x ∷ order) h by r = ground (
  arith,
  r u,
  evict-Recent limit u order (delete x h) (forget x h by) (λ v. forget-Recent x v h by r),
)

keep_latest-few : (ids : List ℕ) → length (keep_latest ids) ≤ 10
unfolding keep_latest
keep_latest-few ids = ground (arith, length-drop (length ids - 10) ids)

count-Listed :
    (t : WorkflowStatus) (m : Manager) (id : ℕ)
    → ListedAt id m.history_order m.workflow_history
    → ListedAt id (count_outcome t m).history_order (count_outcome t m).workflow_history
unfolding count_outcome
count-Listed WorkflowStatus.completed m id l = l
count-Listed _ m id l = l

count-Recent :
    (t : WorkflowStatus) (m : Manager) (u : String)
    → RecentAt u m.history_by_uuid
    → RecentAt u (count_outcome t m).history_by_uuid
unfolding count_outcome
count-Recent WorkflowStatus.completed m u r = r
count-Recent _ m u r = r

archive-Listed :
    (uuid : String) (st : WorkflowState) (m : Manager) (id : ℕ)
    → ListedAt id m.history_order m.workflow_history
    → ListedAt id (archive uuid st m).history_order (archive uuid st m).workflow_history
unfolding archive
archive-Listed uuid st m id l there = elim (Bool-cases (nat_beq st.execution_id id)) [
  | inl same ↦ ground (arith, ordered-append id st.execution_id m.history_order, same)
  | inr other ↦
      let l' =
        l (ground (arith, has-insert st.execution_id id st m.workflow_history, other, there)) in
      ground (arith, ordered-append id st.execution_id m.history_order, other, l')
]

archive-Recent :
    (uuid u : String) (st : WorkflowState) (m : Manager)
    → RecentAt u m.history_by_uuid
    → RecentAt u (archive uuid st m).history_by_uuid
unfolding archive
archive-Recent uuid u st m r =
    let ids = ids_or_none (lookup uuid m.history_by_uuid) ++ st.execution_id ∷ [] in
    ground (arith, lookup-insert uuid u (keep_latest ids) m.history_by_uuid, keep_latest-few ids)

persist-Remembers :
    (uuid : String) (st : WorkflowState) (s : System)
    → Remembers s.wm
    → Remembers (persist_workflow_locked uuid st s).wm
unfolding persist_workflow_locked trim_history
persist-Remembers uuid st s r =
    let a = archive uuid st s.wm in
    let m = count_outcome st.status a in
    let limit = max_cache m.max_history_cache in
    record {
      bounded =
          omega (arith, history-persist_bounded uuid st s, ap max_cache (cache-count st.status a));
      listed = λ id.
          evict-Listed limit id m.history_order m.workflow_history m.history_by_uuid
            (count-Listed st.status a id (archive-Listed uuid st s.wm id (r.listed id)));
      recent = λ u.
          evict-Recent limit u m.history_order m.workflow_history m.history_by_uuid
            (λ v. count-Recent st.status a v (archive-Recent uuid v st s.wm (r.recent v)));
    }

take-Listed :
    (id j : ℕ) (order : List ℕ) (h : Map ℕ WorkflowState)
    → ListedAt j order h
    → ListedAt j (remove_first id order) (delete id h)
take-Listed id j order h l there = elim (Bool-cases (nat_beq id j)) [
  | inl same ↦ absurd (ground (arith, has-delete id j h, same, there))
  | inr other ↦
      ordered-remove_first id j order other ∙ l (ground (arith, has-delete id j h, other, there))
]

take-Remembers :
    (uuid : String) (id : ℕ) (m : Manager) → Remembers m → Remembers (take_from_history uuid id m)
unfolding take_from_history
take-Remembers uuid id m r = record {
  bounded = omega (arith, length-remove_first id m.history_order, r.bounded);
  listed = λ j. take-Listed id j m.history_order m.workflow_history (r.listed j);
  recent = λ u. remove-Recent uuid u id m.history_by_uuid r.recent;
}

entries-Remembers :
    (es : Map String Entry) (m : Manager)
    → Remembers m
    → Remembers (record m { running_entries = es })
entries-Remembers es m r = record { bounded = r.bounded; listed = r.listed; recent = r.recent }

pub Remembers-Closed : Closed Remembers
unfolding put_entry
Remembers-Closed = record {
  puts = λ uuid e s. entries-Remembers (insert uuid e s.wm.running_entries) s.wm;
  persists = persist-Remembers;
  takes = take-Remembers;
  drops = λ uuid m. entries-Remembers (delete uuid m.running_entries) m;
}
