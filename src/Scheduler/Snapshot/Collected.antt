-- ===== src/Scheduler/Snapshot/Collected.antt =====
-- infra/engine/scheduler/repository.go: what the deltas of a snapshot bring back.
use mathlib.Core.Bool.{true≢false}
use vibeflow.Prelude.{
  ℕ, ◌≡◌, refl, sym, ap, ◌∙◌, subst, Bool, true, false, String, List, [], ◌∷◌, ◌++◌, Map, Option,
  none, some, lookup, string_eq, ◌==◌, if_true, if_false, Bool-cases, inl, inr,
}
use vibeflow.Model.Value.{Output}
use vibeflow.Model.Workflow.{WorkflowState}
use vibeflow.Model.Delta.{TaskDelta, Action, apply_deltas}
use vibeflow.Model.Delta.Laws.{last_output, last_error, apply_deltas-output, apply_deltas-error}
use vibeflow.Scheduler.Snapshot.{
  is_marked, completed_deltas, failed_deltas, rolled_back_deltas, task_deltas, collect_task_deltas,
}

-- Every key has one entry, as in a Go map.
abbrev pub Unique : {V : Type 0} → Map String V → Type 0
Unique [] = Unit {0}
Unique ((k, v) ∷ m) = (lookup k m ≡ none) × Unique m

abbrev pub first_of : {V : Type 0} → Option V → Option V → Option V
first_of none o = o
first_of (some v) o = some v

last_output-append :
    (t : String) (ds es : List TaskDelta) (o : Option Output)
    → last_output t (ds ++ es) o ≡ last_output t es (last_output t ds o)
unfolding last_output
last_output-append t [] es o = refl
last_output-append t (d ∷ ds) es o = last_output-append t ds es _

last_error-append :
    (t : String) (ds es : List TaskDelta) (o : Option String)
    → last_error t (ds ++ es) o ≡ last_error t es (last_error t ds o)
unfolding last_error
last_error-append t [] es o = refl
last_error-append t (d ∷ ds) es o = last_error-append t ds es _

module _ (t : String) (marks : Map String ℕ) where
  failed-output :
      (m : Map String String) (o : Option Output) → last_output t (failed_deltas marks m) o ≡ o
  unfolding last_output failed_deltas
  failed-output [] o = refl
  failed-output ((k, v) ∷ m) o = elim (Bool-cases (is_marked k marks)) [
    | inl old ↦ rw old (failed-output m o)
    | inr new ↦ rw new (failed-output m o)
  ]

  rolled_back-output :
      (m : Map String Bool) (o : Option Output) → last_output t (rolled_back_deltas marks m) o ≡ o
  unfolding last_output rolled_back_deltas
  rolled_back-output [] o = refl
  rolled_back-output ((k, v) ∷ m) o = elim (Bool-cases (is_marked k marks)) [
    | inl old ↦ rw old (rolled_back-output m o)
    | inr new ↦ rw new (rolled_back-output m o)
  ]

  completed-error :
      (m : Map String Output) (o : Option String) → last_error t (completed_deltas marks m) o ≡ o
  unfolding last_error completed_deltas
  completed-error [] o = refl
  completed-error ((k, v) ∷ m) o = elim (Bool-cases (is_marked k marks)) [
    | inl old ↦ rw old (completed-error m o)
    | inr new ↦ rw new (completed-error m o)
  ]

  rolled_back-error :
      (m : Map String Bool) (o : Option String) → last_error t (rolled_back_deltas marks m) o ≡ o
  unfolding last_error rolled_back_deltas
  rolled_back-error [] o = refl
  rolled_back-error ((k, v) ∷ m) o = elim (Bool-cases (is_marked k marks)) [
    | inl old ↦ rw old (rolled_back-error m o)
    | inr new ↦ rw new (rolled_back-error m o)
  ]

  module _ (unmarked : is_marked t marks ≡ false) where
    differs : (k : String) → is_marked k marks ≡ true → (k == t) ≡ false
    differs k old = elim (Bool-cases (k == t)) [
      | inl same ↦
          let e : k ≡ t = (string_eq.beq_iff k t).0 same in
          absurd (true≢false (sym (subst (λ x. is_marked x marks ≡ true) e old) ∙ unmarked))
      | inr other ↦ other
    ]

    completed-output :
        (m : Map String Output) (o : Option Output)
        → Unique m
        → last_output t (completed_deltas marks m) o ≡ first_of (lookup t m) o
    unfolding last_output completed_deltas lookup
    completed-output [] o u = refl
    completed-output ((k, v) ∷ m) o u = elim (Bool-cases (is_marked k marks)) [
      | inl old ↦
          let skip : completed_deltas marks ((k, v) ∷ m) ≡ completed_deltas marks m =
            if_true _ _ _ old in
          let later : lookup t ((k, v) ∷ m) ≡ lookup t m = if_false _ _ _ (differs k old) in
          ap (λ l. last_output t l o) skip
          ∙ completed-output m o u.1
          ∙ ap (λ x. first_of x o) (sym later)
      | inr new ↦
          let d : TaskDelta = record {
            task_name = k;
            action = Action.completed;
            output = v;
            result = "";
          } in
          let rest = completed_deltas marks m in
          let take : completed_deltas marks ((k, v) ∷ m) ≡ d ∷ rest = if_false _ _ _ new in
          elim (Bool-cases (k == t)) [
            | inl same ↦
                let e : k ≡ t = (string_eq.beq_iff k t).0 same in
                let alone : lookup t m ≡ none = subst (λ x. lookup x m ≡ none) e u.0 in
                let here : lookup t ((k, v) ∷ m) ≡ some v = if_true _ _ _ same in
                ap (λ l. last_output t l o) take
                ∙ ap (last_output t rest) (if_true _ _ _ same)
                ∙ completed-output m (some v) u.1
                ∙ ap (λ x. first_of x (some v)) alone
                ∙ ap (λ x. first_of x o) (sym here)
            | inr other ↦
                let later : lookup t ((k, v) ∷ m) ≡ lookup t m = if_false _ _ _ other in
                ap (λ l. last_output t l o) take
                ∙ ap (last_output t rest) (if_false _ _ _ other)
                ∙ completed-output m o u.1
                ∙ ap (λ x. first_of x o) (sym later)
          ]
    ]

    failed-error :
        (m : Map String String) (o : Option String)
        → Unique m
        → last_error t (failed_deltas marks m) o ≡ first_of (lookup t m) o
    unfolding last_error failed_deltas lookup
    failed-error [] o u = refl
    failed-error ((k, v) ∷ m) o u = elim (Bool-cases (is_marked k marks)) [
      | inl old ↦
          let skip : failed_deltas marks ((k, v) ∷ m) ≡ failed_deltas marks m = if_true _ _ _ old in
          let later : lookup t ((k, v) ∷ m) ≡ lookup t m = if_false _ _ _ (differs k old) in
          ap (λ l. last_error t l o) skip
          ∙ failed-error m o u.1
          ∙ ap (λ x. first_of x o) (sym later)
      | inr new ↦
          let d : TaskDelta = record {
            task_name = k;
            action = Action.failed;
            output = [];
            result = v;
          } in
          let rest = failed_deltas marks m in
          let take : failed_deltas marks ((k, v) ∷ m) ≡ d ∷ rest = if_false _ _ _ new in
          elim (Bool-cases (k == t)) [
            | inl same ↦
                let e : k ≡ t = (string_eq.beq_iff k t).0 same in
                let alone : lookup t m ≡ none = subst (λ x. lookup x m ≡ none) e u.0 in
                let here : lookup t ((k, v) ∷ m) ≡ some v = if_true _ _ _ same in
                ap (λ l. last_error t l o) take
                ∙ ap (last_error t rest) (if_true _ _ _ same)
                ∙ failed-error m (some v) u.1
                ∙ ap (λ x. first_of x (some v)) alone
                ∙ ap (λ x. first_of x o) (sym here)
            | inr other ↦
                let later : lookup t ((k, v) ∷ m) ≡ lookup t m = if_false _ _ _ other in
                ap (λ l. last_error t l o) take
                ∙ ap (last_error t rest) (if_false _ _ _ other)
                ∙ failed-error m o u.1
                ∙ ap (λ x. first_of x o) (sym later)
          ]
    ]

-- For a task that no snapshot has yet, the deltas of the next one, put into a stored state, bring
-- back its output and its error as the running workflow has them; where it has none, the stored
-- state keeps its own.
pub collect-apply_deltas :
    (t : String) (seq : ℕ) (s base : WorkflowState)
    → is_marked t s.snapshotted ≡ false
    → Unique s.completed_tasks
    → Unique s.failed_tasks
    → (lookup t (apply_deltas (collect_task_deltas s seq).2 base).completed_tasks
        ≡ first_of (lookup t s.completed_tasks) (lookup t base.completed_tasks))
      × (lookup t (apply_deltas (collect_task_deltas s seq).2 base).failed_tasks
          ≡ first_of (lookup t s.failed_tasks) (lookup t base.failed_tasks))
unfolding collect_task_deltas task_deltas
collect-apply_deltas t seq s base unmarked once once' =
    let marks = s.snapshotted in
    let first = completed_deltas marks s.completed_tasks in
    let second = failed_deltas marks s.failed_tasks in
    let third = rolled_back_deltas marks s.rolled_back in
    let o = lookup t base.completed_tasks in
    let e = lookup t base.failed_tasks in
    (
      apply_deltas-output t (first ++ (second ++ third)) base
          ∙ last_output-append t first (second ++ third) o
          ∙ last_output-append t second third (last_output t first o)
          ∙ rolled_back-output t marks s.rolled_back (last_output t second (last_output t first o))
          ∙ failed-output t marks s.failed_tasks (last_output t first o)
          ∙ completed-output t marks unmarked s.completed_tasks o once,
      apply_deltas-error t (first ++ (second ++ third)) base
          ∙ last_error-append t first (second ++ third) e
          ∙ last_error-append t second third (last_error t first e)
          ∙ rolled_back-error t marks s.rolled_back (last_error t second (last_error t first e))
          ∙ ap (last_error t second) (completed-error t marks s.completed_tasks e)
          ∙ failed-error t marks unmarked s.failed_tasks e once',
    )
