-- ===== src/Model/Delta/Laws.antt =====
-- Replaying incremental snapshots (domain/model/workflow.go, `ApplyDeltas`).
use vibeflow.Prelude.{
  ◌≡◌, refl, String, List, [], ◌∷◌, Option, some, lookup, lookup-insert, string_eq, ◌==◌, ◌⊎◌, inl,
  inr, sym, ap, ◌∙◌, Bool, false, if◌then◌else◌, Bool, true, ◌∙◌, ap,
}
use vibeflow.Model.Value.{Output}
use vibeflow.Model.Workflow.{WorkflowState}
use vibeflow.Model.Delta.{TaskDelta, Action, completed, failed, apply_delta, apply_deltas}

-- What a run of deltas says last about a task: its output, its error, its rollback.
unfoldable pub last_output : String → List TaskDelta → Option Output → Option Output
last_output t [] o = o
last_output t (d ∷ ds) o =
    last_output t ds
      (elim d.action [ completed ↦ if d.task_name == t then some d.output else o | _ ↦ o ])

unfoldable pub last_error : String → List TaskDelta → Option String → Option String
last_error t [] o = o
last_error t (d ∷ ds) o =
    last_error t ds
      (elim d.action [ failed ↦ if d.task_name == t then some d.result else o | _ ↦ o ])

apply-output :
    (a : Action) (t : String) (d : TaskDelta) (s : WorkflowState)
    → d.action ≡ a
    → lookup t (apply_delta a d s).completed_tasks ≡ elim a [
      | completed ↦ if d.task_name == t then some d.output else lookup t s.completed_tasks
      | _ ↦ lookup t s.completed_tasks
    ]
unfolding apply_delta
apply-output completed t d s e = lookup-insert d.task_name t d.output s.completed_tasks
apply-output _ t d s e = refl

apply-error :
    (a : Action) (t : String) (d : TaskDelta) (s : WorkflowState)
    → lookup t (apply_delta a d s).failed_tasks ≡ elim a [
      | failed ↦ if d.task_name == t then some d.result else lookup t s.failed_tasks
      | _ ↦ lookup t s.failed_tasks
    ]
unfolding apply_delta
apply-error failed t d s = lookup-insert d.task_name t d.result s.failed_tasks
apply-error _ t d s = refl

pub apply_deltas-output :
    (t : String) (ds : List TaskDelta) (s : WorkflowState)
    → lookup t (apply_deltas ds s).completed_tasks ≡ last_output t ds (lookup t s.completed_tasks)
unfolding apply_deltas last_output
apply_deltas-output t [] s = refl
apply_deltas-output t (d ∷ ds) s =
    apply_deltas-output t ds (apply_delta d.action d s)
    ∙ ap (last_output t ds) (apply-output d.action t d s refl)

pub apply_deltas-error :
    (t : String) (ds : List TaskDelta) (s : WorkflowState)
    → lookup t (apply_deltas ds s).failed_tasks ≡ last_error t ds (lookup t s.failed_tasks)
unfolding apply_deltas last_error
apply_deltas-error t [] s = refl
apply_deltas-error t (d ∷ ds) s =
    apply_deltas-error t ds (apply_delta d.action d s)
    ∙ ap (last_error t ds) (apply-error d.action t d s)

-- A fold over reports either forgets what stood before or leaves it alone.
abbrev Settles {ℓ} : {A : Type ℓ} → (A → A) → Type ℓ
Settles {A} f = ((a : A) × ((o : A) → f o ≡ a)) ⊎ ((o : A) → f o ≡ o)

Settles-twice {ℓ} : {A : Type ℓ} (f : A → A) → Settles f → (o : A) → f (f o) ≡ f o
Settles-twice f (inl (a, h)) o = h (f o) ∙ sym (h o)
Settles-twice f (inr h) o = ap f (h o)

Settles-∘ {ℓ} : {A : Type ℓ} (f g : A → A) → Settles f → Settles g → Settles (λ o. f (g o))
Settles-∘ f g (inl (a, h)) sg = inl (a, λ o. h (g o))
Settles-∘ f g (inr h) (inl (b, k)) = inl (b, λ o. h (g o) ∙ k o)
Settles-∘ f g (inr h) (inr k) = inr λ o. h (g o) ∙ k o

choice-Settles {ℓ} : {A : Type ℓ} (b : Bool) (a : A) → Settles (λ (o : A). if b then a else o)
choice-Settles true a = inl (a, λ o. refl)
choice-Settles false a = inr λ o. refl

output-Settles :
    (t : String) (d : TaskDelta) (a : Action)
    → Settles (λ (o : Option Output). elim a [
      | completed ↦ if d.task_name == t then some d.output else o
      | _ ↦ o
    ])
output-Settles t d completed = choice-Settles (d.task_name == t) (some d.output)
output-Settles t d _ = inr λ o. refl

error-Settles :
    (t : String) (d : TaskDelta) (a : Action)
    → Settles (λ (o : Option String). elim a [
      | failed ↦ if d.task_name == t then some d.result else o
      | _ ↦ o
    ])
error-Settles t d failed = choice-Settles (d.task_name == t) (some d.result)
error-Settles t d _ = inr λ o. refl

last_output-Settles : (t : String) (ds : List TaskDelta) → Settles (last_output t ds)
unfolding last_output
last_output-Settles t [] = inr λ o. refl
last_output-Settles t (d ∷ ds) =
    Settles-∘ (last_output t ds) _ (last_output-Settles t ds) (output-Settles t d d.action)

last_error-Settles : (t : String) (ds : List TaskDelta) → Settles (last_error t ds)
unfolding last_error
last_error-Settles t [] = inr λ o. refl
last_error-Settles t (d ∷ ds) =
    Settles-∘ (last_error t ds) _ (last_error-Settles t ds) (error-Settles t d d.action)

-- Replaying a run of deltas a second time changes no task's recorded output and no task's recorded
-- error.
pub apply_deltas_twice :
    (t : String) (ds : List TaskDelta) (s : WorkflowState)
    → (lookup t (apply_deltas ds (apply_deltas ds s)).completed_tasks
        ≡ lookup t (apply_deltas ds s).completed_tasks)
      × (lookup t (apply_deltas ds (apply_deltas ds s)).failed_tasks
          ≡ lookup t (apply_deltas ds s).failed_tasks)
apply_deltas_twice t ds s = (
  simp (apply_deltas-output) (Settles-twice (last_output t ds) (last_output-Settles t ds) _),
  simp (apply_deltas-error) (Settles-twice (last_error t ds) (last_error-Settles t ds) _),
)
