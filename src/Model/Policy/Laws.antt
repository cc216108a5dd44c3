-- ===== src/Model/Policy/Laws.antt =====
-- What a valid error policy (domain/model/workflow.go) can answer.
use vibeflow.Prelude.{
  ◌≡◌, refl, inl, inr, String, [], ◌∷◌, Map, Option, none, some, lookup, string_eq, arith,
  Option-cases, ◌≢◌,
}
use vibeflow.Model.Workflow.{ErrorPolicy, ErrorPolicyType, TimeoutPolicy}
use vibeflow.Model.Policy.{
  validate, get_task_error_policy, get_timeout_policy, task_policies_error, policy_or_retry,
  timeout_or_rollback,
}

-- One of the four policies that the code names.
abbrev pub IsNamed : ErrorPolicyType → Type 0
IsNamed ErrorPolicyType.unset = ⊥
IsNamed (ErrorPolicyType.other s) = ⊥
IsNamed ErrorPolicyType.retry = Unit {0}
IsNamed _ = Unit {0}

lookup-IsNamed :
    (t : String) (m : Map String ErrorPolicyType) (p : ErrorPolicyType)
    → task_policies_error m ≡ none
    → lookup t m ≡ some p
    → IsNamed p
unfolding task_policies_error lookup
lookup-IsNamed t [] p h e = cc
lookup-IsNamed t ((u, ErrorPolicyType.unset) ∷ m) p h e = cc
lookup-IsNamed t ((u, ErrorPolicyType.other s) ∷ m) p h e = cc
lookup-IsNamed t ((u, q) ∷ m) p h e = ground (arith, lookup-IsNamed t m p)

abbrev pub IsRollbackOrFail : TimeoutPolicy → Type 0
IsRollbackOrFail TimeoutPolicy.unset = ⊥
IsRollbackOrFail (TimeoutPolicy.other s) = ⊥
IsRollbackOrFail _ = Unit {0}

valid_parts :
    (ep : ErrorPolicy)
    → validate (some ep) ≡ none
    → (task_policies_error ep.task_policies ≡ none)
      × ((s : String) → ep.on_task_failure ≢ ErrorPolicyType.other s)
      × ((s : String) → ep.on_timeout ≢ TimeoutPolicy.other s)
unfolding validate
valid_parts ep h = (ground arith, (λ s e. ground arith), λ s e. ground arith)

default_named :
    (t : ErrorPolicyType)
    → ((s : String) → t ≢ ErrorPolicyType.other s)
    → IsNamed (policy_or_retry t)
unfolding policy_or_retry
default_named ErrorPolicyType.unset h = tt
default_named (ErrorPolicyType.other s) h = h s refl
default_named _ h = tt

timeout_named :
    (t : TimeoutPolicy)
    → ((s : String) → t ≢ TimeoutPolicy.other s)
    → IsRollbackOrFail (timeout_or_rollback t)
unfolding timeout_or_rollback
timeout_named TimeoutPolicy.unset h = tt
timeout_named (TimeoutPolicy.other s) h = h s refl
timeout_named _ h = tt

-- A policy that passes validation answers, for every task, one of the four named policies, and
-- for the timeout one of rollback and fail; so does the missing policy.
pub validate-IsNamed :
    (ep : Option ErrorPolicy) (task_name : String)
    → validate ep ≡ none
    → IsNamed (get_task_error_policy ep task_name) × IsRollbackOrFail (get_timeout_policy ep)
unfolding get_task_error_policy get_timeout_policy
validate-IsNamed none task_name h = (tt, tt)
validate-IsNamed (some ep) task_name h =
    let parts = valid_parts ep h in
    elim (Option-cases (lookup task_name ep.task_policies)) [
      | inl e ↦
          rw (e, get_task_error_policy)
            (default_named ep.on_task_failure parts.1, timeout_named ep.on_timeout parts.2)
      | inr (p, e) ↦
          rw (e, get_task_error_policy)
            (
              lookup-IsNamed task_name ep.task_policies p parts.0 e,
              timeout_named ep.on_timeout parts.2,
            )
    ]
