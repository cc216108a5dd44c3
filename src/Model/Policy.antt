-- ===== src/Model/Policy.antt =====
-- domain/model/workflow.go: `ErrorPolicy` and its methods; the nil policy is `none`.
pub mod Laws
use vibeflow.Prelude.{
  ◌≡◌, Bool, true, false, String, List, [], ◌∷◌, Map, Option, none, some, lookup, string_eq, any,
  ◌==◌,
}
use vibeflow.Model.Workflow.{ErrorPolicy, ErrorPolicyType, TimeoutPolicy}

policy_or_retry : ErrorPolicyType → ErrorPolicyType
policy_or_retry ErrorPolicyType.unset = ErrorPolicyType.retry
policy_or_retry p = p

unfoldable pub get_task_error_policy : Option ErrorPolicy → String → ErrorPolicyType
unfolding policy_or_retry
get_task_error_policy none task_name = ErrorPolicyType.retry
get_task_error_policy (some ep) task_name = elim (lookup task_name ep.task_policies) [
  | some policy ↦ policy
  | none ↦ policy_or_retry ep.on_task_failure
]

skippable_under : ErrorPolicyType → List String → String → Bool
skippable_under ErrorPolicyType.skip [] task_name = true
skippable_under ErrorPolicyType.skip (t ∷ ts) task_name = any (λ name. name == task_name) (t ∷ ts)
skippable_under _ ts task_name = false

unfoldable pub is_skippable : Option ErrorPolicy → String → Bool
unfolding skippable_under
is_skippable none task_name = false
is_skippable (some ep) task_name = skippable_under ep.on_task_failure ep.skippable_tasks task_name

timeout_or_rollback : TimeoutPolicy → TimeoutPolicy
timeout_or_rollback TimeoutPolicy.unset = TimeoutPolicy.rollback
timeout_or_rollback p = p

unfoldable pub get_timeout_policy : Option ErrorPolicy → TimeoutPolicy
unfolding timeout_or_rollback
get_timeout_policy none = TimeoutPolicy.rollback
get_timeout_policy (some ep) = timeout_or_rollback ep.on_timeout

pub data PolicyError : Type 0 where
  bad_on_task_failure : String → PolicyError
  bad_on_timeout : String → PolicyError
  bad_task_policy : String → PolicyError

-- The first task whose own policy is not one of the four: here the empty text is refused too.
task_policies_error : Map String ErrorPolicyType → Option PolicyError
task_policies_error [] = none
task_policies_error ((t, ErrorPolicyType.retry) ∷ m) = task_policies_error m
task_policies_error ((t, ErrorPolicyType.rollback) ∷ m) = task_policies_error m
task_policies_error ((t, ErrorPolicyType.skip) ∷ m) = task_policies_error m
task_policies_error ((t, ErrorPolicyType.fail_fast) ∷ m) = task_policies_error m
task_policies_error ((t, ErrorPolicyType.unset) ∷ m) = some (bad_task_policy t)
task_policies_error ((t, ErrorPolicyType.other s) ∷ m) = some (bad_task_policy t)

on_timeout_error : TimeoutPolicy → ErrorPolicy → Option PolicyError
unfolding task_policies_error
on_timeout_error (TimeoutPolicy.other s) ep = some (bad_on_timeout s)
on_timeout_error TimeoutPolicy.unset ep = task_policies_error ep.task_policies
on_timeout_error _ ep = task_policies_error ep.task_policies

on_failure_error : ErrorPolicyType → ErrorPolicy → Option PolicyError
unfolding on_timeout_error
on_failure_error (ErrorPolicyType.other s) ep = some (bad_on_task_failure s)
on_failure_error ErrorPolicyType.unset ep = on_timeout_error ep.on_timeout ep
on_failure_error _ ep = on_timeout_error ep.on_timeout ep

-- `Validate`: `none` is the nil error.
unfoldable pub validate : Option ErrorPolicy → Option PolicyError
unfolding on_failure_error
validate none = none
validate (some ep) = on_failure_error ep.on_task_failure ep
