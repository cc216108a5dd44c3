-- ===== src/Execution/Parallel/Verdict.antt =====
-- infra/engine/scheduler/execution_manager.go: when a group of parallel tasks succeeds.
use vibeflow.Prelude.{
  ℕ, suc, ◌+◌, ◌≤◌, ◌<◌, ◌≡◌, refl, sym, ap, ◌∙◌, true, false, String, List, [], ◌∷◌, ◌++◌, Option,
  none, some, pos, length, leb, arith, Option-cases, inl, inr,
}
use mathlib.Core.List.{append_assoc, append-nil}
use vibeflow.Execution.Control.{outputs, error}
use vibeflow.Execution.Parallel.{
  TaskResult, output, failure, Tally, no_results, or_first, count_result, count_results, verdict,
  execute_with_options, successes, outputs_of, first_failure,
}

success_count-results :
    (rs : List TaskResult) (t : Tally)
    → (count_results rs t).success_count ≡ t.success_count + successes rs
unfolding count_results count_result
success_count-results [] t = omega arith
success_count-results (output o ∷ rs) t =
    omega (arith, success_count-results rs (count_result (output o) t))
success_count-results (failure e ∷ rs) t =
    omega (arith, success_count-results rs (count_result (failure e) t))

abbrev pub either_first : Option String → Option String → Option String
either_first (some e) o = some e
either_first none o = o

pub first_err-results :
    (rs : List TaskResult) (t : Tally)
    → (count_results rs t).first_err ≡ either_first t.first_err (first_failure rs)
unfolding count_results count_result
first_err-results [] t = ground arith
first_err-results (output o ∷ rs) t = first_err-results rs (count_result (output o) t)
first_err-results (failure e ∷ rs) t =
    first_err-results rs (count_result (failure e) t) ∙ kept t.first_err
  where
    kept :
        (o : Option String)
        → either_first (or_first o e) (first_failure rs) ≡ either_first o (some e)
    kept none = refl
    kept (some d) = refl

pub all_outputs-results :
    (rs : List TaskResult) (t : Tally)
    → (count_results rs t).all_outputs ≡ t.all_outputs ++ outputs_of rs
unfolding count_results count_result
all_outputs-results [] t = sym (append-nil t.all_outputs)
all_outputs-results (output none ∷ rs) t = all_outputs-results rs (count_result (output none) t)
all_outputs-results (output (some o) ∷ rs) t =
    all_outputs-results rs (count_result (output (some o)) t)
    ∙ append_assoc t.all_outputs (o ∷ []) (outputs_of rs)
all_outputs-results (failure e ∷ rs) t = all_outputs-results rs (count_result (failure e) t)

successes-failure :
    (rs : List TaskResult) (e : String) → first_failure rs ≡ some e → successes rs < length rs
successes-failure [] e h = cc
successes-failure (output o ∷ rs) e h = omega (arith, successes-failure rs e h)
successes-failure (failure d ∷ rs) e h = omega (arith, successes_le rs)
  where
    successes_le : (rs : List TaskResult) → successes rs ≤ length rs
    successes_le [] = omega arith
    successes_le (output o ∷ rs) = omega (arith, successes_le rs)
    successes_le (failure e ∷ rs) = omega (arith, successes_le rs)

successes-all : (rs : List TaskResult) → first_failure rs ≡ none → successes rs ≡ length rs
successes-all [] h = refl
successes-all (output o ∷ rs) h = ap suc (successes-all rs h)
successes-all (failure d ∷ rs) h = cc

-- Without a minimum of successes, a group of tasks whose results have all come in succeeds exactly
-- if none has failed, with the outputs in the order of arrival; else it fails with the failure that
-- arrived first.
pub execute_with_options_lem :
    (n : ℕ) (rs : List TaskResult)
    → length rs ≡ suc n
    → execute_with_options (suc n) (pos 0) rs
      ≡ (elim (first_failure rs) [ none ↦ outputs (outputs_of rs) | some e ↦ error e ])
unfolding execute_with_options verdict
execute_with_options_lem n rs h =
    let count = success_count-results rs no_results in
    let first = first_err-results rs no_results in
    let all = all_outputs-results rs no_results in
    elim (Option-cases (first_failure rs)) [
      | inl fine ↦
          let enough : leb (suc n) (count_results rs no_results).success_count ≡ true =
            ground (arith, successes-all rs fine) in
          rw (fine, enough) (ap outputs all)
      | inr (e, bad) ↦
          let short : leb (suc n) (count_results rs no_results).success_count ≡ false =
            ground (arith, successes-failure rs e bad) in
          let found : (count_results rs no_results).first_err ≡ some e = first ∙ bad in
          rw (short, found, bad) refl
    ]
