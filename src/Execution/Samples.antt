-- ===== src/Execution/Samples.antt =====
-- A small workflow with a branch, executed, and the theorems on the execution at it.
use vibeflow.Prelude.{
  ℕ, zero, suc, ◌≤◌, ◌≡◌, refl, true, false, List, [], ◌∷◌, none, some, pos, lookup, string_eq,
  arith,
}
use vibeflow.Model.Value.{Value, Output, int, bool, string, object, field, empty}
use vibeflow.Model.Context.{approval_key}
use vibeflow.Model.Workflow.{TaskGroup, LoopDef, LoopConditionType}
use vibeflow.Model.Samples.{plain, two_groups, running_state}
use vibeflow.Scheduler.State.{System, execute_workflow, emit, lock_entry}
use vibeflow.Scheduler.Lifecycle.{done, approve_workflow, clean_output}
use vibeflow.Scheduler.Samples.{system, entry, entry_there}
use vibeflow.Execution.Control.{outputs, error, pause_for_approval}
use vibeflow.Execution.Run.{size_node, World, Waits, execute_groups}
use vibeflow.Execution.Run.Termination.{Ends, execute_groups-Ends}
use vibeflow.Execution.Approval.{resumed, approve-pause}
use vibeflow.Execution.Parallel.{
  TaskResult, output, failure, execute_with_options, first_failure, outputs_of,
}
use vibeflow.Execution.Parallel.Verdict.{execute_with_options_lem}
use vibeflow.Model.Context.{get_skip_groups}
use vibeflow.Execution.Loop.{execute_loop_body, should_continue_loop, Rounds, run_loop}
use vibeflow.Execution.Loop.Unrolled.{Unrolled, last_round, round, run_loop-Unrolled}

abbrev pub all_succeed : World
all_succeed = λ n kind g upstream s. (outputs ((("size", int (pos 1)) ∷ []) ∷ []), s)

-- The context ends in the first delay.
abbrev pub ends_waiting : Waits
ends_waiting left delay s = some s

execute_groups-Ends_example :
    Ends ends_waiting "u1" (execute_groups all_succeed ends_waiting 3 "u1" two_groups [] 0 system)
unfolding size_node
execute_groups-Ends_example =
    execute_groups-Ends all_succeed ends_waiting 3 "u1" two_groups [] 0 system (omega arith)

abbrev asks : Output
asks = (approval_key, string "go?") ∷ ("size", int (pos 3)) ∷ []

approve-pause_example :
    (t : System) × (approve_workflow "u1" (pause_for_approval "u1" running_state 0 asks system)
      ≡ done (emit (execute_workflow "u1" (clean_output asks ∷ []) 1) t))
    × (lock_entry "u1" t ≡ some (resumed running_state 0 asks entry))
approve-pause_example =
    approve-pause "u1" running_state 0 asks entry system entry_there (omega arith)

abbrev two_results : List TaskResult
two_results = output (some asks) ∷ failure "disk full" ∷ []

execute_with_options_example :
    execute_with_options 2 (pos 0) two_results ≡ (elim (first_failure two_results) [
      | none ↦ outputs (outputs_of two_results)
      | some e ↦ error e
    ])
execute_with_options_example = execute_with_options_lem 1 two_results refl

abbrev twice : LoopDef
twice = record {
  max_iterations = pos 5;
  condition_type = LoopConditionType.key;
  condition_key = "more";
}

abbrev round_output : ℕ → Output
round_output zero = ("more", bool true) ∷ []
round_output (suc n) = ("more", bool false) ∷ []

abbrev rounds : Rounds
rounds = record { worker = λ i gi g upstream. outputs (round_output i ∷ []); cancelled = λ i. none }

abbrev poll : List TaskGroup
poll = (plain "poll" ∷ []) ∷ []

abbrev both_rounds : List Output
both_rounds = round_output 0 ∷ round_output 1 ∷ []

unrolled : Unrolled rounds twice poll 0 [] 2 both_rounds
unfolding execute_loop_body should_continue_loop lookup get_skip_groups
unrolled =
    round (round_output 0 ∷ []) (some (round_output 0)) refl refl refl
      (last_round (round_output 1 ∷ []) (some (round_output 1)) refl refl refl)

run_loop-Unrolled_example : (run_loop rounds twice poll [] ≡ (both_rounds, none)) × (2 ≤ 5)
run_loop-Unrolled_example =
    run_loop-Unrolled rounds twice poll [] both_rounds 2 (omega arith) unrolled

abbrev element : Value
element = object (field "path" (string "/a") empty)
