-- ===== src/Execution/Loop.antt =====
-- infra/engine/scheduler/advanced_executor.go: a loop over task groups.
-- A round's groups report what the workers make of them; `World` stands for the workers. The end of
-- the workflow's context is asked before each round.
pub mod Unrolled
use vibeflow.Prelude.{
  ℕ, zero, suc, ◌+◌, ◌-◌, ◌≤◌, ◌<◌, ◌≡◌, refl, Bool, true, false, not, ◌&&◌, String, List, [], ◌∷◌,
  ◌++◌, Option, none, some, ℤ, pos, ltb_ℤ, pos_part, lookup, string_eq, length, leb, drop,
  if◌then◌else◌, ◌==◌,
}
use vibeflow.Model.Value.{Value, Output, bool, int}
use vibeflow.Model.Context.{new_context_from_map, get_skip_groups}
use vibeflow.Model.Workflow.{TaskGroup, LoopDef, LoopConditionType}
use vibeflow.Execution.Control.{GroupResult, outputs, error}

abbrev pub loop_continue_key : String
loop_continue_key = "__vibeflow_loop_continue"

abbrev pub loop_iteration_key : String
loop_iteration_key = "__vibeflow_loop_iteration"

abbrev pub flag : Option Value → Option Bool
flag (some (bool b)) = some b
flag _ = none

unfoldable pub continue_by_key : String → Option Output → Bool
continue_by_key key none = true
continue_by_key key (some o) = if key == "" then true else elim (flag (lookup key o)) [
  | some b ↦ b
  | none ↦ elim (flag (lookup loop_continue_key o)) [ some b ↦ b | none ↦ true ]
]

unfoldable pub continue_by : LoopConditionType → String → Option Output → Bool
unfolding continue_by_key
continue_by LoopConditionType.always key last = true
continue_by LoopConditionType.key key last = continue_by_key key last
continue_by (LoopConditionType.other s) key last = true

-- `shouldContinueLoop`, after `done` rounds.
unfoldable pub should_continue_loop : Option Output → LoopDef → ℕ → Bool
unfolding continue_by
should_continue_loop last d done =
    ltb_ℤ (pos done) d.max_iterations && continue_by d.condition_type d.condition_key last

-- What the workers make of the group number `i` of the round, on its input.
abbrev pub World : Type 0
World = ℕ → TaskGroup → List Output → GroupResult

pub data BodyResult : Type 0 where
  body_done : List Output → Option Output → BodyResult
  body_failed : String → BodyResult

abbrev pub last_of : List Output → Option Output → Option Output
last_of [] before = before
last_of (o ∷ os) before = last_of os (some o)

-- Whether the last output skips all groups of the body that are left.
unfoldable pub skips_rest : Option Output → ℕ → Bool
unfolding get_skip_groups
skips_rest none left = false
skips_rest (some o) left =
    let skip = get_skip_groups (new_context_from_map o) in
    ltb_ℤ (pos 0) skip && leb left (pos_part skip)

unfoldable pub run_body : World → ℕ → List TaskGroup → List Output → Option Output → BodyResult
unfolding skips_rest
run_body world gi [] all last = body_done all last
run_body world gi (g ∷ gs) all last = elim (world gi g all) [
  | error e ↦ body_failed e
  | outputs os ↦
      let rest = run_body world (suc gi) gs (all ++ os) (last_of os last) in
      if skips_rest (last_of os last) (length gs)
      then body_done (all ++ os) (last_of os last)
      else rest
]

-- `executeLoopBody`, which does not use its upstream outputs.
unfoldable pub execute_loop_body : World → List TaskGroup → List Output → BodyResult
unfolding run_body
execute_loop_body world body upstream = run_body world 0 body [] none

-- The loop's final outputs, with the error that ended it.
abbrev pub LoopEnd : Type 0
LoopEnd = List Output × Option String

-- The workers in each round, and whether the context has ended before it.
pub record Rounds : Type 0 where
  pub worker : ℕ → World
  pub cancelled : ℕ → Option String

-- The `for` loop of `runLoop`, with `left` rounds to go.
unfoldable pub run_rounds : Rounds → LoopDef → List TaskGroup → ℕ → ℕ → List Output → LoopEnd
unfolding execute_loop_body should_continue_loop
run_rounds w d body i zero current = (current, none)
run_rounds w d body i (suc left) current = elim (w.cancelled i) [
  | some e ↦ (current, some e)
  | none ↦
      elim (execute_loop_body (w.worker i) body
        (current ++ ((loop_iteration_key, int (pos i)) ∷ []) ∷ [])) [
          | body_failed e ↦ (current, some e)
          | body_done os last ↦
              let rest = run_rounds w d body (suc i) left (current ++ os) in
              if should_continue_loop last d (suc i) then rest else (current ++ os, none)
        ]
]

-- `runLoop`.
unfoldable pub run_loop : Rounds → LoopDef → List TaskGroup → List Output → LoopEnd
unfolding run_rounds
run_loop w d body upstream = run_rounds w d body 0 (pos_part d.max_iterations) upstream
