-- ===== src/Execution/Loop/Unrolled.antt =====
-- infra/engine/scheduler/advanced_executor.go: `runLoop` against the rounds that it means to run.
use vibeflow.Prelude.{
  ℕ, zero, suc, ◌+◌, ◌≤◌, ◌<◌, ◌≡◌, refl, ◌∙◌, true, false, List, [], ◌++◌, Option, none, pos_part,
  if◌then◌else◌, arith,
}
use vibeflow.Model.Value.{Output}
use vibeflow.Model.Workflow.{TaskGroup, LoopDef}
use vibeflow.Execution.Loop.{
  Rounds, body_done, execute_loop_body, should_continue_loop, run_rounds, run_loop,
}

-- The rounds of a loop from the round `i` on, `n` of them, each without an error: after each but
-- the last the condition holds, after the last it does not.
pub data Unrolled (w : Rounds) (d : LoopDef) (body : List TaskGroup)
    : ℕ → List Output → ℕ → List Output → Type 0 where
  last_round :
      {i : ℕ} {current : List Output} (os : List Output) (last : Option Output)
      → w.cancelled i ≡ none
      → execute_loop_body (w.worker i) body [] ≡ body_done os last
      → should_continue_loop last d (suc i) ≡ false
      → Unrolled w d body i current 1 (current ++ os)
  round :
      {i n : ℕ} {current out : List Output} (os : List Output) (last : Option Output)
      → w.cancelled i ≡ none
      → execute_loop_body (w.worker i) body [] ≡ body_done os last
      → should_continue_loop last d (suc i) ≡ true
      → Unrolled w d body (suc i) (current ++ os) n out
      → Unrolled w d body i current (suc n) out

round_step :
    (w : Rounds) (d : LoopDef) (body : List TaskGroup) (i left : ℕ) (current os : List Output)
    (last : Option Output)
    → w.cancelled i ≡ none
    → execute_loop_body (w.worker i) body [] ≡ body_done os last
    → run_rounds w d body i (suc left) current ≡ (
        if should_continue_loop last d (suc i)
        then run_rounds w d body (suc i) left (current ++ os)
        else (current ++ os, none))
unfolding run_rounds execute_loop_body
round_step w d body i left current os last c b = rw (c, run_rounds) (rw (b, run_rounds) refl)

continue_lt :
    (last : Option Output) (d : LoopDef) (k : ℕ)
    → should_continue_loop last d k ≡ true
    → k < pos_part d.max_iterations
unfolding should_continue_loop
continue_lt last d k h = ground arith

rounds_run :
    (w : Rounds) (d : LoopDef) (body : List TaskGroup) (i left n : ℕ) (current out : List Output)
    → Unrolled w d body i current n out
    → pos_part d.max_iterations ≤ i + left
    → 0 < left
    → run_rounds w d body i left current ≡ (out, none)
rounds_run w d body i zero n current out u m h = absurd (omega arith)
rounds_run w d body i (suc left) n current out (last_round os last c b stop) m h =
    round_step w d body i left current os last c b ∙ rw stop refl
rounds_run w d body i (suc left) n current out (round os last c b go u) m h =
    let further : 0 < left = omega (arith, continue_lt last d (suc i) go) in
    round_step w d body i left current os last c b
    ∙ rw go (rounds_run w d body (suc i) left _ (current ++ os) out u (omega arith) further)

Unrolled-bound :
    (w : Rounds) (d : LoopDef) (body : List TaskGroup) (i n : ℕ) (current out : List Output)
    → i < pos_part d.max_iterations
    → Unrolled w d body i current n out
    → i + n ≤ pos_part d.max_iterations
Unrolled-bound w d body i n current out h (last_round os last c b stop) = omega arith
Unrolled-bound w d body i n current out h (round os last c b go u) =
    omega (
      arith,
      Unrolled-bound w d body (suc i) _ (current ++ os) out (continue_lt last d (suc i) go) u,
    )

-- A loop whose rounds have no error runs exactly the rounds that its condition asks for: with a
-- positive bound, if the condition holds after each of the first rounds and fails after the n-th,
-- the loop ends there, without an error, with the upstream outputs and those of the n rounds, and n
-- is at most the bound.
pub run_loop-Unrolled :
    (w : Rounds) (d : LoopDef) (body : List TaskGroup) (upstream out : List Output) (n : ℕ)
    → 0 < pos_part d.max_iterations
    → Unrolled w d body 0 upstream n out
    → (run_loop w d body upstream ≡ (out, none)) × (n ≤ pos_part d.max_iterations)
unfolding run_loop
run_loop-Unrolled w d body upstream out n h u = (
  rounds_run w d body 0 (pos_part d.max_iterations) n upstream out u (omega arith) h,
  omega (arith, Unrolled-bound w d body 0 n upstream out h u),
)
