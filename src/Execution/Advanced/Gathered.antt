-- ===== src/Execution/Advanced/Gathered.antt =====
-- infra/engine/scheduler/advanced_executor.go and execution_manager.go: every result is in what the
-- nodes of a group come to.
use vibeflow.Prelude.{ℕ, List}
use vibeflow.Model.Value.{Value, Output}
use vibeflow.Execution.FanOut.{build_item_output}

-- What the template answers for an element.
abbrev pub answer_to : (Output → Output) → List Output → ℕ × Value → Output
answer_to answer upstream (i, v) = answer (build_item_output i v upstream)
