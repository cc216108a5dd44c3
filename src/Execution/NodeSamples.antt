-- ===== src/Execution/NodeSamples.antt =====
-- The theorems on sub-workflows and Fan-Outs at small inputs.
use vibeflow.Prelude.{ℕ, String, List, [], ◌∷◌, pos, lookup, string_eq, any, has, arith, nat_eq}
use vibeflow.Model.Value.{Value, Output, int, slice, item, end}
use vibeflow.Model.Workflow.{FanOutDef}
use vibeflow.Model.Samples.{plain}
use vibeflow.Scheduler.Samples.{system, manager, entry}
use vibeflow.Scheduler.State.{System, max_cache}
use vibeflow.Scheduler.Closed.Bounded.{Remembers}
use vibeflow.Execution.Operations.{approves, cancels, retries, times_out, performs}
use vibeflow.Execution.Operations.Remembered.{performs-Remembers}
use vibeflow.Execution.Advanced.{numbered}

abbrev size_three : String × Value
size_three = ("size", int (pos 3))

abbrev sizes : FanOutDef
sizes = record {
  iterator_key = "sizes";
  task = plain "resize";
  max_parallel = pos 2;
  output_key = "";
}

abbrev two_sizes : Output
two_sizes = ("sizes", slice (item (int (pos 3)) (item (int (pos 5)) end))) ∷ []

abbrev answer : Output → Output
answer o = size_three ∷ []

abbrev two_items : List (ℕ × Value)
two_items = numbered 0 (int (pos 3) ∷ int (pos 5) ∷ [])

-- One execution in the history, one running.
abbrev remembering : System
remembering = record system {
  wm = record manager {
    workflow_history = (3, entry.state) ∷ [];
    history_by_uuid = ("u1", 3 ∷ []) ∷ [];
  };
}

system-Remembers : Remembers remembering.wm
unfolding lookup any has max_cache
system-Remembers = record {
  bounded = omega arith;
  listed = λ id there. ground arith;
  recent = λ uuid. ground arith;
}

performs-Remembers_example :
    Remembers
      (performs
        (approves "u1" ∷ cancels "u1" ∷ retries "u1" 40 ∷ times_out "u1" "1m0s" ∷ [])
        remembering).wm
performs-Remembers_example =
    performs-Remembers (approves "u1" ∷ cancels "u1" ∷ retries "u1" 40 ∷ times_out "u1" "1m0s" ∷ [])
      remembering system-Remembers
