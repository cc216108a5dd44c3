-- ===== src/Execution/Run/Termination.antt =====
-- infra/engine/scheduler/execution_manager.go: an execution comes to an end, whatever the workers
-- report, and leaves no workflow that runs with nothing to do.
use vibeflow.Prelude.{
  ℕ, zero, suc, ◌+◌, ◌^◌, ◌<◌, ◌≤◌, ◌≡◌, refl, sym, subst, Bool, true, false, String, List, [], ◌∷◌,
  ◌++◌, none, some, ℤ, pos, string_eq, length, leb, get_elem?, drop, if◌then◌else◌, ◌==◌, arith,
  Option, Option-cases, inl, inr, Bool-cases, not, pos_part, ltb_ℤ, ◌⊎◌, ◌<>◌, decimal,
}
use vibeflow.Model.Value.{Output}
use vibeflow.Model.Workflow.{TaskGroup, WorkflowState}
use vibeflow.Scheduler.State.{System, lock_entry}
use vibeflow.Execution.Control.{
  GroupKind, GroupResult, outputs, error, Next, ended, run_groups, out_of_range,
  detect_advanced_nodes, finish_workflow, group_done, group_or_none, branch_target, group_label,
  advance_workflow, advance_outputs, advance_next, skip_to, advance_to_group, push_branch_groups,
}
use vibeflow.Execution.Run.Settled.{
  Settled, finish_workflow-Settled, fail_group-Settled, pause_for_approval-Settled,
}
use vibeflow.Model.Context.{new_context_from_map, get_approval, get_branch, get_skip_groups}
use vibeflow.Execution.Run.{
  World, Waits, Ending, finished, given_up, panicked, cut_delay, execute_groups,
}
use vibeflow.Execution.Run.Weight.{weight, weight-branch_target, weight-drop-suc, weight-drop-add}

-- A step is good if it settles the workflow, goes on with fewer groups ahead, or leaves the `int`s.
abbrev Good : String → ℕ → Next → Type 0
Good uuid n (ended t) = Settled uuid t
Good uuid n (run_groups d groups os j t) = weight (drop j groups) < n
Good uuid n (out_of_range j t) = 2 ^ 63 ≤ j

advance_next-Good :
    (uuid : String) (groups : List TaskGroup) (next : ℕ) (os : List Output) (s : System) (n : ℕ)
    → weight (drop next groups) < n
    → Good uuid n (advance_next uuid groups next os s)
unfolding advance_next advance_to_group
advance_next-Good uuid groups next os s n h = elim (Bool-cases (leb (length groups) next)) [
  | inl over ↦ rw over (finish_workflow-Settled uuid s)
  | inr more ↦ rw more h
]

skip_to-Good :
    (uuid : String) (groups : List TaskGroup) (next : ℕ) (os : List Output) (s : System) (n : ℕ)
    → weight (drop next groups) < n
    → Good uuid n (skip_to uuid groups next os s)
unfolding skip_to
skip_to-Good uuid groups next os s n h = elim (Bool-cases (leb (2 ^ 63) next)) [
  | inl far ↦ rw far (ground (arith, far))
  | inr near ↦ rw near (advance_next-Good uuid groups next os s n h)
]

push_branch_groups-Good :
    (uuid : String) (groups : List TaskGroup) (os : List Output) (s : System) (n : ℕ)
    → weight groups < n
    → Good uuid n (push_branch_groups uuid groups os 0 s)
unfolding push_branch_groups advance_to_group
push_branch_groups-Good uuid groups os s n h = elim (Bool-cases (leb (length groups) 0)) [
  | inl over ↦ rw over (finish_workflow-Settled uuid s)
  | inr more ↦ rw more h
]

module _ (uuid : String) (st : WorkflowState) (groups : List TaskGroup) (idx : ℕ)
    (inside : idx < length groups) (all merged : List Output) (s : System) where
  next_smaller : (k : ℕ) → weight (drop (suc idx + k) groups) < weight (drop idx groups)
  next_smaller k =
      omega (arith, weight-drop-suc groups idx inside, weight-drop-add groups (suc idx) k)

  advance_outputs-Good :
      (os : List Output)
      → Good uuid (weight (drop idx groups)) (advance_outputs uuid st groups idx all merged os s)
  unfolding advance_outputs
  advance_outputs-Good [] =
      advance_next-Good uuid groups (suc idx) merged s (weight (drop idx groups))
        (omega (arith, weight-drop-suc groups idx inside))
  advance_outputs-Good (o ∷ os) =
      elim (Bool-cases (not (get_approval (new_context_from_map o) == ""))) [
        | inl asks ↦ rw asks (pause_for_approval-Settled uuid st idx o s)
        | inr silent ↦
            rw silent
              (elim (Option-cases (branch_target (get_branch (new_context_from_map o)) here)) [
                | inr (gs, chosen) ↦
                    rw (chosen, advance_outputs)
                      (push_branch_groups-Good uuid gs all s (weight (drop idx groups)) (
                        omega (
                          arith,
                          weight-drop-suc groups idx inside,
                          weight-branch_target (get_branch (new_context_from_map o)) here gs chosen,
                        )))
                | inl straight ↦
                    rw (straight, advance_outputs)
                      (skipping (Bool-cases skips) (advance_outputs-Good os))
              ])
      ]
    where
      here : TaskGroup
      here = group_or_none (get_elem? groups idx)

      skip : ℤ
      skip = get_skip_groups (new_context_from_map o)

      skips : Bool
      skips = ltb_ℤ (pos 0) skip

      skipping :
          (skips ≡ true) ⊎ (skips ≡ false)
          → Good uuid
              (weight (drop idx groups))
              (advance_outputs uuid st groups idx all merged os s)
          → Good uuid (weight (drop idx groups)) (
              if skips
              then skip_to uuid groups (suc idx + pos_part skip) all s
              else advance_outputs uuid st groups idx all merged os s)
      skipping (inl far) later = rw far (
          skip_to-Good uuid groups (suc idx + pos_part skip) all s (weight (drop idx groups))
            (next_smaller (pos_part skip)))
      skipping (inr near) later = rw near later

group_done-Good :
    (uuid : String) (groups : List TaskGroup) (idx : ℕ) (upstream : List Output) (kind : GroupKind)
    (report : GroupResult) (s : System)
    → idx < length groups
    → Good uuid (weight (drop idx groups)) (group_done uuid groups idx upstream kind report s)
unfolding group_done advance_workflow
group_done-Good uuid groups idx upstream kind (error e) s h =
    fail_group-Settled uuid (group_label kind <> decimal (suc idx) <> " 执行失败: " <> e) s
group_done-Good uuid groups idx upstream kind (outputs os) s h =
    elim (Option-cases (lock_entry uuid s)) [
      | inl gone ↦ rw (gone, group_done) (gone_settled gone)
      | inr (e, there) ↦
          rw (there, group_done)
            (advance_outputs-Good uuid e.state groups idx h os (upstream ++ os) s os)
    ]
  where
    gone_settled : lock_entry uuid s ≡ none → Settled uuid s
    gone_settled gone = rw gone tt

-- The context ended while a group waited for its delay.
abbrev pub WasCut : Waits → System → Type 0
WasCut waits u =
    (left : ℕ) × (delay : ℤ) × (t : System) × (ltb_ℤ (pos 0) delay ≡ true)
    × (waits left delay t ≡ some u)

abbrev pub EndsWell : Waits → String → Ending → Type 0
EndsWell waits uuid (finished t) = Settled uuid t
EndsWell waits uuid (given_up u) = WasCut waits u
EndsWell waits uuid (panicked j u) = 2 ^ 63 ≤ j

abbrev pub Ends : Waits → String → Option Ending → Type 0
Ends waits uuid result = (e : Ending) × (result ≡ some e) × EndsWell waits uuid e

cut_delay-WasCut :
    (waits : Waits) (left : ℕ) (delay : ℤ) (t u : System)
    → cut_delay waits left delay t ≡ some u
    → WasCut waits u
unfolding cut_delay
cut_delay-WasCut waits left delay t u h = elim (Bool-cases (ltb_ℤ (pos 0) delay)) [
  | inl long ↦ (left, delay, t, long, ground (arith, long, h))
  | inr short ↦ absurd (ground (arith, short, h))
]

-- The execution of task groups comes to an end, whatever the workers report for each group and
-- whatever other goroutines do to the state meanwhile: a fuel above the number of groups ahead, those of all branches included, is
-- enough. Then the workflow is paused or has left the running set, the context has ended while a
-- group waited for its delay, or the program panics, since the index of a group and a skip count add up
-- to 2 ^ 63 or more, no `int`.
pub execute_groups-Ends :
    (world : World) (waits : Waits) (fuel : ℕ) (uuid : String) (groups : List TaskGroup)
    (upstream : List Output) (idx : ℕ) (s : System)
    → weight (drop idx groups) < fuel
    → Ends waits uuid (execute_groups world waits fuel uuid groups upstream idx s)
unfolding execute_groups
execute_groups-Ends world waits zero uuid groups upstream idx s h = absurd (omega arith)
execute_groups-Ends world waits (suc fuel) uuid groups upstream idx s h =
    elim (Bool-cases (leb (length groups) idx)) [
      | inl over ↦ (finished (finish_workflow uuid s), rw over refl, finish_workflow-Settled uuid s)
      | inr more ↦ rw more (
          go (group_done uuid groups idx upstream kind report.0 report.1)
            (group_done-Good uuid groups idx upstream kind report.0 report.1 (ground (arith, more)))
            (λ gs os j u small. execute_groups-Ends world waits fuel uuid gs os j u small))
    ]
  where
    kind : GroupKind
    kind = detect_advanced_nodes (group_or_none (get_elem? groups idx))

    report : GroupResult × System
    report = world fuel kind (group_or_none (get_elem? groups idx)) upstream s

    after_wait : List TaskGroup → List Output → ℕ → System → Option System → Option Ending
    after_wait gs os j u cut = elim cut [
      | none ↦ execute_groups world waits fuel uuid gs os j u
      | some v ↦ some (given_up v)
    ]

    after : Next → Option Ending
    after next = elim next [
      | ended u ↦ some (finished u)
      | run_groups d gs os j u ↦ after_wait gs os j u (cut_delay waits fuel d u)
      | out_of_range j u ↦ some (panicked j u)
    ]

    Later : Type 0
    Later =
        (gs : List TaskGroup) (os : List Output) (j : ℕ) (u : System)
        → weight (drop j gs) < fuel
        → Ends waits uuid (execute_groups world waits fuel uuid gs os j u)

    go :
        (next : Next)
        → Good uuid (weight (drop idx groups)) next
        → Later
        → Ends waits uuid (after next)
    go (ended u) good later = (finished u, refl, good)
    go (out_of_range j u) good later = (panicked j u, refl, good)
    go (run_groups d gs os j u) good later =
        let ends = λ (cut : Option System). Ends waits uuid (after_wait gs os j u cut) in
        elim (Option-cases (cut_delay waits fuel d u)) [
          | inl up ↦ subst ends (sym up) (later gs os j u (omega arith))
          | inr (v, over) ↦
              subst ends (sym over) (given_up v, refl, cut_delay-WasCut waits fuel d u v over)
        ]
