-- ===== src/Execution/Operations/Kept.antt =====
-- infra/engine/scheduler/execution_manager.go and workflow_manager.go: what the end of a task group and
-- the start of a workflow keep.
use vibeflow.Prelude.{
  ℕ, suc, Bool, true, false, String, List, [], ◌∷◌, Option, none, some, if◌then◌else◌, string_eq,
  Option-cases, inl, inr, get_elem?,
}
use vibeflow.Model.Value.{Output}
use vibeflow.Model.Context.{new_context_from_map, get_branch}
use vibeflow.Model.Workflow.{WorkflowState, TaskGroup}
use vibeflow.Scheduler.State.{Manager, System, emit, lock_entry}
use vibeflow.Scheduler.Closed.{Closed, Keeps}
use vibeflow.Scheduler.Closed.Calls.{complete_entry-Kept}
use vibeflow.Scheduler.Init.{
  InitAnswers, take_out, cleanup_workflow_state, numbered, created_init, serialized_init,
  saved_init, async_init_mysql, clear_failed_task,
}
use vibeflow.Execution.Control.{
  GroupKind, GroupResult, outputs, error, Next, finish_workflow, fail_group, push_branch_groups,
  pause_for_approval, branch_target, group_or_none, advance_to_group, advance_next, skip_to,
  advance_outputs, advance_workflow, group_done,
}
use vibeflow.Execution.Operations.{state_of}

module _ (P : Manager → Type 0) (c : Closed P) where
  abbrev Goes : (System → Next) → Type 0
  Goes f = (s : System) → P s.wm → P (state_of (f s)).wm

  next_if :
      (b : Bool) (n m : Next)
      → P (state_of n).wm
      → P (state_of m).wm
      → P (state_of (if b then n else m)).wm
  next_if true n m h k = h
  next_if false n m h k = k

  finish-Kept : (uuid : String) → Keeps P c (finish_workflow uuid)
  unfolding finish_workflow emit
  finish-Kept uuid s h = complete_entry-Kept P c uuid s h

  pause-Kept :
      (uuid : String) (seen : WorkflowState) (idx : ℕ) (o : Output)
      → Keeps P c (pause_for_approval uuid seen idx o)
  unfolding pause_for_approval emit
  pause-Kept uuid seen idx o s h = elim (Option-cases (lock_entry uuid s)) [
    | inl n ↦ rw (n, pause_for_approval) h
    | inr (e, n) ↦ rw (n, pause_for_approval) (search (c.puts))
  ]

  branch-Kept :
      (uuid : String) (groups : List TaskGroup) (upstream : List Output) (idx : ℕ)
      → Goes (push_branch_groups uuid groups upstream idx)
  unfolding push_branch_groups advance_to_group
  branch-Kept uuid groups upstream idx s h = search (next_if, finish-Kept)

  next-Kept :
      (uuid : String) (groups : List TaskGroup) (next : ℕ) (upstream : List Output)
      → Goes (advance_next uuid groups next upstream)
  unfolding advance_next advance_to_group
  next-Kept uuid groups next upstream s h = search (next_if, finish-Kept)

  skip-Kept :
      (uuid : String) (groups : List TaskGroup) (next : ℕ) (upstream : List Output)
      → Goes (skip_to uuid groups next upstream)
  unfolding skip_to
  skip-Kept uuid groups next upstream s h = search (next_if, next-Kept)

  outputs-Kept :
      (uuid : String) (st : WorkflowState) (groups : List TaskGroup) (idx : ℕ)
      (all merged os : List Output)
      → Goes (advance_outputs uuid st groups idx all merged os)
  unfolding advance_outputs
  outputs-Kept uuid st groups idx all merged [] s h = next-Kept uuid groups (suc idx) merged s h
  outputs-Kept uuid st groups idx all merged (o ∷ os) s h =
      let rest = outputs-Kept uuid st groups idx all merged os s h in
      let b = get_branch (new_context_from_map o) in
      let target = branch_target b (group_or_none (get_elem? groups idx)) in
      elim (Option-cases target) [
        | inl n ↦ rw (n) (search (next_if, rest, skip-Kept, pause-Kept))
        | inr (branch, n) ↦ rw (n) (search (next_if, branch-Kept, pause-Kept))
      ]

  fail_group-Kept : (uuid message : String) → Keeps P c (fail_group uuid message)
  unfolding fail_group emit
  fail_group-Kept uuid message s h = elim (Option-cases (lock_entry uuid s)) [
    | inl n ↦ rw (n, fail_group) h
    | inr (e, n) ↦ rw (n, fail_group) (search (c.persists, c.puts))
  ]

  pub group_done-Kept :
      (uuid : String) (groups : List TaskGroup) (idx : ℕ) (upstream : List Output)
      (kind : GroupKind) (r : GroupResult)
      → Goes (group_done uuid groups idx upstream kind r)
  unfolding group_done advance_workflow
  group_done-Kept uuid groups idx upstream kind (error e) s h = search (fail_group-Kept)
  group_done-Kept uuid groups idx upstream kind (outputs os) s h =
      elim (Option-cases (lock_entry uuid s)) [
        | inl n ↦ rw (n, group_done) h
        | inr (e, n) ↦ rw (n, group_done) (search (outputs-Kept))
      ]

  pub cleanup_state-Kept : (uuid : String) → Keeps P c (cleanup_workflow_state uuid)
  unfolding cleanup_workflow_state take_out emit
  cleanup_state-Kept uuid s h = elim (Option-cases (lock_entry uuid s)) [
    | inl n ↦ rw (n, cleanup_workflow_state) h
    | inr (e, n) ↦ rw (n, cleanup_workflow_state) (c.drops uuid s.wm h)
  ]

  pub clear_failed-Kept : (uuid task : String) → Keeps P c (clear_failed_task uuid task)
  unfolding clear_failed_task
  clear_failed-Kept uuid task s h = elim (Option-cases (lock_entry uuid s)) [
    | inl n ↦ rw (n, clear_failed_task) h
    | inr (e, n) ↦ rw (n, clear_failed_task) (search (c.puts))
  ]

  numbered-Kept : (uuid : String) (id : ℕ) → Keeps P c (numbered uuid id)
  unfolding numbered
  numbered-Kept uuid id s h = elim (Option-cases (lock_entry uuid s)) [
    | inl n ↦ rw (n, numbered) h
    | inr (e, n) ↦ rw (n, numbered) (search (c.puts))
  ]

  -- From the second write on, for both answers of the JSON library.
  serialized-Kept :
      (uuid : String) (serialized : Bool) (o : Option ℕ)
      → Keeps P c (λ s. (serialized_init uuid serialized o (λ t. t) s).0)
  unfolding serialized_init created_init
  serialized-Kept uuid false o s h = cleanup_state-Kept uuid s h
  serialized-Kept uuid true none s h = cleanup_state-Kept uuid s h
  serialized-Kept uuid true (some id) s h = numbered-Kept uuid id s h

  pub init-Kept :
      (uuid : String) (a : InitAnswers) → Keeps P c (λ s. (async_init_mysql uuid a (λ t. t) s).0)
  unfolding async_init_mysql
  init-Kept uuid a s h = by_saved a.saved
    where
      by_saved : (o : Option ℕ) → P (saved_init uuid o a.serialized a.created (λ t. t) s).0.wm
      by_saved none = unfold saved_init in cleanup_state-Kept uuid s h
      by_saved (some id) = elim (Option-cases (lock_entry uuid s)) [
        | inl n ↦ rw (n, saved_init) h
        | inr (e, n) ↦ rw (n, saved_init) (search (serialized-Kept, c.puts))
      ]
