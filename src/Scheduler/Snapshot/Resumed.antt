-- ===== src/Scheduler/Snapshot/Resumed.antt =====
-- infra/engine/scheduler/repository.go: where a recovered workflow goes on.
use vibeflow.Prelude.{
  ℕ, zero, suc, ◌<◌, ◌≡◌, refl, ap, ◌∙◌, Bool, true, false, String, List, [], ◌∷◌, ◌++◌, Map, none,
  some, pos, ltb_ℤ, has, all, string_eq, ◌==◌, get_elem?, length, ltb, arith, if◌then◌else◌,
  if_true, if_false, beq_refl, lookup-insert,
}
use vibeflow.Model.Value.{Output}
use vibeflow.Model.Workflow.{WorkflowState, TaskNode, TaskGroup, name_of}
use vibeflow.Model.Delta.{TaskDelta, apply_deltas}
use vibeflow.Scheduler.State.{System, Entry, emit, put_entry, lock_entry, watch_status}
use vibeflow.Scheduler.Snapshot.{
  group_outputs, resume_point, recovered_state, relaunch, recover_named, recover_single_workflow,
  uuid_of,
}

-- All tasks of the group are completed.
unfoldable pub is_done : Map String Output → List TaskNode → Bool
is_done done = all (λ n. has (name_of n) done)

group_outputs-is_done :
    (done : Map String Output) (g : List TaskNode)
    → is_done done g ≡ elim (group_outputs done g) [ none ↦ false | some os ↦ true ]
unfolding is_done group_outputs all has
group_outputs-is_done done [] = refl
group_outputs-is_done done (n ∷ ns) = ground (arith, group_outputs-is_done done ns)

-- A recovered workflow goes on at the first group that is not done: all groups before are done,
-- and the group itself is not.
pub resume_point-first :
    (done : Map String Output) (gs : List TaskGroup) (j : ℕ) (g : TaskGroup)
    → get_elem? gs j ≡ some g
    → (j < (resume_point done gs).0 → is_done done g ≡ true)
      × (j ≡ (resume_point done gs).0 → is_done done g ≡ false)
unfolding resume_point
resume_point-first done [] j g h = absurd (ground (arith, h))
resume_point-first done (f ∷ gs) zero g h =
    ground (arith, h, group_outputs-is_done done f, group_outputs-is_done done g)
resume_point-first done (f ∷ gs) (suc j) g h =
    let ih = resume_point-first done gs j g h in ground (arith, ih.0, ih.1)

abbrev pub AllDone : Map String Output → List TaskGroup → Type 0
AllDone done [] = Unit {0}
AllDone done (g ∷ gs) = (is_done done g ≡ true) × AllDone done gs

resumed_at_end :
    (done : Map String Output) (gs : List TaskGroup)
    → AllDone done gs
    → (resume_point done gs).0 ≡ length gs
unfolding resume_point
resumed_at_end done [] a = refl
resumed_at_end done (g ∷ gs) a =
    ground (arith, a.0, group_outputs-is_done done g, resumed_at_end done gs a.1)

-- A workflow without a time limit, all of whose tasks were completed before the master went down, is
-- put back into the running set and only watched: nothing executes it, so that nothing ends it.
pub recover-AllDone :
    (st : WorkflowState) (ds : List TaskDelta) (now : ℕ) (s : System)
    → (st.workflow_uuid == "") ≡ false
    → lock_entry st.workflow_uuid s ≡ none
    → ltb_ℤ (pos 0) (apply_deltas ds st).workflow.timeout_sec ≡ false
    → AllDone (apply_deltas ds st).completed_tasks (apply_deltas ds st).workflow.task_groups
    → ((recover_single_workflow st ds now s).log ≡ s.log ++ watch_status st.workflow_uuid ∷ [])
      × (lock_entry st.workflow_uuid (recover_single_workflow st ds now s)
          ≡ some (record { state = recovered_state (apply_deltas ds st); recovered = true }))
unfolding recover_single_workflow recover_named relaunch recovered_state put_entry emit
recover-AllDone st ds now s named new timeless done =
    let u = st.workflow_uuid in
    let restored = apply_deltas ds st in
    let entry : Entry = record { state = recovered_state restored; recovered = true } in
    let known : uuid_of st ≡ u = if_false _ _ _ named in
    let at_end : ltb (resume_point restored.completed_tasks restored.workflow.task_groups).0
          (length restored.workflow.task_groups)
        ≡ false =
      ground (arith, resumed_at_end restored.completed_tasks restored.workflow.task_groups done) in
    let by_name : recover_single_workflow st ds now s ≡ recover_named u restored now s =
      ap (λ x. if x == "" then s else recover_named x restored now s) known
      ∙ if_false _ _ _ named in
    let started : recover_named u restored now s
        ≡ relaunch u (recovered_state restored) now (put_entry u entry s) =
      rw (new, recover_named) refl in
    let watched : relaunch u (recovered_state restored) now (put_entry u entry s)
        ≡ emit (watch_status u) (put_entry u entry s) =
      if_false _ _ _ at_end ∙ if_false _ _ _ timeless in
    let all = by_name ∙ started ∙ watched in
    (
      ap (λ t. t.log) all,
      ap (lock_entry u) all
          ∙ lookup-insert u u entry s.wm.running_entries
          ∙ if_true _ _ _ (beq_refl u),
    )
