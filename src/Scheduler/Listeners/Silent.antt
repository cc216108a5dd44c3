-- ===== src/Scheduler/Listeners/Silent.antt =====
-- infra/engine/scheduler/scheduler.go: a listener whose place another one takes.
use vibeflow.Prelude.{
  ℕ, suc, ◌<◌, ◌≡◌, sym, ap, ◌∙◌, subst, false, String, List, ◌∷◌, Map, none, some, lookup, insert,
  lookup-insert, string_eq, nat_eq, beq_refl, if_true, arith,
}
use vibeflow.Scheduler.Listeners.{
  TaskChannel, TaskListeners, or_empty, chans_of, register_task_listener, Call, registers, call,
  calls,
}
use vibeflow.Scheduler.Listeners.Entries.{insert-insert, All, All-insert, All-weaken}
use vibeflow.Scheduler.Listeners.Kept.{Other, Kept, insert-Other, chans_of-All, calls-Kept}

-- The channels in the maps were made.
abbrev pub AllMade : TaskListeners → Type 0
AllMade s = All (All (λ id. id < s.made)) s.listeners

-- The maps after a second registration for the task know the second channel only.
both_registered :
    (uuid task : String) (i j : ℕ) (m : Map String (Map String ℕ))
    → insert uuid
        (insert task j (chans_of uuid (insert uuid (insert task i (chans_of uuid m)) m)))
        (insert uuid (insert task i (chans_of uuid m)) m)
      ≡ insert uuid (insert task j (chans_of uuid m)) m
both_registered uuid task i j m =
    let first = insert task i (chans_of uuid m) in
    let there : chans_of uuid (insert uuid first m) ≡ first =
      ap or_empty (lookup-insert uuid uuid first m ∙ if_true _ _ _ (beq_refl uuid)) in
    insert-insert uuid (insert task j (chans_of uuid (insert uuid first m))) first m
    ∙ ap (λ c. insert uuid (insert task j c) m) there
    ∙ ap (λ c. insert uuid c m) (insert-insert task j i (chans_of uuid m))

-- When a second listener registers for the same task of the same workflow, as for two elements of one
-- Fan-Out that run at once, the channel of the first is out of reach: whatever registrations,
-- ends of tasks and clean-ups follow, no event is ever sent on it, and it is never closed.
pub overtaken-silent :
    (uuid task : String) (s t : TaskListeners) (cs : List Call)
    → AllMade s
    → calls (registers uuid task ∷ registers uuid task ∷ cs) s ≡ some t
    → lookup s.made t.heap ≡ some (record { event = none; closed = false })
unfolding calls call register_task_listener
overtaken-silent uuid task s t cs made went =
    let ch : TaskChannel = record { event = none; closed = false } in
    let a = s.made in
    let r : TaskListeners =
      (register_task_listener uuid task (register_task_listener uuid task s).0).0 in
    let others : All (All (Other a ch)) s.listeners =
      All-weaken (All (λ id. id < a)) (All (Other a ch)) s.listeners
        (λ c.
          All-weaken (λ id. id < a) (Other a ch) c (λ id below same. omega (arith, below, same)))
        made in
    let next : Other a ch (suc a) = λ same. omega (arith, same) in
    let known : All (All (Other a ch)) r.listeners =
      subst (All (All (Other a ch))) (sym (both_registered uuid task a (suc a) s.listeners)) (
        All-insert (All (Other a ch)) uuid (insert task (suc a) (chans_of uuid s.listeners))
          s.listeners
          (All-insert (Other a ch) task (suc a) (chans_of uuid s.listeners) next
            (chans_of-All a ch uuid s.listeners others))
          others) in
    let there : lookup a r.heap ≡ some ch =
      insert-Other a ch (suc a) ch (insert a ch s.heap) next
        (lookup-insert a a ch s.heap ∙ if_true _ _ _ (beq_refl a)) in
    (subst (Kept a ch) went (calls-Kept a ch cs r (omega arith, known, there))).2
