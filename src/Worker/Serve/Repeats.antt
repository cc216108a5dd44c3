-- ===== src/Worker/Serve/Repeats.antt =====
-- infra/engine/runtime/worker.go with executor.go: what becomes of a task that a worker is given.
use mathlib.Core.Bool.{Bool-set}
use mathlib.Core.List.{Mem, mem-cons_self, mem-cons_of_mem, forall_mem-cons}
use mathlib.Core.List.Perm
use vibeflow.Prelude.{
  ℕ, zero, suc, ◌+◌, ◌≡◌, refl, sym, ap, ◌∙◌, subst, true, false, String, [], ◌∷◌, some, ℤ, arith,
  length, ltb, has, string_eq, if_true, if_false, Option-cases, inl, inr,
}
use vibeflow.Circuit.{Breaker, closed, allow, success}
use vibeflow.Model.Context.{Context, new_context}
use vibeflow.Store.{TaskPayload, TaskStatus}
use vibeflow.Heap
use vibeflow.Heap.Swap.{length-Perm}
use vibeflow.Heap.Up.{push-Perm}
use vibeflow.Heap.Pop.{pop-Perm}
use vibeflow.Worker.Queue.{
  TaskQueue, PrioritizedTask, event, less, enqueue, dequeue_round, pop_top, take_top,
}
use vibeflow.Worker.Registry.{Registry}
use vibeflow.Worker.Reporter.{report, report_from, Attempt}
use vibeflow.Worker.Executor.{
  Reports, RunError, no_error, run_error, ended_as, executed, execute_with_mutex, run, set_all,
}
use vibeflow.Worker.Serve.{
  Event, event_put, accepts, deliver, deliver_writes, Worker, serve, serves, serve_answer,
  serve_payload,
}

-- The queue is open and holds `n` events, all of which the worker's watch lets through.
pub record Holding (reg : Registry) (n : ℕ) (q : TaskQueue Event) : Type 0 where
  pub open_still : q.closed ≡ false
  pub size : length q.items ≡ n
  pub accepted : (t : PrioritizedTask Event) → Mem t q.items → accepts reg t.event ≡ true

enqueue-Holding :
    (reg : Registry) (n : ℕ) (e : Event) (p : ℤ) (q : TaskQueue Event)
    → accepts reg e ≡ true
    → Holding reg n q
    → Holding reg (suc n) (enqueue e p q)
unfolding enqueue
enqueue-Holding reg n e p q h v =
    let t : PrioritizedTask Event = record { event = e; priority = p; index = suc q.next_index } in
    let perm = push-Perm less t q.items in
    subst (Holding reg (suc n)) (sym (if_false q.closed _ _ v.open_still)) (record {
      open_still = v.open_still;
      size = length-Perm perm ∙ ap suc v.size;
      accepted =
          λ u m. (forall_mem-cons λ w. Bool-set _ _).1 (h, v.accepted) u ((Perm.mem_iff perm).0 m);
    })

deliver-Holding :
    (reg : Registry) (n : ℕ) (key : String) (p : TaskPayload) (q : TaskQueue Event)
    → has p.task_name reg ≡ true
    → Holding reg n q
    → Holding reg (suc n) (deliver reg (record { type = event_put; key = key; value = some p }) q)
unfolding deliver accepts
deliver-Holding reg n key p q h v = rw h (
    enqueue-Holding reg n (record { type = event_put; key = key; value = some p }) p.priority q h v)

ended_as-name : (p : TaskPayload) (r : RunError × Context) → (ended_as p r).task_name ≡ p.task_name
unfolding ended_as
ended_as-name p (no_error, c) = refl
ended_as-name p (run_error m n, c) = refl

-- The report is stored at its first attempt.
abbrev pub IsPrompt : Reports → Type 0
IsPrompt rs =
    (rs.running_serialized ≡ true)
    × (rs.final_serialized ≡ true)
    × ((rs.running 0).cancelled ≡ false)
    × ((rs.running 0).stored ≡ true)
    × ((rs.final 0).cancelled ≡ false)
    × ((rs.final 0).stored ≡ true)

prompt_report :
    (tries : ℕ → Attempt) (now : ℕ) (b : Breaker)
    → b.state ≡ closed
    → (tries 0).cancelled ≡ false
    → (tries 0).stored ≡ true
    → ((report true tries now b).1 ≡ true) × ((report true tries now b).0.state ≡ closed)
unfolding report report_from allow success
prompt_report tries now b h c s = (ground (arith, h, c, s), ground (arith, h, c, s))

executed-name : (reg : Registry) (p : TaskPayload) → (executed reg p).task_name ≡ p.task_name
unfolding executed
executed-name reg p = ended_as-name p (run reg p (set_all p.input new_context))

-- With both reports stored, the task is run once and both records are written.
mutex_run :
    (reg : Registry) (rs : Reports) (p : TaskPayload) (b : Breaker)
    → b.state ≡ closed
    → IsPrompt rs
    → ((execute_with_mutex reg true rs p b).writes
        ≡ record p { status = TaskStatus.running }
          ∷ executed reg (record p { status = TaskStatus.running })
          ∷ [])
      × ((execute_with_mutex reg true rs p b).runs ≡ 1)
      × ((execute_with_mutex reg true rs p b).breaker.state ≡ closed)
unfolding execute_with_mutex
mutex_run reg rs p b h (sr, sf, cr, tr, cf, tf) =
    let (told, after) = prompt_report rs.running rs.running_at b h cr tr in
    let (told', after') =
      prompt_report rs.final rs.final_at (report true rs.running rs.running_at b).0 after cf tf in
    rw (sr, sf) (rw told (rw told' (refl, refl, after')))

-- A worker that stands before a round.
pub record Loaded (reg : Registry) (n : ℕ) (w : Worker) : Type 0 where
  pub holding : Holding reg n w.queue
  pub connected : w.breaker.state ≡ closed

taken-Holding :
    (reg : Registry) (n : ℕ) (q : TaskQueue Event)
    → Holding reg (suc n) q
    → (e : Event) × ((dequeue_round q).1 ≡ event e)
      × (accepts reg e ≡ true)
      × Holding reg n (dequeue_round q).0
unfolding dequeue_round pop_top take_top
taken-Holding reg n q v =
    let some_left : ltb 0 (length q.items) ≡ true = ground (arith, v.size) in
    let same : dequeue_round q ≡ pop_top q = if_true _ _ _ some_left in
    let (x, _, given, perm) = pop-Perm less q.items (omega (arith, v.size)) in
    let rest = (Heap.pop less q.items).1 in
    (
      x.event,
      ap (λ r. r.1) same ∙ ap take_top given,
      v.accepted x ((Perm.mem_iff perm).0 mem-cons_self),
      subst (λ r. Holding reg n r.0) (sym same)
          (record {
            open_still = v.open_still;
            size = omega (arith, length-Perm perm, v.size);
            accepted = λ u m. v.accepted u ((Perm.mem_iff perm).0 (mem-cons_of_mem x m));
          }),
    )

accepted_payload :
    (reg : Registry) (e : Event)
    → accepts reg e ≡ true
    → (p : TaskPayload) × (e.value ≡ some p) × (has p.task_name reg ≡ true)
unfolding accepts
accepted_payload reg e h = elim (Option-cases e.value) [
  | inl gone ↦ absurd (ground (arith, gone, h))
  | inr (p, there) ↦ (p, there, ground (arith, there, h))
]

serve-Loaded :
    (reg : Registry) (rs : Reports) (n : ℕ) (w : Worker)
    → IsPrompt rs
    → Loaded reg (suc n) w
    → Loaded reg (suc (suc n)) (serve reg rs w) × ((serve reg rs w).runs ≡ w.runs + 1)
unfolding serve serve_answer serve_payload deliver_writes
serve-Loaded reg rs n w prompt v =
    let (e, given, ok, rest) = taken-Holding reg n w.queue v.holding in
    let (p, there, known) = accepted_payload reg e ok in
    let q = (dequeue_round w.queue).0 in
    let (writes, ran, after) = mutex_run reg rs p w.breaker v.connected prompt in
    let started = record p { status = TaskStatus.running } in
    let result = executed reg started in
    let one = deliver-Holding reg n e.key started q known rest in
    let known' : has result.task_name reg ≡ true =
      ap (λ m. has m reg) (executed-name reg started) ∙ known in
    let two =
      deliver-Holding reg (suc n) e.key result
        (deliver reg (record { type = event_put; key = e.key; value = some started }) q) known'
        one in
    let step : serve reg rs w ≡ serve_payload reg rs e.key (some p) (record w { queue = q }) =
      ap (λ a. serve_answer reg rs a (record w { queue = q })) given
      ∙ ap (λ o. serve_payload reg rs e.key o (record w { queue = q })) there in
    subst (λ u. Loaded reg (suc (suc n)) u × (u.runs ≡ w.runs + 1)) (sym step)
      (
        record {
          holding =
              subst (λ ps. Holding reg (suc (suc n)) (deliver_writes reg e.key ps q)) (sym writes)
                two;
          connected = after;
        },
        ap (λ k. w.runs + k) ran,
      )

-- A worker that uses the lock of etcd, with a task it was given once, runs tasks in every round for
-- ever when its reports get through: its own reports come back to it as events of the same key,
-- which neither the watch nor the executor turns away. After `k` rounds it has run tasks `k` times
-- more, and `k` more events wait.
pub serves-repeats :
    (reg : Registry) (rs : ℕ → Reports) (k n : ℕ) (w : Worker)
    → ((i : ℕ) → IsPrompt (rs i))
    → Loaded reg (suc n) w
    → Loaded reg (suc n + k) (serves reg rs k w) × ((serves reg rs k w).runs ≡ w.runs + k)
unfolding serves
serves-repeats reg rs zero n w prompt v =
    let none_more : suc n ≡ suc n + 0 = omega arith in
    (subst (λ m. Loaded reg m w) none_more v, omega arith)
serves-repeats reg rs (suc k) n w prompt v =
    let (once, ran) = serve-Loaded reg (rs 0) n w (prompt 0) v in
    let later = λ (i : ℕ). rs (suc i) in
    let (loaded, runs) =
      serves-repeats reg later k (suc n) (serve reg (rs 0) w) (λ i. prompt (suc i)) once in
    let one_more : suc (suc n) + k ≡ suc n + suc k = omega arith in
    (
      subst (λ m. Loaded reg m (serves reg later k (serve reg (rs 0) w))) one_more loaded,
      omega (arith, ran, runs),
    )
