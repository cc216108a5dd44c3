-- ===== src/Worker/Lock/Exclusion.antt =====
-- infra/engine/runtime/cas_lock.go: any number of workers at one task key, in any interleaving.
use vibeflow.Prelude.{
  ℕ, zero, suc, ◌≡◌, refl, sym, ap, subst, Bool, true, false, String, List, [], ◌∷◌, nat_beq,
  nat_beq_iff, arith, Bool-cases, inl, inr,
}
use vibeflow.Store.{TaskPayload, TaskStatus}
use vibeflow.Worker.Lock.{
  Stored, task, KeyValue, is_pending, Phase, reading, writing, acquired, refused, after_read,
  after_conflict, after_write, acquire_step, update_status,
}
use vibeflow.Worker.Lock.Moves.{
  Move, access, give_up, lose_answer, report, Workers, put, given_up, all_start, outcome, report_by,
  move, moves,
}
use vibeflow.Worker.Lock.Invariant.{
  is_open, holds, Ahead, Inv, put-Inv, raised-Inv, acquired-Inv, holds-cases, after_read-Ahead,
}

module _ (kv : KeyValue) (key : String) where
  open kv use {State, get_with_revision, cas_put, cas_won, cas_lost}

  abbrev At : State → Workers → Type 0
  At s ws = Inv (get_with_revision key s).0 (get_with_revision key s).1 ws

  -- A conditional write of a task that is no longer pending keeps the workers in order.
  cas-At :
      (p : TaskPayload) (q : ℕ) (s : State) (ws : Workers)
      → is_pending p.status ≡ false
      → At s ws
      → At (cas_put key (task p) q s).0 ws
  cas-At p q s ws shut inv = elim (Bool-cases (nat_beq (get_with_revision key s).1 q)) [
    | inl same ↦
        let current = (nat_beq_iff (get_with_revision key s).1 q).0 same in
        let won = cas_won key (task p) q s current in
        rw won.1 (
          raised-Inv (get_with_revision key s).0 (task p) (get_with_revision key s).1
            (cas_put key (task p) q s).2 ws (omega arith) shut inv)
    | inr other ↦
        let lost =
          cas_lost key (task p) q s (λ e.
            absurd (ground (arith, (nat_beq_iff (get_with_revision key s).1 q).1 e, other))) in
        rw lost.1 inv
  ]

  quiet_put :
      (i : ℕ) (ph : Phase) (s : State) (ws : Workers)
      → At s ws
      → Ahead (get_with_revision key s).0 (get_with_revision key s).1 ph
      → holds ph ≡ false
      → At s (put i ph ws)
  quiet_put i ph s ws inv a h =
      put-Inv (get_with_revision key s).0 (get_with_revision key s).1 i ph ws inv a
        (λ e. absurd (ground (arith, e, h)))

  write-At :
      (i left q : ℕ) (p : TaskPayload) (s : State) (ws : Workers)
      → ws i ≡ writing left p q
      → At s ws
      → let w = cas_put key (task (record p { status = TaskStatus.running })) q s in
        At w.0 (put i (after_write w.1 left w.2 p) ws)
  unfolding after_write
  write-At i left q p s ws at inv = elim (Bool-cases (nat_beq (get_with_revision key s).1 q)) [
    | inl same ↦
        let v = (get_with_revision key s).0 in
        let r = (get_with_revision key s).1 in
        let w = cas_put key taken q s in
        let current : r ≡ q = (nat_beq_iff r q).0 same in
        let won = cas_won key taken q s current in
        let mine : Ahead v r (writing left p q) = subst (Ahead v r) at (inv.ahead i) in
        let vacant : is_open v ≡ true = mine.1 (sym current) in
        let free : (j : ℕ) → holds (ws j) ≡ false =
          λ j. holds-cases (holds (ws j)) (λ e. absurd (ground (arith, inv.taken j e, vacant))) in
        rw (won.0, after_write)
          (rw won.1 (
            acquired-Inv taken w.2 i
              (record p { status = TaskStatus.running; etcd_mod_revision = w.2 }) ws
              (raised-Inv v taken r w.2 ws (omega arith) refl inv) refl free))
    | inr other ↦
        let lost =
          cas_lost key taken q s (λ e.
            absurd (ground (arith, (nat_beq_iff (get_with_revision key s).1 q).1 e, other))) in
        rw lost.1 (conflict left)
  ]
    where
      taken : Stored
      taken = task (record p { status = TaskStatus.running })

      conflict : (n : ℕ) → At s (put i (after_conflict n) ws)
      conflict zero = unfold after_conflict in quiet_put i refused s ws inv tt refl
      conflict (suc n) = unfold after_conflict in quiet_put i (reading (suc n)) s ws inv tt refl

  give_up-At : (i : ℕ) (s : State) (ws : Workers) → At s ws → At s (put i (given_up (ws i)) ws)
  give_up-At i s ws inv =
      put-Inv (get_with_revision key s).0 (get_with_revision key s).1 i (given_up (ws i)) ws inv
        (any_phase (ws i)) (same_hold (ws i))
    where
      any_phase :
          (ph : Phase) → Ahead (get_with_revision key s).0 (get_with_revision key s).1 (given_up ph)
      any_phase (reading n) = tt
      any_phase (writing n p q) = tt
      any_phase (acquired p) = tt
      any_phase refused = tt

      same_hold : (ph : Phase) → holds (given_up ph) ≡ true → holds ph ≡ true
      same_hold (reading n) e = e
      same_hold (writing n p q) e = e
      same_hold (acquired p) e = e
      same_hold refused e = e

  access-At :
      (i : ℕ) (ph : Phase) (s : State) (ws : Workers)
      → ws i ≡ ph
      → At s ws
      → At (acquire_step kv key ph s).0 (put i (acquire_step kv key ph s).1 ws)
  unfolding acquire_step
  access-At i (reading zero) s ws at inv = quiet_put i refused s ws inv tt refl
  access-At i (reading (suc left)) s ws at inv =
      let v = get_with_revision key s in
      let a = after_read-Ahead left v.1 v.0 in
      quiet_put i (after_read left v.0 v.1) s ws inv a.0 a.1
  access-At i (writing left p q) s ws at inv = write-At i left q p s ws at inv
  access-At i (acquired p) s ws at inv =
      put-Inv (get_with_revision key s).0 (get_with_revision key s).1 i (acquired p) ws inv tt
        (λ e. ap holds at)
  access-At i refused s ws at inv = quiet_put i refused s ws inv tt refl

  store-At : (ph : Phase) (s : State) (ws : Workers) → At s ws → At (acquire_step kv key ph s).0 ws
  unfolding acquire_step
  store-At (reading zero) s ws inv = inv
  store-At (reading (suc left)) s ws inv = inv
  store-At (writing left p q) s ws inv =
      cas-At (record p { status = TaskStatus.running }) q s ws refl inv
  store-At (acquired p) s ws inv = inv
  store-At refused s ws inv = inv

  update-At :
      (p : TaskPayload) (s : State) (ws : Workers)
      → is_pending p.status ≡ false
      → At s ws
      → At (update_status kv key p s).0 ws
  unfolding update_status
  update-At p s ws shut inv =
      let w = cas_put key (task p) p.etcd_mod_revision s in
      elim (Bool-cases (nat_beq p.etcd_mod_revision 0)) [
        | inl none_read ↦ rw none_read inv
        | inr some_read ↦ rw some_read (elim (Bool-cases w.1) [
          | inl won ↦ rw won (cas-At p p.etcd_mod_revision s ws shut inv)
          | inr lost ↦ rw lost (cas-At p p.etcd_mod_revision s ws shut inv)
        ])
      ]

  report_by-At :
      (ph : Phase) (done : Bool) (p : TaskPayload) (s : State) (ws : Workers)
      → At s ws
      → At (report_by kv key ph done p s) ws
  unfolding report_by outcome
  report_by-At (reading n) done p s ws inv = inv
  report_by-At (writing n q r) done p s ws inv = inv
  report_by-At (acquired q) true p s ws inv =
      update-At
        (record p { status = TaskStatus.completed; etcd_mod_revision = q.etcd_mod_revision }) s ws
        refl inv
  report_by-At (acquired q) false p s ws inv =
      update-At (record p { status = TaskStatus.failed; etcd_mod_revision = q.etcd_mod_revision }) s
        ws refl inv
  report_by-At refused done p s ws inv = inv

  move-At :
      (m : Move) (s : State) (ws : Workers)
      → At s ws
      → At (move kv key m (s, ws)).0 (move kv key m (s, ws)).1
  unfolding move
  move-At (access i) s ws inv = access-At i (ws i) s ws refl inv
  move-At (give_up i) s ws inv = give_up-At i s ws inv
  move-At (lose_answer i) s ws inv =
      give_up-At i (acquire_step kv key (ws i) s).0 ws (store-At (ws i) s ws inv)
  move-At (report i done p) s ws inv = report_by-At (ws i) done p s ws inv

  moves-At :
      (ms : List Move) (s : State) (ws : Workers)
      → At s ws
      → At (moves kv key ms (s, ws)).0 (moves kv key ms (s, ws)).1
  unfolding moves
  moves-At [] s ws inv = inv
  moves-At (m ∷ ms) s ws inv =
      moves-At ms (move kv key m (s, ws)).0 (move kv key m (s, ws)).1 (move-At m s ws inv)

-- Any number of workers start to compete for a task key of any content, on a store that keeps
-- etcd's promise for conditional writes. However their accesses, failed accesses and reports
-- interleave, no two different workers acquire the task.
pub moves-exclusive :
    (kv : KeyValue) (key : String) (ms : List Move) (s : kv.State) (i j : ℕ)
    → holds ((moves kv key ms (s, all_start)).1 i) ≡ true
    → holds ((moves kv key ms (s, all_start)).1 j) ≡ true
    → i ≡ j
moves-exclusive kv key ms s i j = (moves-At kv key ms s all_start start).single i j
  where
    start : At kv key s all_start
    start = record {
      ahead = λ n. tt;
      taken = λ n e. absurd (ground arith);
      single = λ m n e f. absurd (ground arith);
    }
