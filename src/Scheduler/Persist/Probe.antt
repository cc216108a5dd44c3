-- ===== src/Scheduler/Persist/Probe.antt =====
-- infra/engine/scheduler/repository.go: the probe of a half-open breaker, and a snapshot that asks the
-- breaker and then writes nothing.
use vibeflow.Prelude.{
  ℕ, ◌+◌, ◌≤◌, ◌≡◌, refl, sym, ap, ◌∙◌, subst, Bool, true, false, String, List, [], ◌∷◌, Map,
  Option, none, some, lookup, string_eq, arith, if◌then◌else◌, insert, if_true,
}
use vibeflow.Circuit.{Breaker, opened, half_open, allow}
use vibeflow.Model.Delta.{TaskDelta}
use vibeflow.Scheduler.State.{System, Entry, lock_entry}
use vibeflow.Scheduler.Snapshot.{snapshot_throttle}
use vibeflow.Scheduler.Persist.{
  save_task_record, Snapshotting, snapshot_allowed, snapshot_asked, snapshot_running_workflow,
  snapshot_throttle_interval, Writing, Step, persists, saves, snapshots, ends_write, fails_on,
  changes, has_deltas, one_more, tell, step,
}

-- Which of the steps start a write to MySQL.
unfoldable pub started : List Step → Writing → List Bool
unfolding step
started [] w = []
started (u ∷ us) w = let t = step u w in t.1 ∷ started us t.0

abbrev pub AllRefused : List Bool → Type 0
AllRefused [] = Unit {0}
AllRefused (w ∷ ws) = (w ≡ false) × AllRefused ws

-- The breaker is half open and no write is left that could tell it an outcome.
abbrev pub Stuck : Writing → Type 0
Stuck w = (w.shared.breaker.state ≡ half_open) × (w.under_way ≡ 0)

step-Stuck : (u : Step) (w : Writing) → Stuck w → ((step u w).1 ≡ false) × Stuck (step u w).0
unfolding step save_task_record snapshot_running_workflow snapshot_asked allow snapshot_throttle
    tell
step-Stuck (persists now) w (h, z) = ground (arith, h, z)
step-Stuck (saves has_store id now) w (h, z) = ground (arith, h, z)
step-Stuck (snapshots serialized now uuid) w (h, z) = ground (arith, h, z)
step-Stuck (ends_write ok now) w (h, z) = rw z (refl, (h, refl))
step-Stuck (fails_on now) w (h, z) = rw z (refl, (h, refl))
step-Stuck (changes t) w (h, z) = (refl, (h, z))

Stuck-AllRefused : (us : List Step) (w : Writing) → Stuck w → AllRefused (started us w)
unfolding started
Stuck-AllRefused [] w s = tt
Stuck-AllRefused (u ∷ us) w s =
    let (refused, still) = step-Stuck u w s in (refused, Stuck-AllRefused us (step u w).0 still)

-- The workflow has ended, or its execution has no id yet.
pub data Unready (uuid : String) (s : System) : Type 0 where
  gone : lock_entry uuid s ≡ none → Unready uuid s
  unnumbered : (e : Entry) → lock_entry uuid s ≡ some e → e.state.execution_id ≡ 0 → Unready uuid s

Unready-allowed :
    (serialized : Bool) (uuid : String) (s : Snapshotting)
    → Unready uuid s.system
    → snapshot_allowed serialized uuid (lock_entry uuid s.system) s ≡ (s, none)
unfolding snapshot_allowed
Unready-allowed serialized uuid s (gone h) = rw (h, snapshot_allowed) refl
Unready-allowed serialized uuid s (unnumbered e h z) = rw (h, snapshot_allowed) (ground (arith, z))

first_throttle :
    (uuid : String) (interval now : ℕ) (last : Map String ℕ)
    → lookup uuid last ≡ none
    → snapshot_throttle uuid interval now last ≡ (insert uuid now last, true)
unfolding snapshot_throttle
first_throttle uuid interval now last h = rw (h, snapshot_throttle) refl

cooled_allow :
    (b : Breaker) (now : ℕ)
    → b.state ≡ opened
    → b.last_state_change + b.cooldown_interval ≤ now
    → ((allow b now).1 ≡ true) × ((allow b now).0.state ≡ half_open)
unfolding allow
cooled_allow b now o cooled = (ground (arith, o), ground (arith, o))

module _ (serialized : Bool) (now : ℕ) (uuid : String) (s : Snapshotting)
    (o : s.breaker.state ≡ opened)
    (cooled : s.breaker.last_state_change + s.breaker.cooldown_interval ≤ now)
    (first : lookup uuid s.last_time ≡ none) (u : Unready uuid s.system) where
  lost_probe : snapshot_running_workflow serialized now uuid s ≡ (
    record s { last_time = insert uuid now s.last_time; breaker = (allow s.breaker now).0 },
    none,
  )
  unfolding snapshot_running_workflow snapshot_asked
  lost_probe =
      let t : Snapshotting = record s { last_time = insert uuid now s.last_time } in
      let v : Snapshotting = record t { breaker = (allow s.breaker now).0 } in
      let go : Map String ℕ × Bool → Snapshotting × Option (List TaskDelta) = λ th.
        let w : Snapshotting = record s { last_time = th.0 } in
        if th.1 then snapshot_asked serialized now uuid w else (w, none) in
      ap go (first_throttle uuid snapshot_throttle_interval now s.last_time first)
      ∙ if_true _ _ _ (cooled_allow s.breaker now o cooled).0
      ∙ Unready-allowed serialized uuid v u

  -- A snapshot that an open breaker lets through after its cooldown, the first of its workflow, and
  -- that finds the workflow ended, or its execution without an id, starts no write and tells the
  -- breaker nothing. When no write is under way then, no write to MySQL is ever started through the
  -- breaker again, neither of states nor of task records nor of snapshots, whatever steps follow in
  -- whatever order, and however much time passes.
  pub lost_probe-AllRefused :
      (us : List Step)
      → AllRefused
          (started (snapshots serialized now uuid ∷ us) (record { shared = s; under_way = 0 }))
  unfolding started step
  lost_probe-AllRefused us =
      let probing = (cooled_allow s.breaker now o cooled).1 in
      let t : Snapshotting = record s {
        last_time = insert uuid now s.last_time;
        breaker = (allow s.breaker now).0;
      } in
      let after : Snapshotting × Option (List TaskDelta) → Writing =
        λ r. record { shared = r.0; under_way = one_more (has_deltas r.1) 0 } in
      (
        ap (λ r. has_deltas r.1) lost_probe,
        subst (λ r. AllRefused (started us (after r))) (sym lost_probe)
            (Stuck-AllRefused us (record { shared = t; under_way = 0 }) (probing, refl)),
      )
