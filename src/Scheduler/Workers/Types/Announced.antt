-- ===== src/Scheduler/Workers/Types/Announced.antt =====
-- infra/engine/runtime/heartbeat.go and infra/engine/scheduler/worker_manager.go: which task types a
-- worker brings to a master.
use vibeflow.Prelude.{
  ℕ, ◌≡◌, refl, sym, ◌∙◌, subst, Bool, true, false, String, List, [], ◌∷◌, Option, none, some,
  string_eq, ◌==◌, beq_refl, if◌then◌else◌, arith,
}
use vibeflow.Circuit.{allow}
use vibeflow.Store.{HeartbeatPayload}
use vibeflow.Worker.Registry.{Param, TaskType}
use vibeflow.Worker.Reporter.{report_from}
use vibeflow.Worker.Heartbeat.{
  HeartbeatSender, Beat, beat_hash, needs_full, payload_of, write_heartbeat, report_allowed,
  report_heartbeat, ticks, start,
}
use vibeflow.Scheduler.Workers.{WorkerManager, put_heartbeat}
use vibeflow.Scheduler.Workers.Types.{register_task_types, note_types, hear, hear_written, hear_all}

-- Nothing was written, or no task types with it.
abbrev pub Typeless : Option HeartbeatPayload → Type 0
Typeless none = Unit {0}
Typeless (some hb) = hb.task_types ≡ []

abbrev pub AllTypeless : List (Option HeartbeatPayload) → Type 0
AllTypeless [] = Unit {0}
AllTypeless (o ∷ os) = Typeless o × AllTypeless os

-- The hash of the types is the same in all reports. With two types or more the order of a Go map can
-- change it though no type has changed.
abbrev pub SameHash : (List TaskType → Option String) → String → List Beat → Type 0
SameHash digest x [] = Unit {0}
SameHash digest x (b ∷ bs) = (beat_hash digest b ≡ x) × SameHash digest x bs

module _ (digest : List TaskType → Option String) (worker_id : String) (started_at : ℕ) where
  write-Typeless :
      (b : Beat) (h : HeartbeatSender)
      → Typeless (write_heartbeat digest worker_id started_at false b h).1
  unfolding write_heartbeat payload_of
  write-Typeless b h =
      elim (report_from 2 0 b.tries b.now h.breaker).1
        as (λ w.
          Typeless (if w then some (payload_of digest worker_id started_at false b) else none)) [
            | true ↦ refl
            | false ↦ tt
          ]

  not_full :
      (b : Beat) (h : HeartbeatSender)
      → beat_hash digest b ≡ h.last_full_hash
      → needs_full digest false b h ≡ false
  unfolding needs_full
  not_full b h same =
      let eq : (beat_hash digest b == h.last_full_hash) ≡ true =
        subst (λ x. (beat_hash digest b == x) ≡ true) same (beq_refl (beat_hash digest b)) in
      ground (arith, eq)

  -- A report of a hash that counts as sent carries no types, and leaves it so.
  abbrev Quiet : HeartbeatSender → HeartbeatSender × Option HeartbeatPayload → Type 0
  Quiet h r = Typeless r.1 × (r.0.last_full_hash ≡ h.last_full_hash)

  allowed-Quiet :
      (b : Beat) (h : HeartbeatSender)
      → beat_hash digest b ≡ h.last_full_hash
      → Quiet h (report_allowed digest worker_id started_at false b h)
  unfolding report_allowed write_heartbeat
  allowed-Quiet b h same =
      let write : Bool → HeartbeatSender → HeartbeatSender × Option HeartbeatPayload =
        λ full sent. write_heartbeat digest worker_id started_at full b sent in
      let sent : Bool → HeartbeatSender =
        λ full. if full then record h { last_full_hash = beat_hash digest b } else h in
      subst (λ full. Quiet h (if b.serialized then write full (sent full) else (sent full, none)))
        (sym (not_full b h same))
        (elim b.serialized as (λ z. Quiet h (if z then write false h else (h, none))) [
          | true ↦ (write-Typeless b h, refl)
          | false ↦ (tt, refl)
        ])

  report-Quiet :
      (b : Beat) (h : HeartbeatSender)
      → beat_hash digest b ≡ h.last_full_hash
      → Quiet h (report_heartbeat digest worker_id started_at false b h)
  unfolding report_heartbeat
  report-Quiet b h same =
      let probing : HeartbeatSender = record h { breaker = (allow h.breaker b.now).0 } in
      elim (allow h.breaker b.now).1
        as (λ z. Quiet h (
          if z
          then report_allowed digest worker_id started_at false b probing
          else (probing, none))) [ true ↦ allowed-Quiet b probing same | false ↦ (tt, refl) ]

  ticks-Typeless :
      (x : String) (bs : List Beat) (h : HeartbeatSender)
      → SameHash digest x bs
      → h.last_full_hash ≡ x
      → AllTypeless (ticks digest worker_id started_at bs h)
  unfolding ticks
  ticks-Typeless x [] h same known = tt
  ticks-Typeless x (b ∷ bs) h (now, later) known =
      let (quiet, still) = report-Quiet b h (now ∙ sym known) in
      (
        quiet,
        ticks-Typeless x bs (report_heartbeat digest worker_id started_at false b h).0 later
            (still ∙ known),
      )

  allowed-hash :
      (b : Beat) (h : HeartbeatSender)
      → (report_allowed digest worker_id started_at true b h).0.last_full_hash ≡ beat_hash digest b
  unfolding report_allowed write_heartbeat needs_full
  allowed-hash b h =
      let sent : HeartbeatSender = record h { last_full_hash = beat_hash digest b } in
      elim b.serialized
        as (λ z.
          (if z
            then write_heartbeat digest worker_id started_at true b sent
            else (sent, none)).0.last_full_hash
          ≡ beat_hash digest b) [ true ↦ refl | false ↦ refl ]

  forced-hash :
      (b : Beat) (h : HeartbeatSender)
      → (allow h.breaker b.now).1 ≡ true
      → (report_heartbeat digest worker_id started_at true b h).0.last_full_hash
        ≡ beat_hash digest b
  unfolding report_heartbeat
  forced-hash b h asked =
      rw (asked, report_heartbeat)
        (allowed-hash b (record h { breaker = (allow h.breaker b.now).0 }))

module _ (deep_equal : List Param → List Param → Bool) where
  put-task_registry :
      (hb : HeartbeatPayload) (m : WorkerManager)
      → (put_heartbeat hb m).task_registry ≡ m.task_registry
  unfolding put_heartbeat
  put-task_registry hb m = ground arith

  note-task_registry :
      (hb : HeartbeatPayload) (m : WorkerManager)
      → hb.task_types ≡ []
      → (note_types deep_equal hb m).task_registry ≡ m.task_registry
  unfolding note_types register_task_types
  note-task_registry hb m quiet = rw (quiet) (ground arith)

  hear-task_registry :
      (o : Option HeartbeatPayload) (m : WorkerManager)
      → Typeless o
      → (hear_written deep_equal o m).task_registry ≡ m.task_registry
  unfolding hear_written hear
  hear-task_registry none m quiet = refl
  hear-task_registry (some hb) m quiet =
      note-task_registry hb (put_heartbeat hb m) quiet ∙ put-task_registry hb m

  hear_all-task_registry :
      (os : List (Option HeartbeatPayload)) (m : WorkerManager)
      → AllTypeless os
      → (hear_all deep_equal os m).task_registry ≡ m.task_registry
  unfolding hear_all
  hear_all-task_registry [] m quiet = refl
  hear_all-task_registry (o ∷ os) m (quiet, later) =
      hear_all-task_registry os (hear_written deep_equal o m) later ∙ hear-task_registry o m quiet

  -- While the hash of a worker's types is in each report what it was in the first, and the breaker lets the
  -- first report through, what a master learns of the types from all its heartbeats is what the first report
  -- brings, whatever the master knew: when that report is not written, it learns no type, however many
  -- heartbeats follow.
  pub start-task_registry :
      (digest : List TaskType → Option String) (worker_id : String) (started_at : ℕ) (b : Beat)
      (bs : List Beat) (h : HeartbeatSender) (m : WorkerManager)
      → (allow h.breaker b.now).1 ≡ true
      → SameHash digest (beat_hash digest b) bs
      → (hear_all deep_equal (start digest worker_id started_at b bs h) m).task_registry
        ≡ (hear_written deep_equal
            (report_heartbeat digest worker_id started_at true b h).1
            m).task_registry
  unfolding start hear_all
  start-task_registry digest worker_id started_at b bs h m asked same =
      let r = report_heartbeat digest worker_id started_at true b h in
      hear_all-task_registry (ticks digest worker_id started_at bs r.0)
        (hear_written deep_equal r.1 m)
        (ticks-Typeless digest worker_id started_at (beat_hash digest b) bs r.0 same
          (forced-hash digest worker_id started_at b h asked))
