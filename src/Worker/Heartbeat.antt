-- ===== src/Worker/Heartbeat.antt =====
-- infra/engine/runtime/heartbeat.go: the heartbeats of a worker. What etcd, the JSON library and the
-- contexts do in a report is an argument, and so is the registry in the orders in which it is listed
-- then. The waits between attempts only show in whether they are cut short, and an attempt that fails
-- writes nothing.
use vibeflow.Prelude.{
  ℕ, ◌-◌, Bool, true, false, not, ◌&&◌, ◌||◌, String, List, [], ◌∷◌, Option, none, some, string_eq,
  ◌==◌, if◌then◌else◌,
}
use vibeflow.Circuit.{Breaker, allow}
use vibeflow.Store.{HeartbeatPayload}
use vibeflow.Worker.Registry.{Registry, TaskType, names, types, types_hash}
use vibeflow.Worker.Reporter.{Attempt, report_from}

abbrev pub heartbeat_max_retries : ℕ
heartbeat_max_retries = 3

-- The fields that change.
pub record HeartbeatSender : Type 0 where
  pub breaker : Breaker
  pub last_full_hash : String

-- What a report meets: the registry as it is hashed and as it is listed, the times, the answer of the
-- JSON library, and the attempts to write.
pub record Beat : Type 0 where
  pub hashed : Registry
  pub listed : Registry
  pub alive_at : ℕ
  pub now : ℕ
  pub serialized : Bool
  pub tries : ℕ → Attempt

abbrev pub beat_hash : (List TaskType → Option String) → Beat → String
beat_hash digest b = types_hash digest b.hashed

-- Whether a report carries the task types.
unfoldable pub needs_full : (List TaskType → Option String) → Bool → Beat → HeartbeatSender → Bool
unfolding types_hash
needs_full digest force_full b h =
    force_full || not (beat_hash digest b == "") && not (beat_hash digest b == h.last_full_hash)

module _ (digest : List TaskType → Option String) (worker_id : String) (started_at : ℕ) where
  unfoldable pub payload_of : Bool → Beat → HeartbeatPayload
  unfolding names types types_hash
  payload_of full b = record {
    worker_id = worker_id;
    tasks = names b.listed;
    task_types = if full then types b.listed else [];
    task_types_hash = beat_hash digest b;
    started_at = started_at;
    alive_at = b.alive_at;
  }

  -- The attempts to write, the same loop as that of the reporter: what etcd has then, if anything is
  -- written.
  unfoldable pub write_heartbeat :
      Bool → Beat → HeartbeatSender → HeartbeatSender × Option HeartbeatPayload
  unfolding report_from payload_of
  write_heartbeat full b h =
      let wrote = report_from (heartbeat_max_retries - 1) 0 b.tries b.now h.breaker in
      (record h { breaker = wrote.0 }, if wrote.1 then some (payload_of full b) else none)

  -- A report once the breaker has let it through. The hash counts as sent before the write.
  unfoldable pub report_allowed :
      Bool → Beat → HeartbeatSender → HeartbeatSender × Option HeartbeatPayload
  unfolding needs_full write_heartbeat
  report_allowed force_full b h =
      let full = needs_full digest force_full b h in
      let sent : HeartbeatSender =
        if full then record h { last_full_hash = beat_hash digest b } else h in
      if b.serialized then write_heartbeat full b sent else (sent, none)

  -- `report`.
  unfoldable pub report_heartbeat :
      Bool → Beat → HeartbeatSender → HeartbeatSender × Option HeartbeatPayload
  unfolding report_allowed
  report_heartbeat force_full b h =
      let asked = allow h.breaker b.now in
      let probing = record h { breaker = asked.0 } in
      if asked.1 then report_allowed force_full b probing else (probing, none)

  -- The ticks of `Start`: what is written at each.
  unfoldable pub ticks : List Beat → HeartbeatSender → List (Option HeartbeatPayload)
  unfolding report_heartbeat
  ticks [] h = []
  ticks (b ∷ bs) h = let r = report_heartbeat false b h in r.1 ∷ ticks bs r.0

  -- `Start`, up to the end of the context.
  unfoldable pub start : Beat → List Beat → HeartbeatSender → List (Option HeartbeatPayload)
  unfolding ticks
  start b bs h = let r = report_heartbeat true b h in r.1 ∷ ticks bs r.0
