-- ===== src/Worker/Lock/Moves.antt =====
-- infra/engine/runtime/cas_lock.go: the moves of any number of workers at one task key.
use vibeflow.Prelude.{ℕ, Bool, String, List, [], ◌∷◌, if◌then◌else◌, nat_beq}
use vibeflow.Store.{TaskPayload, TaskStatus}
use vibeflow.Worker.Lock.{
  KeyValue, Phase, reading, acquired, refused, max_retries, acquire_step, update_status,
}

-- A move of a worker: its next access of the key, an access that fails (before or after the store
-- took the write), or its report of a task that it holds, as
-- completed or as failed.
pub data Move : Type 0 where
  access give_up lose_answer : ℕ → Move
  report : ℕ → Bool → TaskPayload → Move

-- A worker by its number.
abbrev pub Workers : Type 0
Workers = ℕ → Phase

unfoldable pub put : ℕ → Phase → Workers → Workers
put i ph ws = λ j. if nat_beq j i then ph else ws j

abbrev pub given_up : Phase → Phase
given_up (acquired p) = acquired p
given_up _ = refused

abbrev pub all_start : Workers
all_start = λ i. reading max_retries

unfoldable pub outcome : Bool → TaskPayload → TaskPayload
outcome done p = record p { status = if done then TaskStatus.completed else TaskStatus.failed }

module _ (kv : KeyValue) (key : String) where
  open kv use {State, get_with_revision, cas_put, cas_won, cas_lost}

  unfoldable pub report_by : Phase → Bool → TaskPayload → State → State
  unfolding update_status outcome
  report_by (acquired held) done p s =
      (update_status kv key (outcome done (record p { etcd_mod_revision = held.etcd_mod_revision }))
        s).0
  report_by _ done p s = s

  unfoldable pub move : Move → State × Workers → State × Workers
  unfolding acquire_step put report_by
  move (access i) (s, ws) = let next = acquire_step kv key (ws i) s in (next.0, put i next.1 ws)
  move (give_up i) (s, ws) = (s, put i (given_up (ws i)) ws)
  move (lose_answer i) (s, ws) = ((acquire_step kv key (ws i) s).0, put i (given_up (ws i)) ws)
  move (report i done p) (s, ws) = (report_by (ws i) done p s, ws)

  unfoldable pub moves : List Move → State × Workers → State × Workers
  unfolding move
  moves [] c = c
  moves (m ∷ ms) c = moves ms (move m c)
