-- ===== src/Bus/Samples.antt =====
-- The theorems on the event bus at a short run.
use vibeflow.Prelude.{
  pos, ◌≡◌, ◌↔◌, refl, true, false, has, nat_eq, [], ◌∷◌, List, none, some, lookup, insert, delete,
  string_eq,
}
use vibeflow.Bus.{
  WsConfig, WsEvent, Event, connects, disconnects, broadcasts, takes_global, delivers_global, step,
  run, new_ws_event,
}
use vibeflow.Bus.Agrees.{Inv}
use vibeflow.Bus.Inv.{bus_run-Inv}
use vibeflow.Bus.Race.{delivery_panics_iff}

abbrev conf : WsConfig
conf = record { broadcast_buffer = pos 4; client_buffer = pos 0 }

-- A client leaves between the copy of the clients and the send to it.
abbrev leaving : List Event
leaving = connects "u1" ∷ broadcasts "worker_online" ∷ takes_global ∷ disconnects 0 ∷ []

abbrev left : WsEvent
left = record (new_ws_event conf) {
  heap = (0, record { workflow = "u1"; send = []; buffer = 64; closed = true }) ∷ [];
  made = 1;
  to_all = record { text = "worker_online"; targets = 0 ∷ [] };
}

leaves : run leaving (new_ws_event conf) ≡ some left
unfolding run has lookup insert delete
leaves = refl

bus_run-Inv_example : Inv left
bus_run-Inv_example = bus_run-Inv conf leaving left leaves

delivery_panics_iff_example : (step delivers_global left ≡ none) ↔ (has 0 left.clients ≡ false)
delivery_panics_iff_example = delivery_panics_iff conf leaving left 0 [] leaves refl
