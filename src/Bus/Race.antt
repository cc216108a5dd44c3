-- ===== src/Bus/Race.antt =====
-- infra/ws/bus.go: a send to a client that has left since the consumer copied the clients.
use vibeflow.Prelude.{
  ℕ, ◌≡◌, ◌↔◌, ap, subst, true, false, String, List, ◌∷◌, none, some, lookup, has, nat_eq, arith,
  Bool-cases, Option-cases, inl, inr,
}
use vibeflow.Bus.{
  WsEvent, Event, delivers_global, delivers_workflow, step, run, deliver_global, deliver_workflow,
  send_to, send_to_client, new_ws_event, WsConfig,
}
use vibeflow.Bus.Agrees.{AllBelow, is_open, is_made}
use vibeflow.Bus.Inv.{bus_run-Inv}

-- A send that nothing precedes is to a client that was made.
send_none_iff :
    (id : ℕ) (text : String) (e : WsEvent)
    → is_made (lookup id e.heap) ≡ true
    → has id e.clients ≡ is_open (lookup id e.heap)
    → (send_to_client id text e ≡ none) ↔ (has id e.clients ≡ false)
unfolding send_to_client send_to
send_none_iff id text e made registered = elim (Option-cases (lookup id e.heap)) [
  | inl gone ↦ absurd (cc (ap is_made gone))
  | inr (c, there) ↦ elim (Bool-cases c.closed) [
    | inl shut ↦ (λ h. ground (arith, there, shut), λ h. ground (arith, there, shut))
    | inr still ↦ (λ h. ground (arith, there, still), λ h. ground (arith, there, still))
  ]
]

-- In every state that the bus gets to, the next send of the consumer of the global broadcasts makes the
-- program panic exactly if its client has left, or has been dropped, since the consumer copied the
-- clients: the lock that guards the closing of the channel is not held for the send.
pub delivery_panics_iff :
    (conf : WsConfig) (xs : List Event) (e : WsEvent) (id : ℕ) (ts : List ℕ)
    → run xs (new_ws_event conf) ≡ some e
    → e.to_all.targets ≡ id ∷ ts
    → (step delivers_global e ≡ none) ↔ (has id e.clients ≡ false)
unfolding step deliver_global
delivery_panics_iff conf xs e id ts went h =
    let (a, all, some_of) = bus_run-Inv conf xs e went in
    let f : WsEvent = record e { to_all = record (e.to_all) { targets = ts } } in
    let below = (subst (AllBelow e.made) h all).0 in
    rw h (send_none_iff id e.to_all.text f (a.filled id below) (a.registered id))

-- The same for the consumer of the broadcasts to a workflow.
workflow_delivery_panics_iff :
    (conf : WsConfig) (xs : List Event) (e : WsEvent) (id : ℕ) (ts : List ℕ)
    → run xs (new_ws_event conf) ≡ some e
    → e.to_workflow.targets ≡ id ∷ ts
    → (step delivers_workflow e ≡ none) ↔ (has id e.clients ≡ false)
unfolding step deliver_workflow
workflow_delivery_panics_iff conf xs e id ts went h =
    let (a, all, some_of) = bus_run-Inv conf xs e went in
    let f : WsEvent = record e { to_workflow = record (e.to_workflow) { targets = ts } } in
    let below = (subst (AllBelow e.made) h some_of).0 in
    rw h (send_none_iff id e.to_workflow.text f (a.filled id below) (a.registered id))
