-- ===== src/Bus/Inv.antt =====
-- infra/ws/bus.go: every step keeps the maps of clients and the channels of the clients in agreement.
use vibeflow.Prelude.{
  ℕ, suc, ◌≤◌, ◌≡◌, refl, sym, ◌∙◌, subst, Bool, true, String, List, [], ◌∷◌, Map, Option, none,
  some, lookup, has, string_eq, nat_eq, ltb, length, arith, Bool-cases, Option-cases, inl, inr,
  ◌++◌, if_true, if_false,
}
use vibeflow.Bus.{
  WsClient, WsEvent, Event, members, serve_ws, remove_client, unregister, send_to, send_to_client,
  connects, disconnects, broadcasts, broadcasts_to_workflow, takes_global, takes_workflow,
  delivers_global, delivers_workflow, writes, step, run, take_global, take_workflow, deliver_global,
  deliver_workflow, write_pump, broadcast, broadcast_to_workflow, rest_of, ids, new_ws_event,
  WsConfig, RoutedMessage,
}
use vibeflow.Bus.Indexed.{indexed_at}
use vibeflow.Bus.Agrees.{
  Agrees, AllBelow, Inv, is_open, written-Agrees, connected-Agrees, removed-Agrees,
}

-- There is no bus, or its invariant holds.
abbrev pub Kept : Option WsEvent → Type 0
Kept none = Unit {0}
Kept (some e) = Inv e

AllBelow-suc : (n : ℕ) (ts : List ℕ) → AllBelow n ts → AllBelow (suc n) ts
AllBelow-suc n [] h = tt
AllBelow-suc n (id ∷ ts) h = (omega (arith, h), AllBelow-suc n ts h.1)

remove-Inv :
    (id : ℕ) (c : WsClient) (e : WsEvent)
    → lookup id e.heap ≡ some c
    → Inv e
    → Inv (remove_client id c e)
unfolding remove_client
remove-Inv id c e there (a, all, some_of) = elim (Bool-cases (has id e.clients)) [
  | inl known ↦
      subst Inv (sym (if_true _ _ _ known))
        (removed-Agrees e.clients e.workflow_clients e.heap e.made a id c there, all, some_of)
  | inr unknown ↦ subst Inv (sym (if_false _ _ _ unknown)) (a, all, some_of)
]

unregister-Inv : (id : ℕ) (e : WsEvent) → Inv e → Inv (unregister id e)
unfolding unregister
unregister-Inv id e v = elim (Option-cases (lookup id e.heap)) [
  | inl gone ↦ rw (gone, unregister) v
  | inr (c, there) ↦ rw (there, unregister) (remove-Inv id c e there v)
]

sent-Kept :
    (id : ℕ) (text : String) (c : WsClient) (e : WsEvent)
    → lookup id e.heap ≡ some c
    → Inv e
    → Kept (send_to id text c e)
unfolding send_to
sent-Kept id text c e there (a, all, some_of) = elim (Bool-cases c.closed) [
  | inl shut ↦ subst Kept (sym (if_true _ _ _ shut)) tt
  | inr still ↦
      subst Kept (sym (if_false _ _ _ still)) (elim (Bool-cases (ltb (length c.send) c.buffer)) [
        | inl room ↦
            let d : WsClient = record c { send = c.send ++ text ∷ [] } in
            subst Kept (sym (if_true _ _ _ room)) (
              written-Agrees e.clients e.workflow_clients e.heap e.made a id c d there refl refl,
              all,
              some_of,
            )
        | inr full ↦
            subst Kept (sym (if_false _ _ _ full)) (remove-Inv id c e there (a, all, some_of))
      ])
]

send-Kept : (id : ℕ) (text : String) (e : WsEvent) → Inv e → Kept (send_to_client id text e)
unfolding send_to_client
send-Kept id text e v = elim (Option-cases (lookup id e.heap)) [
  | inl gone ↦ rw (gone, send_to_client) v
  | inr (c, there) ↦ rw (there, send_to_client) (sent-Kept id text c e there v)
]

pumped-Inv : (id : ℕ) (e : WsEvent) → Inv e → Inv (write_pump id e)
unfolding write_pump
pumped-Inv id e v = elim (Option-cases (lookup id e.heap)) [
  | inl gone ↦ rw (gone, write_pump) v
  | inr (c, there) ↦
      let d : WsClient = record c { send = rest_of c.send } in
      rw (there, write_pump)
        (
          written-Agrees e.clients e.workflow_clients e.heap e.made v.0 id c d there refl refl,
          v.1,
          v.2,
        )
]

served-Inv : (w : String) (e : WsEvent) → Inv e → Inv (serve_ws w e)
unfolding serve_ws
served-Inv w e (a, all, some_of) = (
  connected-Agrees e.clients e.workflow_clients e.heap e.made a _ refl,
  AllBelow-suc e.made e.to_all.targets all,
  AllBelow-suc e.made e.to_workflow.targets some_of,
)

-- The numbers that a map has are below the bound if all that it finds are.
ids-AllBelow :
    (n : ℕ) (m : Map ℕ Bool) → ((id : ℕ) → has id m ≡ true → suc id ≤ n) → AllBelow n (ids m)
unfolding has lookup
ids-AllBelow n [] h = tt
ids-AllBelow n ((id, b) ∷ m) h =
    (h id (ground (arith, nat_eq.beq_iff id id)), ids-AllBelow n m (λ j k. h j (ground (arith, k))))

below_made :
    (clients : Map ℕ Bool) (index : Map String (Map ℕ Bool)) (heap : Map ℕ WsClient) (made id : ℕ)
    → Agrees clients index heap made
    → is_open (lookup id heap) ≡ true
    → suc id ≤ made
below_made clients index heap made id a o = ground (arith, a.free id)

taken_global-Inv :
    (ts : List ℕ) (ms : List RoutedMessage) (e : WsEvent) → Inv e → Inv (take_global ts ms e)
unfolding take_global
taken_global-Inv [] [] e v = v
taken_global-Inv [] (m ∷ ms) e (a, all, some_of) = (
  a,
  ids-AllBelow e.made e.clients (λ id h.
      below_made e.clients e.workflow_clients e.heap e.made id a (sym (a.registered id) ∙ h)),
  some_of,
)
taken_global-Inv (t ∷ ts) ms e v = v

taken_workflow-Inv :
    (ts : List ℕ) (ms : List RoutedMessage) (e : WsEvent) → Inv e → Inv (take_workflow ts ms e)
unfolding take_workflow indexed_at
taken_workflow-Inv [] [] e v = v
taken_workflow-Inv [] (m ∷ ms) e (a, all, some_of) = (
  a,
  all,
  ids-AllBelow e.made (members m.workflow e.workflow_clients) (λ id h.
      below_made e.clients e.workflow_clients e.heap e.made id a
        (ground (arith, h, a.indexed m.workflow id))),
)
taken_workflow-Inv (t ∷ ts) ms e v = v

delivered_global-Kept :
    (ts : List ℕ) (e : WsEvent) → AllBelow e.made ts → Inv e → Kept (deliver_global ts e)
unfolding deliver_global
delivered_global-Kept [] e t v = v
delivered_global-Kept (id ∷ ts) e t (a, all, some_of) =
    send-Kept id e.to_all.text (record e { to_all = record (e.to_all) { targets = ts } })
      (a, t.1, some_of)

delivered_workflow-Kept :
    (ts : List ℕ) (e : WsEvent) → AllBelow e.made ts → Inv e → Kept (deliver_workflow ts e)
unfolding deliver_workflow
delivered_workflow-Kept [] e t v = v
delivered_workflow-Kept (id ∷ ts) e t (a, all, some_of) =
    send-Kept id e.to_workflow.text
      (record e { to_workflow = record (e.to_workflow) { targets = ts } }) (a, all, t.1)

step-Kept : (x : Event) (e : WsEvent) → Inv e → Kept (step x e)
unfolding step broadcast broadcast_to_workflow
step-Kept (connects w) e v = served-Inv w e v
step-Kept (disconnects id) e v = unregister-Inv id e v
step-Kept (broadcasts text) e v = v
step-Kept (broadcasts_to_workflow w text) e v = v
step-Kept takes_global e v = taken_global-Inv e.to_all.targets e.global_broadcast e v
step-Kept takes_workflow e v = taken_workflow-Inv e.to_workflow.targets e.workflow_broadcast e v
step-Kept delivers_global e v = delivered_global-Kept e.to_all.targets e v.1 v
step-Kept delivers_workflow e v = delivered_workflow-Kept e.to_workflow.targets e v.2 v
step-Kept (writes id) e v = pumped-Inv id e v

run-Kept : (xs : List Event) (e : WsEvent) → Inv e → Kept (run xs e)
unfolding run
run-Kept [] e v = v
run-Kept (x ∷ xs) e v = elim (Option-cases (step x e)) [
  | inl panic ↦ rw (panic, run) tt
  | inr (f, went) ↦ rw (went, run) (run-Kept xs f (subst Kept went (step-Kept x e v)))
]

new-Inv : (conf : WsConfig) → Inv (new_ws_event conf)
unfolding has lookup indexed_at
new-Inv conf = (
  record {
    registered = λ id. refl;
    indexed = λ w id. refl;
    free = λ id h. refl;
    filled = λ id h. absurd (omega (arith, h));
  },
  tt,
  tt,
)

-- Whatever clients come and go, whatever is broadcast, and however the two consumers, the readers and the
-- writers of the clients interleave: a client is registered exactly as long as its channel is open,
-- and the index holds for each workflow exactly the registered clients that asked for its events.
pub bus_run-Inv :
    (conf : WsConfig) (xs : List Event) (e : WsEvent) → run xs (new_ws_event conf) ≡ some e → Inv e
bus_run-Inv conf xs e went = subst Kept went (run-Kept xs (new_ws_event conf) (new-Inv conf))
