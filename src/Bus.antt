-- ===== src/Bus.antt =====
-- infra/ws/bus.go: the event bus. A client is known by the number of its connection, and its record,
-- with the channel of what it is to be sent, stays in the heap when the bus has dropped it. A mutex
-- is held for one step; the two consumers send without it, so between two sends anything can happen.
pub mod Indexed
pub mod Agrees
pub mod Inv
pub mod Race
mod Samples
use vibeflow.Prelude.{
  ℕ, suc, Bool, true, false, not, ◌&&◌, String, List, [], ◌∷◌, ◌++◌, Map, Option, none, some, ℤ,
  pos, pos_part, ltb_ℤ, lookup, insert, delete, has, string_eq, nat_eq, length, ltb, map,
  if◌then◌else◌, ◌==◌,
}

abbrev pub default_broadcast_buffer : ℕ
default_broadcast_buffer = 256

abbrev pub default_client_buffer : ℕ
default_client_buffer = 64

pub record WsConfig : Type 0 where
  pub broadcast_buffer : ℤ
  pub client_buffer : ℤ

-- `send` is the channel: what waits in it, its size, and whether it is closed.
pub record WsClient : Type 0 where
  pub workflow : String
  pub send : List String
  pub buffer : ℕ
  pub closed : Bool

pub record RoutedMessage : Type 0 where
  pub text : String
  pub workflow : String

-- What a consumer has still to send: a message, and the clients that it copied under the lock.
pub record Sending : Type 0 where
  pub text : String
  pub targets : List ℕ

-- `WSEvent`, with the heap of all clients, the number made, and the two consumers.
pub record WsEvent : Type 0 where
  pub clients : Map ℕ Bool
  pub workflow_clients : Map String (Map ℕ Bool)
  pub global_broadcast : List RoutedMessage
  pub workflow_broadcast : List RoutedMessage
  pub conf : WsConfig
  pub heap : Map ℕ WsClient
  pub made : ℕ
  pub to_all : Sending
  pub to_workflow : Sending

abbrev pub positive_or : ℕ → ℤ → ℕ
positive_or d n = if ltb_ℤ (pos 0) n then pos_part n else d

abbrev pub nothing_to_send : Sending
nothing_to_send = record { text = ""; targets = [] }

-- `NewWSEvent`.
abbrev pub new_ws_event : WsConfig → WsEvent
new_ws_event conf = record {
  clients = [];
  workflow_clients = [];
  global_broadcast = [];
  workflow_broadcast = [];
  conf = conf;
  heap = [];
  made = 0;
  to_all = nothing_to_send;
  to_workflow = nothing_to_send;
}

abbrev pub members : String → Map String (Map ℕ Bool) → Map ℕ Bool
members w m = elim (lookup w m) [ none ↦ [] | some s ↦ s ]

unfoldable pub index_client : ℕ → String → Map String (Map ℕ Bool) → Map String (Map ℕ Bool)
index_client id w m = if w == "" then m else insert w (insert id true (members w m)) m

put_members : String → Map ℕ Bool → Map String (Map ℕ Bool) → Map String (Map ℕ Bool)
put_members w [] m = delete w m
put_members w (c ∷ cs) m = insert w (c ∷ cs) m

-- The set of a workflow goes when its last client does.
unfoldable pub unindex_client : ℕ → String → Map String (Map ℕ Bool) → Map String (Map ℕ Bool)
unfolding put_members
unindex_client id w m = if w == "" then m else put_members w (delete id (members w m)) m

-- `ServeWS` up to its registration, with the branch of `Run` for it.
unfoldable pub serve_ws : String → WsEvent → WsEvent
unfolding index_client
serve_ws workflow e =
    let client : WsClient = record {
      workflow = workflow;
      send = [];
      buffer = positive_or default_client_buffer e.conf.client_buffer;
      closed = false;
    } in
    record e {
      heap = insert e.made client e.heap;
      made = suc e.made;
      clients = insert e.made true e.clients;
      workflow_clients = index_client e.made workflow e.workflow_clients;
    }

-- Under the lock, for a client that is registered: out of both maps, and its channel closed.
unfoldable pub remove_client : ℕ → WsClient → WsEvent → WsEvent
unfolding unindex_client
remove_client id c e =
    if has id e.clients
    then record e {
      clients = delete id e.clients;
      workflow_clients = unindex_client id c.workflow e.workflow_clients;
      heap = insert id (record c { closed = true }) e.heap;
    }
    else e

-- The branch of `Run` for `unregister`, which the end of `readPump` asks for.
unfoldable pub unregister : ℕ → WsEvent → WsEvent
unfolding remove_client
unregister id e = elim (lookup id e.heap) [ none ↦ e | some c ↦ remove_client id c e ]

-- `sendToClient`. There is no bus after a send on a closed channel: the program panics.
unfoldable pub send_to : ℕ → String → WsClient → WsEvent → Option WsEvent
unfolding remove_client
send_to id text c e =
    if c.closed
    then none
    else if ltb (length c.send) c.buffer
    then some (record e { heap = insert id (record c { send = c.send ++ text ∷ [] }) e.heap })
    else some (remove_client id c e)

unfoldable pub send_to_client : ℕ → String → WsEvent → Option WsEvent
unfolding send_to
send_to_client id text e = elim (lookup id e.heap) [ none ↦ some e | some c ↦ send_to id text c e ]

-- `broadcastToChannel`, without its message: a full channel drops it.
unfoldable pub broadcast_to_channel : ℕ → RoutedMessage → List RoutedMessage → List RoutedMessage
broadcast_to_channel size msg ch = if ltb (length ch) size then ch ++ msg ∷ [] else ch

abbrev pub broadcast_size : WsEvent → ℕ
broadcast_size e = positive_or default_broadcast_buffer e.conf.broadcast_buffer

-- `Broadcast` and `BroadcastToWorkflow`, with the text that the JSON library makes of the message.
unfoldable pub broadcast : String → WsEvent → WsEvent
unfolding broadcast_to_channel
broadcast text e = record e {
  global_broadcast =
      broadcast_to_channel (broadcast_size e) (record { text = text; workflow = "" })
        e.global_broadcast;
}

unfoldable pub broadcast_to_workflow : String → String → WsEvent → WsEvent
unfolding broadcast_to_channel
broadcast_to_workflow w text e = record e {
  workflow_broadcast =
      broadcast_to_channel (broadcast_size e) (record { text = text; workflow = w })
        e.workflow_broadcast;
}

abbrev pub ids : Map ℕ Bool → List ℕ
ids [] = []
ids ((id, b) ∷ m) = id ∷ ids m

-- A consumer that is done takes the next message and copies the clients, under the lock.
unfoldable pub take_global : List ℕ → List RoutedMessage → WsEvent → WsEvent
take_global [] (m ∷ ms) e = record e {
  global_broadcast = ms;
  to_all = record { text = m.text; targets = ids e.clients };
}
take_global ts ms e = e

unfoldable pub take_workflow : List ℕ → List RoutedMessage → WsEvent → WsEvent
take_workflow [] (m ∷ ms) e = record e {
  workflow_broadcast = ms;
  to_workflow = record { text = m.text; targets = ids (members m.workflow e.workflow_clients) };
}
take_workflow ts ms e = e

-- One round of the loop of `sendToAllLocked`, and of `sendToWorkflowLocked`.
unfoldable pub deliver_global : List ℕ → WsEvent → Option WsEvent
unfolding send_to_client
deliver_global [] e = some e
deliver_global (id ∷ ts) e =
    send_to_client id e.to_all.text (record e { to_all = record (e.to_all) { targets = ts } })

unfoldable pub deliver_workflow : List ℕ → WsEvent → Option WsEvent
unfolding send_to_client
deliver_workflow [] e = some e
deliver_workflow (id ∷ ts) e =
    send_to_client id e.to_workflow.text
      (record e { to_workflow = record (e.to_workflow) { targets = ts } })

rest_of : List String → List String
rest_of [] = []
rest_of (x ∷ xs) = xs

-- `writePump` takes a message out of its channel.
unfoldable pub write_pump : ℕ → WsEvent → WsEvent
unfolding rest_of
write_pump id e = elim (lookup id e.heap) [
  | none ↦ e
  | some c ↦ record e { heap = insert id (record c { send = rest_of c.send }) e.heap }
]

-- What happens next.
pub data Event : Type 0 where
  connects : String → Event
  disconnects : ℕ → Event
  broadcasts : String → Event
  broadcasts_to_workflow : String → String → Event
  takes_global takes_workflow delivers_global delivers_workflow : Event
  writes : ℕ → Event

unfoldable pub step : Event → WsEvent → Option WsEvent
unfolding serve_ws unregister broadcast broadcast_to_workflow take_global take_workflow
    deliver_global deliver_workflow write_pump
step (connects w) e = some (serve_ws w e)
step (disconnects id) e = some (unregister id e)
step (broadcasts text) e = some (broadcast text e)
step (broadcasts_to_workflow w text) e = some (broadcast_to_workflow w text e)
step takes_global e = some (take_global e.to_all.targets e.global_broadcast e)
step takes_workflow e = some (take_workflow e.to_workflow.targets e.workflow_broadcast e)
step delivers_global e = deliver_global e.to_all.targets e
step delivers_workflow e = deliver_workflow e.to_workflow.targets e
step (writes id) e = some (write_pump id e)

unfoldable pub run : List Event → WsEvent → Option WsEvent
unfolding step
run [] e = some e
run (x ∷ xs) e = elim (step x e) [ none ↦ none | some f ↦ run xs f ]
