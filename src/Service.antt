-- ===== src/Service.antt =====
-- scamp/service.go: a service: its actions, its clients, and the loop that handles a client's
-- messages. scamp/service_stats.go: what it counts.
-- A client is known by a number, which stands for its address. What a callback does to the client that
-- it is called with is a function. The random part of the name, the time and the timestamp are arguments.
pub mod Rows
pub mod Handling
pub mod Clients
pub mod Marshal
pub mod Files
pub mod Running
pub mod Starting
pub mod Stats
pub mod Found
pub mod Announced
use scamp_go.Base.{
  ℕ, zero, suc, ◌+◌, ◌*◌, ◌%◌, Bool, true, false, List, [], ◌∷◌, ◌++◌, map, Option, none, some, leb,
  ltb, ◌==◌, if◌then◌else◌, Bytes, codes, bytes_Eq, length, take, drop,
}
use scamp_go.Base.Decimal.{two_64, format_int}
use scamp_go.Base.Dict.{lookup, insert}
use scamp_go.Base.Split.{trim_space}
use scamp_go.Header.{Json, json, reply}
use scamp_go.Message.{Message, new_message, set_message_type, set_envelope, set_request_id, write}
use scamp_go.Client.{Client}
use scamp_go.Client as Sender
use scamp_go.Connection.{SendError}
use scamp_go.Ticket.{Crypto, KeyState, TicketError}
use scamp_go.Action.{ActionOptions, default_action_options, Called, called, replied, panicked, call}
use scamp_go.Proxy.{Proxy, ProxyClass, ProxyAction, Arrays, marshal_json}
use scamp_go.Signature.{Certificates, sign_sha256}

-- `ServiceAction`, with the `ServiceOptionsFunc` that its callback is.
pub record ServiceAction : Type 0 where
  pub callback : Message → Option Client → Option Client
  pub options : ActionOptions
  pub crud_tags : Bytes
  pub version : ℕ

-- `listener_ip` is the text of `listenerIP.To4()`, which is nil, `none` here, for an address that is not
-- IPv4: nothing else of the address is read.
pub record Service : Type 0 where
  pub sector : Bytes
  pub service_spec : Bytes
  pub name : Bytes
  pub human_name : Bytes
  pub listener_ip : Option Bytes
  pub listener_port : ℕ
  pub actions : List (Bytes × ServiceAction)
  pub is_running : Bool
  pub clients : List ℕ
  pub pem_cert : Bytes
  pub connections_accepted : ℕ

-- `generateRandomName`, with the text of the random bytes.
abbrev pub random_name : Bytes → Bytes → Bytes
random_name human_name random = human_name ++ b':' ∷ random

-- `NewServiceExplicitCert`, with what `listen` finds: `none` for a name that is too long, 18 bytes being
-- taken.
unfoldable pub new_service :
    Bytes → Bytes → Bytes → Bytes → Option Bytes → ℕ → Bytes → Option Service
new_service sector service_spec human_name random ip port pem_cert =
    if ltb 18 (length human_name)
    then none
    else some (record {
      sector = sector;
      service_spec = service_spec;
      name = random_name human_name random;
      human_name = human_name;
      listener_ip = ip;
      listener_port = port;
      actions = [];
      is_running = false;
      clients = [];
      pem_cert = trim_space pem_cert;
      connections_accepted = 0;
    })

abbrev pub options_or_default : Option ActionOptions → ActionOptions
options_or_default none = default_action_options
options_or_default (some options) = options

-- `Register`: whether it has registered the callback.
unfoldable pub register :
    Service
    → Bytes
    → (Message → Option Client → Option Client)
    → Option ActionOptions
    → Service × Bool
register serv name callback options = if serv.is_running then (serv, false) else (
  record serv {
    actions =
        insert name
          (record {
            callback = callback;
            options = options_or_default options;
            crud_tags = [];
            version = 1;
          })
          serv.actions;
  },
  true,
)

-- The reply to a message whose action is not registered.
unfoldable pub no_such_action : Message → Message
no_such_action msg =
    (write (set_request_id (set_envelope (set_message_type new_message reply) json) msg.request_id)
      (codes "{\"error\": \"no such action\"}")).0

-- What comes to the loop of `Handle`.
pub data Event : Type 0 where
  incoming : Message → Event
  incoming_closed timed_out : Event

-- A round of the loop: it goes on, it ends, or an action panics.
pub data Handled {ℓ} (K : Type ℓ) : Type ℓ where
  goes_on ends : KeyState K → Option Client → Handled K
  crashes : Handled K

abbrev pub close_client : Option Client → Option Client
close_client none = none
close_client (some client) = some (Sender.close client).0

abbrev after_reply {ℓ} : {K : Type ℓ} → KeyState K → Client → Option SendError → Handled K
after_reply state client none = goes_on state (some client)
after_reply state client (some e) = ends state (close_client (some client))

module _ (j : Json) (c : Crypto) (text : TicketError → Bytes) (now : ℕ) where
  abbrev pub after_call : KeyState c.Key × Called → Handled c.Key
  after_call (state, called client) = goes_on state client
  after_call (state, replied client) = goes_on state client
  after_call (state, panicked) = crashes

  abbrev pub answer : KeyState c.Key → Option Client → Message → Handled c.Key
  answer state none msg = crashes
  answer state (some client) msg =
      let sent = Sender.send j client (no_such_action msg) in after_reply state sent.0 sent.3

  abbrev pub run_action :
      Option ServiceAction → KeyState c.Key → Option Client → Message → Handled c.Key
  run_action none state client msg = answer state client msg
  run_action (some action) state client msg =
      after_call (call j c text action.callback action.options state now msg client)

  -- One event of the loop in `Handle`.
  unfoldable pub handle_event : Service → KeyState c.Key → Option Client → Event → Handled c.Key
  handle_event serv state client incoming_closed = ends state client
  handle_event serv state client timed_out = ends state client
  handle_event serv state client (incoming msg) =
      run_action (lookup msg.action serv.actions) state client msg

  -- The loop over the events that come, and what it is at when they have come.
  unfoldable pub handle_loop : Service → Handled c.Key → List Event → Handled c.Key
  handle_loop serv h [] = h
  handle_loop serv (goes_on state client) (e ∷ es) =
      handle_loop serv (handle_event serv state client e) es
  handle_loop serv (ends state client) (e ∷ es) = ends state client
  handle_loop serv crashes (e ∷ es) = crashes

-- `RemoveClient`: the first entry that is the client goes. False is the error for an unknown client.
abbrev pub tracks : ℕ → List ℕ → Bool
tracks client [] = false
tracks client (entry ∷ entries) = if entry == client then true else tracks client entries

abbrev pub without_first : ℕ → List ℕ → List ℕ
without_first client [] = []
without_first client (entry ∷ entries) =
    if entry == client then entries else entry ∷ without_first client entries

unfoldable pub remove_client : Service → ℕ → Service × Bool
remove_client serv client =
    if tracks client serv.clients
    then (record serv { clients = without_first client serv.clients }, true)
    else (serv, false)

-- What `Handle` does when its loop has ended: the client is closed, and closed again when it is taken off
-- the service.
unfoldable pub end_handling : Service → ℕ → Option Client → Service × Option Client
end_handling serv id client =
    let removed = remove_client serv id in
    let closed = close_client client in
    (removed.0, if removed.1 then close_client closed else closed)

-- A round of `Run`, for a client that has been accepted: it is tracked, its `Handle` is started, and only
-- then it is counted.
unfoldable pub append_client : Service → ℕ → Service
append_client serv client = record serv { clients = serv.clients ++ client ∷ [] }

unfoldable pub count_client : Service → Service
count_client serv = record serv { connections_accepted = (serv.connections_accepted + 1) % two_64 }

-- The round with nothing in between.
unfoldable pub accept_client : Service → ℕ → Service
unfolding append_client count_client
accept_client serv client = count_client (append_client serv client)

pub record ServiceStats : Type 0 where
  pub clients_accepted : ℕ
  pub open_connections : ℕ

-- `GatherStats`.
unfoldable pub gather_stats : Service → ServiceStats
gather_stats serv = record {
  clients_accepted = serv.connections_accepted;
  open_connections = length serv.clients;
}
