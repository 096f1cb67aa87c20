-- ===== src/Requester.antt =====
-- scamp/requester.go: a request over the proxies that the cache finds for its action.
-- Clients and proxies are shared by pointers: both are numbers, and the pool holds the clients. What
-- `rand.Shuffle` and `sort.Slice` do is given, and so are the network, and the number of the proxy that
-- the cache's index points to.
-- The wait for a response is over what comes to it, in order; time passes as one of these.
pub mod Sent
pub mod Answered
pub mod Returned
use scamp_go.Base.{ℕ, zero, suc, List, [], ◌∷◌, Option, none, some, Bytes, codes, nat_eq, length}
use scamp_go.Base.Dict.{lookup, insert}
use scamp_go.Base.Result.{Result, ok, err}
use scamp_go.Header.{Json, EnvelopeFormat, json, jsonstore, unknown_format}
use scamp_go.Message.{Message, set_action, set_version}
use scamp_go.Connection.{SendError}
use scamp_go.Client.{Client}
use scamp_go.Client as Sender
use scamp_go.Proxy.{Proxy}
use scamp_go.Pool.{Pool, Network, get_client}
use scamp_go.Cache.{ServiceCache, search_by_action}

-- The clients of the process, by their numbers.
abbrev pub Store : Type 0
Store = List (ℕ × Client)

-- The error that a request which could not be sent names.
pub data LastError : Type 0 where
  get_client_error : Bytes → LastError
  send_error : SendError → LastError

pub data RequestError : Type 0 where
  unsupported_envelope : ℕ → RequestError
  search_failed : Bytes → RequestError
  not_found : RequestError
  request_failed : Option LastError → RequestError
  nil_channel timed_out no_response : RequestError

-- What comes to the wait for a response: a message, a nil message, the closing of the channel, or the
-- timeout.
pub data Arrival : Type 0 where
  received : Message → Arrival
  received_nil channel_closed expired : Arrival

-- What the code takes from elsewhere: the number of a proxy, the network, and the order that the clients
-- are in after `rand.Shuffle`, and then after `sort.Slice` by the numbers that `depth` gives.
pub record Choice : Type 0 where
  pub number : Proxy → ℕ
  pub network : Network
  pub shuffle : List ℕ → List ℕ
  pub sort_slice : (ℕ → ℕ) → List ℕ → List ℕ

-- `len(client.openReplies)`.
abbrev pub depth_of : Option Client → ℕ
depth_of none = 0
depth_of (some client) = length client.open_replies

abbrev pub depth : Store → ℕ → ℕ
depth store id = depth_of (lookup id store)

-- `MAX_RETRIES`.
abbrev pub max_retries : ℕ
max_retries = 20

-- The name of an envelope's type.
abbrev pub msg_type : EnvelopeFormat → Result RequestError Bytes
msg_type json = ok (codes "json")
msg_type jsonstore = ok (codes "jsonstore")
msg_type (unknown_format n) = err (unsupported_envelope n)

abbrev pub with_client : Result Bytes ℕ → List ℕ × Option LastError → List ℕ × Option LastError
with_client (err e) (ids, none) = (ids, some (get_client_error e))
with_client (err e) (ids, some last) = (ids, some last)
with_client (ok id) (ids, last) = (id ∷ ids, last)

-- The clients of the proxies, and the error of the last proxy that has none, with what `GetClient` leaves.
unfoldable pub get_clients :
    Network → (Proxy → ℕ) → Pool → List Proxy → Pool × List ℕ × Option LastError
get_clients network number pool [] = (pool, [], none)
get_clients network number pool (proxy ∷ proxies) =
    let first = get_client network pool (number proxy) proxy in
    let others = get_clients network number first.0 proxies in
    let ids = with_client first.1 (others.1, others.2) in (others.0, ids.0, ids.1)

-- What is sent: by which client, the message with its number, and the reply channel.
pub record SentRequest : Type 0 where
  pub client_id : ℕ
  pub message : Message
  pub channel : Option ℕ

abbrev pub send_by :
    Json → Option Client → Message → Option (Client × Message × Option ℕ × Option SendError)
send_by j none msg = none
send_by j (some client) msg = some (Sender.send j client msg)

module _ (j : Json) where
  -- The loop that sends: each client gets the message as the one before it has left it. A number that
  -- is not in the store stands for no client, which the code never has.
  unfoldable pub send_first :
      List ℕ
      → Store
      → Message
      → Option LastError
      → Store × Message × Result (Option LastError) SentRequest
  send_first [] store msg last = (store, msg, err last)
  send_first (id ∷ ids) store msg last = elim (send_by j (lookup id store) msg) [
    | none ↦ send_first ids store msg last
    | some (client, msg', channel, none) ↦ (
      insert id client store,
      msg',
      ok (record { client_id = id; message = msg'; channel = channel }),
    )
    | some (client, msg', channel, some e) ↦
        send_first ids (insert id client store) msg' (some (send_error e))
  ]

-- The loop `RetryLoop`: `none` while it waits.
unfoldable pub await_response : ℕ → List Arrival → Option (Result RequestError Message)
await_response zero arrivals = some (err no_response)
await_response (suc attempts) [] = none
await_response (suc attempts) (received msg ∷ arrivals) = some (ok msg)
await_response (suc attempts) (received_nil ∷ arrivals) = await_response attempts arrivals
await_response (suc attempts) (channel_closed ∷ arrivals) = some (err no_response)
await_response (suc attempts) (expired ∷ arrivals) = some (err timed_out)

abbrev pub await_on : Option ℕ → (ℕ → List Arrival) → Option (Result RequestError Message)
await_on none arrivals = some (err nil_channel)
await_on (some channel) arrivals = await_response max_retries (arrivals channel)

-- The pool with the store that sending has left.
abbrev pub in_pool :
    Pool
    → Store × Message × Result (Option LastError) SentRequest
    → Pool × Message × Result RequestError SentRequest
in_pool pool (store, msg, ok request) = (record pool { store = store }, msg, ok request)
in_pool pool (store, msg, err last) =
    (record pool { store = store }, msg, err (request_failed last))

-- The wait of a request that has been sent.
abbrev pub respond :
    (ℕ → List Arrival)
    → Pool × Message × Result RequestError SentRequest
    → Pool × Option (Result RequestError Message)
respond arrivals (pool, msg, err e) = (pool, some (err e))
respond arrivals (pool, msg, ok request) = (pool, await_on request.channel arrivals)

module _ (j : Json) (choice : Choice) where
  -- The clients in the order in which the code tries them.
  abbrev pub in_order : Store → List ℕ → List ℕ
  in_order store ids = choice.sort_slice (depth store) (choice.shuffle ids)

  -- The clients of the proxies, in the pool that `GetClient` leaves.
  abbrev pub got_clients : Pool → List Proxy → Pool × List ℕ × Option LastError
  got_clients pool proxies = get_clients choice.network choice.number pool proxies

  -- From the proxies that the search finds to the message that is sent.
  unfoldable pub send_request :
      Result Bytes (List Proxy)
      → Pool
      → Message
      → Bytes
      → ℕ
      → Pool × Message × Result RequestError SentRequest
  send_request (err e) pool msg action version = (pool, msg, err (search_failed e))
  send_request (ok []) pool msg action version = (pool, msg, err not_found)
  send_request (ok (proxy ∷ proxies)) pool msg action version =
      let found = got_clients pool (proxy ∷ proxies) in
      in_pool found.0 (
        send_first j (in_order found.0.store found.1) found.0.store
          (set_version (set_action msg action) version) found.2)

  -- `MakeJSONRequest` up to the wait.
  unfoldable pub begin_request :
      ServiceCache
      → Pool
      → Bytes
      → Bytes
      → ℕ
      → Message
      → Pool × Message × Result RequestError SentRequest
  begin_request cache pool sector action version msg = elim (msg_type msg.envelope) [
    | err e ↦ (pool, msg, err e)
    | ok type ↦
        send_request (search_by_action cache sector action version type) pool msg action version
  ]

  -- `MakeJSONRequest`, with what comes on each reply channel: `none` while it waits.
  unfoldable pub make_json_request :
      ServiceCache
      → Pool
      → Bytes
      → Bytes
      → ℕ
      → Message
      → (ℕ → List Arrival)
      → Pool × Option (Result RequestError Message)
  make_json_request cache pool sector action version msg arrivals =
      respond arrivals (begin_request cache pool sector action version msg)
