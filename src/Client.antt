-- ===== src/Client.antt =====
-- scamp/client.go: a client of a connection. It numbers the messages that it sends, and splits those
-- that come in into requests and replies.
-- Channels are logs: a reply channel is a number, `delivered` holds what was sent on each, in order. A send
-- is taken as received at once: in the code, whose channels have no buffer, the loop waits at a send for
-- which nobody receives.
-- The steps that other goroutines can come between are functions of their own: a message goes out
-- (`send_on_wire`) before its reply channel is registered (`register`), and the loop of
-- `splitReqsAndReps` reads `client.conn` anew after each message (`arrive`).
-- What closing does to the connection and to the proxy in the cache is a result of `close`. The
-- field `serv`, which only `SetService` sets, is nil: nothing in the repository calls that method.
pub mod Replies
pub mod Numbering
pub mod Late
pub mod Waiting
use scamp_go.Base.{
  ℕ, ◌+◌, ◌%◌, Bool, true, false, not, List, [], ◌∷◌, ◌++◌, map, Option, none, some, if◌then◌else◌,
  Bytes, nat_eq,
}
use scamp_go.Base.Decimal.{two_64}
use scamp_go.Base.Dict.{lookup, insert, delete}
use scamp_go.Header.{Json, MessageType, request, reply, unknown_type}
use scamp_go.Message.{Message, set_request_id}
use scamp_go.Connection.{Connection, SendError, nil_connection}
use scamp_go.Connection as Conn

pub record Client : Type 0 where
  pub conn : Option Connection
  pub requests : List Message
  pub requests_closed : Bool
  -- Request ids and the numbers of their reply channels.
  pub open_replies : List (ℕ × ℕ)
  pub channels_made : ℕ
  pub delivered : List (ℕ × Message)
  pub closed_channels : List ℕ
  pub is_closed : Bool
  pub next_request_id : ℕ
  pub sp_ident : Bytes

-- `NewClient`.
abbrev pub new_client : Connection → Client
new_client conn = record {
  conn = some conn;
  requests = [];
  requests_closed = false;
  open_replies = [];
  channels_made = 0;
  delivered = [];
  closed_channels = [];
  is_closed = false;
  next_request_id = 0;
  sp_ident = [];
}

module _ (j : Json) where
  -- `client.conn.Send(msg)`, where the connection may be nil.
  unfoldable pub conn_send :
      Option Connection → Message → Option Connection × Message × Option SendError
  conn_send none msg = (none, msg, some nil_connection)
  conn_send (some conn) msg = let (conn', msg', e) = Conn.send j conn msg in (some conn', msg', e)

  -- The first half of `Client.Send`: the message gets the next number, whatever number it had.
  unfoldable pub send_on_wire : Client → Message → Client × Message × Option SendError
  send_on_wire client msg =
      let id = (client.next_request_id + 1) % two_64 in
      let (conn', msg', e) = conn_send client.conn (set_request_id msg id) in
      (record client { conn = conn'; next_request_id = id }, msg', e)

-- The second half: a request's reply channel is made and registered.
unfoldable pub register : MessageType → Client → Message → Client × Option ℕ
register request client msg =
    let channel = client.channels_made in
    (
      record client {
        open_replies = insert msg.request_id channel client.open_replies;
        channels_made = channel + 1;
      },
      some channel,
    )
register reply client msg = (client, none)
register (unknown_type n) client msg = (client, none)

-- What `Client.Send` returns, by the error of the connection: the message with its number, the reply
-- channel and the error.
unfoldable pub after_send :
    Option SendError → Client → Message → Client × Message × Option ℕ × Option SendError
unfolding register
after_send (some failed) client msg = (client, msg, none, some failed)
after_send none client msg =
    let (client', channel) = register msg.message_type client msg in (client', msg, channel, none)

-- `Client.Send`.
unfoldable pub send : Json → Client → Message → Client × Message × Option ℕ × Option SendError
unfolding after_send
send j client msg = let (client', msg', e) = send_on_wire j client msg in after_send e client' msg'

unfoldable pub dispatch_reply : Option ℕ → Client → Message → Client
dispatch_reply none client msg = client
dispatch_reply (some channel) client msg = record client {
  open_replies = delete msg.request_id client.open_replies;
  delivered = client.delivered ++ (channel, msg) ∷ [];
}

unfoldable pub dispatch_as : MessageType → Client → Message → Client
unfolding dispatch_reply
dispatch_as request client msg = record client { requests = client.requests ++ msg ∷ [] }
dispatch_as reply client msg = dispatch_reply (lookup msg.request_id client.open_replies) client msg
dispatch_as (unknown_type n) client msg = client

-- One message of the loop in `splitReqsAndReps`.
unfoldable pub dispatch : Client → Message → Client
unfolding dispatch_as
dispatch client msg = dispatch_as msg.message_type client msg

pub data Round : Type 0 where
  waits panics : Client → Round

-- A round of the loop, and the read of `client.conn.msgs` with which the next one begins: it panics
-- on a client that was closed in between.
unfoldable pub arrive : Client → Message → Round
unfolding dispatch
arrive client msg =
    let client' = dispatch client msg in
    elim client'.conn [ none ↦ panics client' | some conn ↦ waits client' ]

-- `closeConnection`: the client without its connection, and that connection, closed.
unfoldable pub close_connection : Client → Client × Option Connection
close_connection client = (
  record client { conn = none },
  elim client.conn [ none ↦ none | some conn ↦ some (Conn.close conn) ],
)

-- What `Client.Close` does outside the client: the connection that it closes, and the proxy in the
-- cache that drops the client.
pub record Closing : Type 0 where
  pub conn_closed : Option Connection
  pub proxy_released : Option Bytes

abbrev pub released : Bytes → Option Bytes
released [] = none
released (c ∷ s) = some (c ∷ s)

-- `Client.Close`.
unfoldable pub close : Client → Client × Closing
unfolding close_connection
close client =
    let left = close_connection client in
    if client.is_closed
    then (client, record { conn_closed = none; proxy_released = released client.sp_ident })
    else (
      record (left.0) { is_closed = true },
      record { conn_closed = left.1; proxy_released = released client.sp_ident },
    )

-- The end of `splitReqsAndReps`, when the connection's channel has been closed.
unfoldable pub finish : Client → Client × Closing
unfolding close
finish client =
    let ended = record client {
      requests_closed = true;
      closed_channels = client.closed_channels ++ map (λ e. e.1) client.open_replies;
    } in
    let closed = close ended in
    if client.is_closed
    then (ended, record { conn_closed = none; proxy_released = none })
    else closed
