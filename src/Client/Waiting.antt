-- ===== src/Client/Waiting.antt =====
-- scamp/client.go: the loop of `splitReqsAndReps` over channels that have no buffer: it waits at a send
-- until somebody receives. `Send` is called by other goroutines at any time. Closing is not among the steps.
pub mod Stuck
use scamp_go.Base.{
  Bool, true, false, subst, ◌≢◌, List, [], ◌∷◌, ◌++◌, Option, none, some, ℕ, All, nat_eq,
}
use scamp_go.Base.Dict.{lookup, delete}
use scamp_go.Header.{Json, MessageType, request, reply, unknown_type}
use scamp_go.Message.{Message, set_request_id}
use scamp_go.Client.{Client, conn_send, send, dispatch}
use scamp_go.Client.Replies.{IsReply}

-- Where the loop is: at the receive from the connection's channel, at the send of a request, or at the send
-- of a reply on its channel.
pub data Loop : Type 0 where
  taking : Loop
  giving_request : Message → Loop
  giving_reply : ℕ → Message → Loop

-- From the receive of a message to the send of it, if there is one.
unfoldable pub take_reply : Option ℕ → Client → Message → Client × Loop
take_reply none client msg = (client, taking)
take_reply (some channel) client msg = (
  record client { open_replies = delete msg.request_id client.open_replies },
  giving_reply channel msg,
)

unfoldable pub take_as : MessageType → Client → Message → Client × Loop
unfolding take_reply
take_as request client msg = (client, giving_request msg)
take_as reply client msg = take_reply (lookup msg.request_id client.open_replies) client msg
take_as (unknown_type n) client msg = (client, taking)

unfoldable pub take_message : Client → Message → Client × Loop
unfolding take_as
take_message client msg = take_as msg.message_type client msg

-- The client when what the loop is sending has been received.
unfoldable pub received_by : Loop → Client → Client
received_by taking client = client
received_by (giving_request msg) client = record client { requests = client.requests ++ msg ∷ [] }
received_by (giving_reply channel msg) client = record client {
  delivered = client.delivered ++ (channel, msg) ∷ [];
}

-- The loop takes a message, somebody receives what it sends, or a goroutine calls `Send`.
pub data Event : Type 0 where
  takes : Message → Event
  receives : Event
  sends : Message → Event

pub data Step (j : Json) : Client × Loop → Event → Client × Loop → Type 0 where
  message_taken :
      (client : Client) (msg : Message)
      → Step j (client, taking) (takes msg) (take_message client msg)
  request_received :
      (client : Client) (msg : Message)
      → Step j
          (client, giving_request msg)
          receives
          (received_by (giving_request msg) client, taking)
  reply_received :
      (client : Client) (channel : ℕ) (msg : Message)
      → Step j
          (client, giving_reply channel msg)
          receives
          (received_by (giving_reply channel msg) client, taking)
  message_sent :
      (client : Client) (loop : Loop) (msg : Message)
      → Step j (client, loop) (sends msg) ((send j client msg).0, loop)

pub data Runs (j : Json) : Client × Loop → List Event → Client × Loop → Type 0 where
  stopped : {s : Client × Loop} → Runs j s [] s
  goes :
      {s t u : Client × Loop} {e : Event} {es : List Event}
      → Step j s e t
      → Runs j t es u
      → Runs j s (e ∷ es) u

-- The same events where each message that is taken is received at once.
unfoldable pub play_event : Json → Event → Client → Client
play_event j (takes msg) client = dispatch client msg
play_event j receives client = client
play_event j (sends msg) client = (send j client msg).0

unfoldable pub play : Json → List Event → Client → Client
play j [] client = client
play j (e ∷ es) client = play j es (play_event j e client)
