-- ===== src/Client/Replies.antt =====
-- scamp/client.go: which reply goes to which request.
use scamp_go.Base.{
  ℕ, ◌+◌, ◌%◌, ◌≡◌, ◌≢◌, refl, ap, subst, ◌∙◌, List, [], ◌∷◌, ◌++◌, Option, none, some, arith,
  nat_eq, All, ◌==◌, ==_refl, Bool-cases, inl, inr,
}
use scamp_go.Base.Decimal.{two_64}
use scamp_go.Base.Dict.{lookup, delete, lookup-insert, lookup-delete}
use scamp_go.Header.{Json, MessageType, request, reply, unknown_type}
use scamp_go.Message.{Message, to_packets, set_request_id}
use scamp_go.Connection.{Connection, SendError}
use scamp_go.Connection as Conn
use scamp_go.Client.{
  Client, conn_send, send_on_wire, register, after_send, send, dispatch_reply, dispatch_as,
  dispatch,
}

-- A reply with the given number.
abbrev pub IsReply : ℕ → Message → Type 0
IsReply id msg = (msg.message_type ≡ reply) × (msg.request_id ≡ id)

-- The loop of `splitReqsAndReps` over messages that all arrive.
unfoldable pub dispatch_all : List Message → Client → Client
dispatch_all [] client = client
dispatch_all (msg ∷ msgs) client = dispatch_all msgs (dispatch client msg)

some-ne-none : (e : SendError) → some e ≢ none
some-ne-none e p = cc

dispatch_reply-keep :
    (found : Option ℕ) (id : ℕ) (client : Client) (msg : Message)
    → msg.request_id ≢ id
    → lookup id (dispatch_reply found client msg).open_replies ≡ lookup id client.open_replies
unfolding dispatch_reply
dispatch_reply-keep none id client msg other = refl
dispatch_reply-keep (some channel) id client msg other =
    ground (arith, other, lookup-delete msg.request_id id client.open_replies)

dispatch_as-keep :
    (t : MessageType) (id : ℕ) (client : Client) (msg : Message)
    → (t ≡ reply → msg.request_id ≢ id)
    → lookup id (dispatch_as t client msg).open_replies ≡ lookup id client.open_replies
unfolding dispatch_as
dispatch_as-keep request id client msg other = refl
dispatch_as-keep reply id client msg other =
    dispatch_reply-keep (lookup msg.request_id client.open_replies) id client msg (other refl)
dispatch_as-keep (unknown_type n) id client msg other = refl

dispatch_all-keep :
    (id : ℕ) (client : Client) (msgs : List Message)
    → All (λ m. ¬ IsReply id m) msgs
    → lookup id (dispatch_all msgs client).open_replies ≡ lookup id client.open_replies
unfolding dispatch_all dispatch
dispatch_all-keep id client [] others = refl
dispatch_all-keep id client (msg ∷ msgs) (other, others) =
    dispatch_all-keep id (dispatch client msg) msgs others
    ∙ dispatch_as-keep msg.message_type id client msg (λ t e. other (t, e))

dispatch-reply :
    (id channel : ℕ) (client : Client) (msg : Message)
    → IsReply id msg
    → lookup id client.open_replies ≡ some channel
    → dispatch client msg ≡ record client {
      open_replies = delete id client.open_replies;
      delivered = client.delivered ++ (channel, msg) ∷ [];
    }
unfolding dispatch dispatch_as dispatch_reply
dispatch-reply id channel client msg (t, e) found = rw (t, e, found) refl

dispatch-unexpected :
    (id : ℕ) (client : Client) (msg : Message)
    → IsReply id msg
    → lookup id client.open_replies ≡ none
    → dispatch client msg ≡ client
unfolding dispatch dispatch_as dispatch_reply
dispatch-unexpected id client msg (t, e) missing = rw (t, e, missing) refl

pub conn_send-keep :
    (j : Json) (conn : Option Connection) (msg : Message)
    → ((conn_send j conn msg).1.message_type ≡ msg.message_type)
      × ((conn_send j conn msg).1.request_id ≡ msg.request_id)
unfolding conn_send Conn.send to_packets
conn_send-keep j none msg = (refl, refl)
conn_send-keep j (some conn) msg = elim (Bool-cases (msg.request_id == 0)) [
  | inl unset ↦ rw (unset, Conn.send) (refl, refl)
  | inr given ↦ rw (given, Conn.send) (refl, refl)
]

after_send-registers :
    (e : Option SendError) (client : Client) (msg : Message)
    → msg.message_type ≡ request
    → (after_send e client msg).3 ≡ none
    → lookup msg.request_id (after_send e client msg).0.open_replies ≡ some client.channels_made
unfolding after_send register
after_send-registers (some failed) client msg t ok = absurd (some-ne-none failed ok)
after_send-registers none client msg t ok =
    rw
      (
        t,
        lookup-insert msg.request_id msg.request_id client.channels_made client.open_replies,
        ==_refl msg.request_id,
      )
      refl

send-registers :
    (j : Json) (client : Client) (msg : Message)
    → msg.message_type ≡ request
    → (send j client msg).3 ≡ none
    → lookup ((client.next_request_id + 1) % two_64) (send j client msg).0.open_replies
      ≡ some client.channels_made
unfolding send send_on_wire
send-registers j client msg t ok =
    let id = (client.next_request_id + 1) % two_64 in
    let (type, number) = conn_send-keep j client.conn (set_request_id msg id) in
    let sent = send_on_wire j client msg in
    subst (λ n. lookup n (send j client msg).0.open_replies ≡ some client.channels_made) number
      (after_send-registers sent.2 sent.0 sent.1 (type ∙ t) ok)

-- A request that a client has sent with no error, then any messages that are not replies with its
-- number, then a reply with its number: the reply is delivered on the channel that `Send` made for
-- the request, and nothing else is; the same reply a second time changes nothing.
pub dispatch-send :
    (j : Json) (client : Client) (msg : Message) (others : List Message) (rep : Message)
    → msg.message_type ≡ request
    → (send j client msg).3 ≡ none
    → All (λ m. ¬ IsReply ((client.next_request_id + 1) % two_64) m) others
    → IsReply ((client.next_request_id + 1) % two_64) rep
    → ((dispatch (dispatch_all others (send j client msg).0) rep).delivered
        ≡ (dispatch_all others (send j client msg).0).delivered ++ (client.channels_made, rep) ∷ [])
      × (dispatch (dispatch (dispatch_all others (send j client msg).0) rep) rep
          ≡ dispatch (dispatch_all others (send j client msg).0) rep)
dispatch-send j client msg others rep t ok other is =
    let id = (client.next_request_id + 1) % two_64 in
    let waiting = dispatch_all others (send j client msg).0 in
    let found : lookup id waiting.open_replies ≡ some client.channels_made =
      dispatch_all-keep id (send j client msg).0 others other ∙ send-registers j client msg t ok in
    let once = dispatch-reply id client.channels_made waiting rep is found in
    let gone : lookup id (delete id waiting.open_replies) ≡ none =
      rw (lookup-delete id id waiting.open_replies, ==_refl id) refl in
    (
      ap (λ (c : Client). c.delivered) once,
      dispatch-unexpected id (dispatch waiting rep) rep is
          (ap (λ (c : Client). lookup id c.open_replies) once ∙ gone),
    )

after_send-early :
    (e : Option SendError) (client : Client) (msg rep : Message) (id : ℕ)
    → e ≡ none
    → msg.message_type ≡ request
    → msg.request_id ≡ id
    → IsReply id rep
    → lookup id client.open_replies ≡ none
    → ((after_send e (dispatch client rep) msg).0.delivered ≡ client.delivered)
      × ((after_send e (dispatch client rep) msg).2 ≡ some client.channels_made)
      × (lookup id (after_send e (dispatch client rep) msg).0.open_replies
          ≡ some client.channels_made)
      × ((dispatch (after_send e client msg).0 rep).delivered
          ≡ client.delivered ++ (client.channels_made, rep) ∷ [])
unfolding after_send register
after_send-early (some failed) client msg rep id ok t number is missing =
    absurd (some-ne-none failed ok)
after_send-early none client msg rep id ok t number is missing =
    let dropped = dispatch-unexpected id client rep is missing in
    let registered = (register msg.message_type client msg).0 in
    let open_now : lookup id registered.open_replies ≡ some client.channels_made =
      rw
        (
          t,
          lookup-insert msg.request_id id client.channels_made client.open_replies,
          number,
          ==_refl id,
        )
        refl in
    (
      rw (dropped, t) refl,
      rw (dropped, t) refl,
      ap (λ (c : Client). lookup id (register msg.message_type c msg).0.open_replies) dropped
          ∙ open_now,
      ap (λ (c : Client). c.delivered)
            (dispatch-reply id client.channels_made registered rep is open_now)
          ∙ rw t refl,
    )

-- The number that a client gives next is not open, and a request has gone out under it with no
-- error. When the reply with that number comes in before `Send` has registered the channel,
-- nothing is delivered, and `Send` still returns a new channel, which stays open. When it comes in
-- after `Send` has registered the channel, it is delivered on that channel.
pub register-dispatch :
    (j : Json) (client : Client) (msg rep : Message)
    → msg.message_type ≡ request
    → (send_on_wire j client msg).2 ≡ none
    → IsReply ((client.next_request_id + 1) % two_64) rep
    → lookup ((client.next_request_id + 1) % two_64) client.open_replies ≡ none
    → let (client', msg', e) = send_on_wire j client msg in
      ((after_send e (dispatch client' rep) msg').0.delivered ≡ client.delivered)
      × ((after_send e (dispatch client' rep) msg').2 ≡ some client.channels_made)
      × (lookup
            ((client.next_request_id + 1) % two_64)
            (after_send e (dispatch client' rep) msg').0.open_replies
          ≡ some client.channels_made)
      × ((dispatch (after_send e client' msg').0 rep).delivered
          ≡ client.delivered ++ (client.channels_made, rep) ∷ [])
unfolding send_on_wire
register-dispatch j client msg rep t ok is missing =
    let id = (client.next_request_id + 1) % two_64 in
    let (type, number) = conn_send-keep j client.conn (set_request_id msg id) in
    let sent = send_on_wire j client msg in
    after_send-early sent.2 sent.0 sent.1 rep id ok (type ∙ t) number is missing
