-- ===== src/Requester/Answered.antt =====
-- scamp/requester.go and scamp/client.go: the reply to a request is what the request returns.
use scamp_go.Base.{
  false, ℕ, suc, ◌+◌, ◌%◌, ◌<◌, ◌≤◌, subst, ◌≡◌, ◌≢◌, refl, ap, sym, ◌∙◌, List, [], ◌∷◌, ◌++◌,
  Option, none, some, ◌==◌, if◌then◌else◌, All, nat_eq, arith, ==_refl, Bool-cases, inl, inr,
}
use scamp_go.Base.Decimal.{two_64}
use scamp_go.Base.Dict.{lookup, insert, delete, lookup-insert, lookup-delete, lookup-All}
use scamp_go.Base.Result.{ok}
use scamp_go.Header.{Json, MessageType, request, reply, unknown_type}
use scamp_go.Message.{Message, set_request_id}
use scamp_go.Connection.{SendError}
use scamp_go.Client.{
  Client, send, send_on_wire, after_send, register, dispatch, dispatch_as, dispatch_reply,
}
use scamp_go.Client.Numbering.{IsNumbered}
use scamp_go.Client.Replies.{IsReply, conn_send-keep, dispatch_all, dispatch-send}
use scamp_go.Requester.{Arrival, received, await_on, await_response}

-- The messages that were delivered on a channel, as what comes to the wait.
abbrev pub arrivals_on : List (ℕ × Message) → ℕ → List Arrival
arrivals_on [] channel = []
arrivals_on ((ch, msg) ∷ delivered) channel =
    let rest = arrivals_on delivered channel in if ch == channel then received msg ∷ rest else rest

-- The channels that a client has delivered on are ones that it has made.
abbrev pub AreMade : Client → Type 0
AreMade client = All (λ d. d.0 < client.channels_made) client.delivered

-- A channel is no other number's, and nothing has been delivered on it.
record IsPrivate (id channel : ℕ) (client : Client) : Type 0 where
  only : (k ch : ℕ) → lookup k client.open_replies ≡ some ch → k ≢ id → ch ≢ channel
  unused : arrivals_on client.delivered channel ≡ []

arrivals_on-append :
    (xs : List (ℕ × Message)) (ch channel : ℕ) (msg : Message)
    → arrivals_on (xs ++ (ch, msg) ∷ []) channel
      ≡ arrivals_on xs channel ++ (if ch == channel then received msg ∷ [] else [])
arrivals_on-append [] ch channel msg = refl
arrivals_on-append ((c, m) ∷ xs) ch channel msg = elim (Bool-cases (c == channel)) [
  | inl hit ↦ rw (hit, arrivals_on-append xs ch channel msg) refl
  | inr miss ↦ rw (miss, arrivals_on-append xs ch channel msg) refl
]

arrivals_on-below :
    (xs : List (ℕ × Message)) (n channel : ℕ)
    → All (λ d. d.0 < n) xs
    → n < suc channel
    → arrivals_on xs channel ≡ []
arrivals_on-below [] n channel h le = refl
arrivals_on-below ((c, m) ∷ xs) n channel (h, hs) le =
    ground (arith, arrivals_on-below xs n channel hs le)

lookup_of_delete :
    (r k ch : ℕ) (m : List (ℕ × ℕ)) → lookup k (delete r m) ≡ some ch → lookup k m ≡ some ch
lookup_of_delete r k ch m f = elim (Bool-cases (r == k)) [
  | inl hit ↦ absurd (ground (arith, lookup-delete r k m))
  | inr miss ↦ ground (arith, lookup-delete r k m)
]

dispatch_reply-IsPrivate :
    (id channel : ℕ) (client : Client) (msg : Message) (found : Option ℕ)
    → found ≡ lookup msg.request_id client.open_replies
    → msg.request_id ≢ id
    → IsPrivate id channel client
    → IsPrivate id channel (dispatch_reply found client msg)
unfolding dispatch_reply
dispatch_reply-IsPrivate id channel client msg none e ne h = h
dispatch_reply-IsPrivate id channel client msg (some ch) e ne h =
    let other : (ch == channel) ≡ false = ground (arith, h.only msg.request_id ch (sym e) ne) in
    record {
      only = λ k c f n. h.only k c (lookup_of_delete msg.request_id k c client.open_replies f) n;
      unused = rw (arrivals_on-append client.delivered ch channel msg, h.unused, other) refl;
    }

dispatch_as-IsPrivate :
    (t : MessageType) (id channel : ℕ) (client : Client) (msg : Message)
    → (t ≡ reply → msg.request_id ≢ id)
    → IsPrivate id channel client
    → IsPrivate id channel (dispatch_as t client msg)
unfolding dispatch_as
dispatch_as-IsPrivate request id channel client msg ne h = record {
  only = h.only;
  unused = h.unused;
}
dispatch_as-IsPrivate reply id channel client msg ne h =
    dispatch_reply-IsPrivate id channel client msg (lookup msg.request_id client.open_replies) refl
      (ne refl) h
dispatch_as-IsPrivate (unknown_type n) id channel client msg ne h = h

dispatch_all-IsPrivate :
    (id channel : ℕ) (client : Client) (msgs : List Message)
    → All (λ m. ¬ IsReply id m) msgs
    → IsPrivate id channel client
    → IsPrivate id channel (dispatch_all msgs client)
unfolding dispatch_all dispatch
dispatch_all-IsPrivate id channel client [] others h = h
dispatch_all-IsPrivate id channel client (msg ∷ msgs) (other, others) h =
    dispatch_all-IsPrivate id channel (dispatch client msg) msgs others
      (dispatch_as-IsPrivate msg.message_type id channel client msg (λ t e. other (t, e)) h)

lookup_of_insert :
    (r k v ch : ℕ) (m : List (ℕ × ℕ))
    → lookup k (insert r v m) ≡ some ch
    → k ≢ r
    → lookup k m ≡ some ch
lookup_of_insert r k v ch m f ne = elim (Bool-cases (r == k)) [
  | inl hit ↦ absurd (ground arith)
  | inr miss ↦ ground (arith, lookup-insert r k v m)
]

channels_of_IsNumbered :
    (n c : ℕ) (m : List (ℕ × ℕ)) → All (λ x. (x.0 ≤ n) × (x.1 < c)) m → All (λ x. x.1 < c) m
channels_of_IsNumbered n c [] h = tt
channels_of_IsNumbered n c (x ∷ m) (h, hs) = (h.1, channels_of_IsNumbered n c m hs)

await_on-reply :
    (id channel : ℕ) (delivered : List (ℕ × Message)) (client : Client) (rep : Message)
    → IsPrivate id channel client
    → delivered ≡ client.delivered ++ (channel, rep) ∷ []
    → await_on (some channel) (arrivals_on delivered) ≡ some (ok rep)
unfolding await_response
await_on-reply id channel delivered client rep h e =
    let only : arrivals_on delivered channel ≡ received rep ∷ [] =
      ap (λ d. arrivals_on d channel) e
      ∙ arrivals_on-append client.delivered channel channel rep
      ∙ rw (h.unused, ==_refl channel) refl in
    ap (await_response 20) only

-- The channel of a request that has been sent.
after_send-IsPrivate :
    (e : Option SendError) (client : Client) (msg : Message)
    → msg.message_type ≡ request
    → (after_send e client msg).3 ≡ none
    → All (λ x. x.1 < client.channels_made) client.open_replies
    → AreMade client
    → IsPrivate msg.request_id client.channels_made (after_send e client msg).0
      × ((after_send e client msg).2 ≡ some client.channels_made)
unfolding after_send register
after_send-IsPrivate (some failed) client msg t sent given made = absurd cc
after_send-IsPrivate none client msg t sent given made = rw t (
  record {
    only = λ k c f n.
        let old =
          lookup-All (λ x. x.1 < client.channels_made) k client.open_replies given
            (lookup_of_insert msg.request_id k client.channels_made c client.open_replies f n) in
        omega (arith, old);
    unused =
        arrivals_on-below client.delivered client.channels_made client.channels_made made
          (omega arith);
  },
  refl,
)

send-IsPrivate :
    (j : Json) (client : Client) (msg : Message)
    → msg.message_type ≡ request
    → (send j client msg).3 ≡ none
    → IsNumbered client
    → AreMade client
    → IsPrivate ((client.next_request_id + 1) % two_64) client.channels_made (send j client msg).0
      × ((send j client msg).2 ≡ some client.channels_made)
unfolding send send_on_wire
send-IsPrivate j client msg t sent given made =
    let id = (client.next_request_id + 1) % two_64 in
    let (type, number) = conn_send-keep j client.conn (set_request_id msg id) in
    let wire = send_on_wire j client msg in
    let after =
      after_send-IsPrivate wire.2 wire.0 wire.1 (type ∙ t) sent
        (channels_of_IsNumbered client.next_request_id client.channels_made client.open_replies
          given)
        made in
    (subst (λ n. IsPrivate n client.channels_made (send j client msg).0) number after.0, after.1)

-- A client whose open replies have numbers and channels that it has given out, and which has
-- delivered on channels of its own only, sends a request with no error. Then any messages come in
-- that are not replies with the request's number, and then a reply with it. The wait for the
-- request's response, on the channel that `Send` returned and over what has been delivered there,
-- ends with that reply.
pub await_on-send :
    (j : Json) (client : Client) (msg : Message) (others : List Message) (rep : Message)
    → msg.message_type ≡ request
    → (send j client msg).3 ≡ none
    → IsNumbered client
    → AreMade client
    → All (λ m. ¬ IsReply ((client.next_request_id + 1) % two_64) m) others
    → IsReply ((client.next_request_id + 1) % two_64) rep
    → await_on
        (send j client msg).2
        (arrivals_on (dispatch (dispatch_all others (send j client msg).0) rep).delivered)
      ≡ some (ok rep)
await_on-send j client msg others rep t sent given made other is =
    let id = (client.next_request_id + 1) % two_64 in
    let private = send-IsPrivate j client msg t sent given made in
    let waiting =
      dispatch_all-IsPrivate id client.channels_made (send j client msg).0 others other
        (private.0) in
    ap
      (λ channel.
        await_on channel
          (arrivals_on (dispatch (dispatch_all others (send j client msg).0) rep).delivered))
      (private.1)
    ∙ await_on-reply id client.channels_made
        (dispatch (dispatch_all others (send j client msg).0) rep).delivered
        (dispatch_all others (send j client msg).0) rep waiting
        (dispatch-send j client msg others rep t sent other is).0
