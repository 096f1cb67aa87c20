-- ===== src/Client/Late.antt =====
-- scamp/client.go: the end of a client: a message that comes in after it has been closed, and the end of
-- its loop.
use scamp_go.Base.{
  ℕ, ◌≡◌, refl, ap, ◌∙◌, Bool, true, false, ◌||◌, List, [], ◌∷◌, ◌++◌, map, Option, none, some,
  nat_eq, All, ◌==◌, ==_refl, Bool-cases, inl, inr, arith,
}
use scamp_go.Base.Dict.{lookup}
use scamp_go.Header.{MessageType, request, reply, unknown_type}
use scamp_go.Message.{Message}
use scamp_go.Connection.{Connection}
use scamp_go.Client.{
  Client, dispatch_reply, dispatch_as, dispatch, Round, waits, panics, arrive, close_connection,
  finish, close,
}

dispatch_reply-conn :
    (found : Option ℕ) (client : Client) (msg : Message)
    → (dispatch_reply found client msg).conn ≡ client.conn
unfolding dispatch_reply
dispatch_reply-conn none client msg = refl
dispatch_reply-conn (some channel) client msg = refl

dispatch_as-conn :
    (t : MessageType) (client : Client) (msg : Message)
    → (dispatch_as t client msg).conn ≡ client.conn
unfolding dispatch_as
dispatch_as-conn request client msg = refl
dispatch_as-conn reply client msg =
    dispatch_reply-conn (lookup msg.request_id client.open_replies) client msg
dispatch_as-conn (unknown_type n) client msg = refl

close-conn : (client : Client) → client.is_closed ≡ false → (close client).0.conn ≡ none
unfolding close close_connection
close-conn client opened = rw (opened, close) refl

-- When an open client is closed while its loop waits for a message, and a message comes in: the loop
-- handles it, and then panics on the connection that is nil.
pub arrive-close :
    (client : Client) (msg : Message)
    → client.is_closed ≡ false
    → arrive (close client).0 msg ≡ panics (dispatch (close client).0 msg)
unfolding arrive dispatch
arrive-close client msg opened =
    let closed = dispatch (close client).0 msg in
    ap
      (λ (o : Option Connection). elim o as (λ _. Round) [
        | none ↦ panics closed
        | some conn ↦ waits closed
      ])
      (dispatch_as-conn msg.message_type (close client).0 msg ∙ close-conn client opened)

-- Whether a channel is in a list.
abbrev pub has : ℕ → List ℕ → Bool
has channel [] = false
has channel (c ∷ cs) = c == channel || has channel cs

has-append : (channel : ℕ) (xs ys : List ℕ) → has channel ys ≡ true → has channel (xs ++ ys) ≡ true
has-append channel [] ys h = h
has-append channel (x ∷ xs) ys h = ground (arith, has-append channel xs ys h)

has-keep : (x channel : ℕ) (cs : List ℕ) → has channel cs ≡ true → has channel (x ∷ cs) ≡ true
has-keep x channel cs h = ground (arith, h)

has-weaken :
    (x : ℕ) (cs : List ℕ) (es : List (ℕ × ℕ))
    → All (λ e. has e.1 cs ≡ true) es
    → All (λ e. has e.1 (x ∷ cs) ≡ true) es
has-weaken x cs [] h = tt
has-weaken x cs (e ∷ es) (h, hs) = (has-keep x e.1 cs h, has-weaken x cs es hs)

has-map : (es : List (ℕ × ℕ)) → All (λ e. has e.1 (map (λ e. e.1) es) ≡ true) es
has-map [] = tt
has-map (e ∷ es) = (
  ap (λ b. b || has e.1 (map (λ x. x.1) es)) (==_refl e.1),
  has-weaken e.1 (map (λ x. x.1) es) es (has-map es),
)

has-behind :
    (xs cs : List ℕ) (es : List (ℕ × ℕ))
    → All (λ e. has e.1 cs ≡ true) es
    → All (λ e. has e.1 (xs ++ cs) ≡ true) es
has-behind xs cs [] h = tt
has-behind xs cs (e ∷ es) (h, hs) = (has-append e.1 xs cs h, has-behind xs cs es hs)

-- When the connection's channel has been closed and the loop ends, whether or not the client has been
-- closed before: the requests are closed, the client is closed, and so is the channel of each reply
-- that is open.
pub finish-closed :
    (client : Client)
    → ((finish client).0.requests_closed ≡ true)
      × ((finish client).0.is_closed ≡ true)
      × All (λ e. has e.1 (finish client).0.closed_channels ≡ true) client.open_replies
unfolding finish close close_connection
finish-closed client = elim (Bool-cases client.is_closed) [
  | inl before ↦
      rw (before, finish)
        (
          refl,
          refl,
          has-behind client.closed_channels _ client.open_replies (has-map client.open_replies),
        )
  | inr opened ↦
      rw (opened, finish)
        (
          refl,
          refl,
          has-behind client.closed_channels _ client.open_replies (has-map client.open_replies),
        )
]
