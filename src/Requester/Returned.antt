-- ===== src/Requester/Returned.antt =====
-- scamp/requester.go, scamp/servicecache.go and scamp/client.go: a request from the search for its proxies
-- to the response that it returns.
use scamp_go.Base.{ℕ, ◌+◌, ◌%◌, ◌≡◌, refl, ap, ◌∙◌, List, ◌∷◌, none, some, nat_eq, All, Bytes}
use scamp_go.Base.Decimal.{two_64}
use scamp_go.Base.Dict.{lookup, insert}
use scamp_go.Base.Result.{ok}
use scamp_go.Header.{Json, request}
use scamp_go.Message.{Message, set_action, set_version}
use scamp_go.Client.{Client, send, dispatch}
use scamp_go.Client.Numbering.{IsNumbered}
use scamp_go.Client.Replies.{IsReply, dispatch_all}
use scamp_go.Proxy.{Proxy}
use scamp_go.Pool.{Pool}
use scamp_go.Cache.{ServiceCache, search_by_action}
use scamp_go.Requester.{
  Choice, msg_type, got_clients, in_order, send_request, begin_request, respond, make_json_request,
}
use scamp_go.Requester.Sent.{send_request-first}
use scamp_go.Requester.Answered.{arrivals_on, AreMade, await_on-send}

-- The message of a request.
abbrev pub asked : Message → Bytes → ℕ → Message
asked msg action version = set_version (set_action msg action) version

-- The next number of a client.
abbrev pub next_id : Client → ℕ
next_id client = (client.next_request_id + 1) % two_64

module _ (j : Json) (choice : Choice) where
  begin_request-found :
      (cache : ServiceCache) (pool : Pool) (sector action : Bytes) (version : ℕ) (msg : Message)
      (type : Bytes) (proxies : List Proxy)
      → msg_type msg.envelope ≡ ok type
      → search_by_action cache sector action version type ≡ ok proxies
      → begin_request j choice cache pool sector action version msg
        ≡ send_request j choice (ok proxies) pool msg action version
  unfolding begin_request
  begin_request-found cache pool sector action version msg type proxies typed found =
      rw (begin_request, typed, found) refl

  -- `MakeJSONRequest` of a request whose envelope has a type: the cache finds proxies, `GetClient`
  -- is called of each of them, and the first client in the order of the shuffle and the sort is in
  -- the store then, its open replies have numbers and channels that it has given out, it has
  -- delivered on channels of its own only, and it sends the message with no error. On that client
  -- any messages then come in that are not replies with the request's number, and then a reply
  -- with it. When what has been delivered on the channels is what comes to the wait,
  -- `MakeJSONRequest` returns that reply, and leaves the proxies and clients as `GetClient` has
  -- left them, but for the client that has sent.
  pub make_json_request-returns :
      (cache : ServiceCache) (pool : Pool) (sector action : Bytes) (version : ℕ) (msg : Message)
      (type : Bytes) (proxy : Proxy) (proxies : List Proxy) (id : ℕ) (behind : List ℕ)
      (client : Client) (others : List Message) (rep : Message)
      → msg_type msg.envelope ≡ ok type
      → search_by_action cache sector action version type ≡ ok (proxy ∷ proxies)
      → (let got = got_clients j choice pool (proxy ∷ proxies) in
          in_order j choice got.0.store got.1 ≡ id ∷ behind)
      → lookup id (got_clients j choice pool (proxy ∷ proxies)).0.store ≡ some client
      → msg.message_type ≡ request
      → (send j client (asked msg action version)).3 ≡ none
      → IsNumbered client
      → AreMade client
      → All (λ m. ¬ IsReply (next_id client) m) others
      → IsReply (next_id client) rep
      → (let got = got_clients j choice pool (proxy ∷ proxies) in
          make_json_request j choice cache pool sector action version msg (
            arrivals_on
              (dispatch
                (dispatch_all others (send j client (asked msg action version)).0)
                rep).delivered)
          ≡ (
            record (got.0) {
              store = insert id (send j client (asked msg action version)).0 got.0.store;
            },
            some (ok rep),
          ))
  unfolding make_json_request
  make_json_request-returns cache pool sector action version msg type proxy proxies id behind client
        others rep typed found order known is_request sends given made other is =
      let got = got_clients j choice pool (proxy ∷ proxies) in
      let sending = send j client (asked msg action version) in
      let arrivals = arrivals_on (dispatch (dispatch_all others (sending.0)) rep).delivered in
      ap (respond arrivals) (
        begin_request-found cache pool sector action version msg type (proxy ∷ proxies) typed found
        ∙ send_request-first j choice proxy proxies pool msg action version id behind client order
            known sends)
      ∙ ap (λ r. (record (got.0) { store = insert id (sending.0) got.0.store }, r))
          (await_on-send j client (asked msg action version) others rep is_request sends given made
            other is)
