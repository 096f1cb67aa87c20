-- ===== src/Requester/Sent.antt =====
-- scamp/requester.go: which client a request goes out on, and how long it waits.
use mathlib.Core.List.{Memᴰ}
use mathlib.Core.List.Memᴰ.{head, tail}
use scamp_go.Base.{
  ℕ, zero, suc, ◌≤◌, ◌≡◌, refl, sym, ap, subst, ◌∙◌, List, [], ◌∷◌, ◌++◌, Option, none, some,
  if◌then◌else◌, ltb, All, nat_eq, arith, Bytes,
}
use scamp_go.Base.Dict.{lookup, insert}
use scamp_go.Base.Result.{Result, ok, err}
use scamp_go.Header.{Json}
use scamp_go.Message.{Message, set_action, set_version}
use scamp_go.Client.{Client}
use scamp_go.Client as Sender
use scamp_go.Proxy.{Proxy}
use scamp_go.Pool.{Pool}
use scamp_go.Requester.{
  Store, LastError, Arrival, received, received_nil, channel_closed, expired, RequestError,
  no_response, timed_out, await_response, send_first, max_retries, depth, Choice, got_clients,
  in_pool, in_order, send_request,
}

-- The numbers are in order of what the function gives them.
abbrev pub IsSortedBy : (ℕ → ℕ) → List ℕ → Type 0
IsSortedBy f [] = Unit {0}
IsSortedBy f (x ∷ xs) = All (λ y. f x ≤ f y) xs × IsSortedBy f xs

-- What `rand.Shuffle` and `sort.Slice` promise: no number is lost, and the second sorts.
pub record Orders (choice : Choice) : Type 0 where
  pub shuffle_keeps : (ids : List ℕ) (id : ℕ) → Memᴰ id ids → Memᴰ id (choice.shuffle ids)
  pub sort_keeps :
      (f : ℕ → ℕ) (ids : List ℕ) (id : ℕ) → Memᴰ id ids → Memᴰ id (choice.sort_slice f ids)
  pub sorts : (f : ℕ → ℕ) (ids : List ℕ) → IsSortedBy f (choice.sort_slice f ids)

All_at : (P : ℕ → Type 0) (ids : List ℕ) (id : ℕ) → All P ids → Memᴰ id ids → P id
All_at P [] id h m = elim m [ ]
All_at P (x ∷ ids) id (h, hs) (head e) = subst P (sym e) h
All_at P (x ∷ ids) id (h, hs) (tail m) = All_at P ids id hs m

module _ (j : Json) (choice : Choice) where
  send_first-head :
      (id : ℕ) (ids : List ℕ) (store : Store) (msg : Message) (last : Option LastError)
      (client : Client)
      → lookup id store ≡ some client
      → (Sender.send j client msg).3 ≡ none
      → send_first j (id ∷ ids) store msg last ≡ (
        insert id (Sender.send j client msg).0 store,
        (Sender.send j client msg).1,
        ok (record {
          client_id = id;
          message = (Sender.send j client msg).1;
          channel = (Sender.send j client msg).2;
        }),
      )
  unfolding send_first
  send_first-head id ids store msg last client found sends = rw (send_first, found, sends) refl

  -- The first client in the order gets the message, when it can send it.
  pub send_request-first :
      (proxy : Proxy) (proxies : List Proxy) (pool : Pool) (msg : Message) (action : Bytes)
      (version id : ℕ) (behind : List ℕ) (client : Client)
      → (let got = got_clients j choice pool (proxy ∷ proxies) in
          in_order j choice got.0.store got.1 ≡ id ∷ behind)
      → lookup id (got_clients j choice pool (proxy ∷ proxies)).0.store ≡ some client
      → (Sender.send j client (set_version (set_action msg action) version)).3 ≡ none
      → (let got = got_clients j choice pool (proxy ∷ proxies) in
          send_request j choice (ok (proxy ∷ proxies)) pool msg action version ≡ (
            let sent = Sender.send j client (set_version (set_action msg action) version) in
            (
              record (got.0) { store = insert id (sent.0) got.0.store },
              sent.1,
              ok (record { client_id = id; message = sent.1; channel = sent.2 }),
            )))
  unfolding send_request
  send_request-first proxy proxies pool msg action version id behind client order found sends =
      let got = got_clients j choice pool (proxy ∷ proxies) in
      ap
        (λ ids.
          in_pool (got.0)
            (send_first j ids got.0.store (set_version (set_action msg action) version) got.2))
        order
      ∙ ap (in_pool (got.0)) (
          send_first-head id behind got.0.store (set_version (set_action msg action) version) got.2
            client found sends)

  -- The search has found proxies, and `GetClient` is called of each. The shuffle and the sort lose
  -- none of the clients, and the sort orders them by their open replies. The first client in that
  -- order is in the store, and it sends the message, with its action and version set, with no
  -- error. Then it has no more open replies than any client that `GetClient` has returned; the
  -- request goes out on it alone, the result is that client, the message and the reply channel,
  -- and the proxies and the other clients are as `GetClient` has left them.
  pub send_request-least :
      (proxy : Proxy) (proxies : List Proxy) (pool : Pool) (msg : Message) (action : Bytes)
      (version id : ℕ) (behind : List ℕ) (client : Client) (other : ℕ)
      → Orders choice
      → (let got = got_clients j choice pool (proxy ∷ proxies) in
          in_order j choice got.0.store got.1 ≡ id ∷ behind)
      → lookup id (got_clients j choice pool (proxy ∷ proxies)).0.store ≡ some client
      → (Sender.send j client (set_version (set_action msg action) version)).3 ≡ none
      → Memᴰ other (got_clients j choice pool (proxy ∷ proxies)).1
      → (let got = got_clients j choice pool (proxy ∷ proxies) in
          (depth got.0.store id ≤ depth got.0.store other)
          × (send_request j choice (ok (proxy ∷ proxies)) pool msg action version ≡ (
              let sent = Sender.send j client (set_version (set_action msg action) version) in
              (
                record (got.0) { store = insert id (sent.0) got.0.store },
                sent.1,
                ok (record { client_id = id; message = sent.1; channel = sent.2 }),
              ))))
  send_request-least proxy proxies pool msg action version id behind client other orders order found
        sends is_got =
      let got = got_clients j choice pool (proxy ∷ proxies) in
      let at = depth got.0.store in
      let ids = choice.shuffle got.1 in
      let sorted : IsSortedBy at (id ∷ behind) =
        subst (IsSortedBy at) order (orders.sorts at ids) in
      let there : Memᴰ other (id ∷ behind) =
        subst (Memᴰ other) order
          (orders.sort_keeps at ids other (orders.shuffle_keeps (got.1) other is_got)) in
      (
        All_at (λ y. at id ≤ at y) (id ∷ behind) other (omega arith, sorted.0) there,
        send_request-first proxy proxies pool msg action version id behind client order found sends,
      )

-- Some nil messages.
abbrev pub nils : ℕ → List Arrival
nils zero = []
nils (suc n) = received_nil ∷ nils n

-- What an arrival that is no nil message ends the wait with.
abbrev pub outcome : Arrival → Option (Result RequestError Message)
outcome (received msg) = some (ok msg)
outcome received_nil = none
outcome channel_closed = some (err no_response)
outcome expired = some (err timed_out)

await_within :
    (attempts n : ℕ) (a : Arrival) (rest : List Arrival) (r : Result RequestError Message)
    → outcome a ≡ some r
    → await_response attempts (nils n ++ a ∷ rest)
      ≡ (if ltb n attempts then some r else some (err no_response))
unfolding await_response
await_within zero n a rest r h = ground arith
await_within (suc k) zero (received msg) rest r h = h ∙ ground arith
await_within (suc k) zero received_nil rest r h = absurd (cc)
await_within (suc k) zero channel_closed rest r h = h ∙ ground arith
await_within (suc k) zero expired rest r h = h ∙ ground arith
await_within (suc k) (suc n) a rest r h = await_within k n a rest r h ∙ ground arith

-- Behind n nil messages comes an arrival that ends the wait with a result: the wait of a request
-- ends with that result when n is below 20, and with the error that there is no response
-- otherwise.
pub await_response-nils :
    (n : ℕ) (a : Arrival) (rest : List Arrival) (r : Result RequestError Message)
    → outcome a ≡ some r
    → await_response max_retries (nils n ++ a ∷ rest)
      ≡ (if ltb n 20 then some r else some (err no_response))
await_response-nils n a rest r h = await_within max_retries n a rest r h
