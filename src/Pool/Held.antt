-- ===== src/Pool/Held.antt =====
-- scamp/serviceproxy.go: what `GetClient` returns, and what it returns the next time.
use scamp_go.Base.{
  ℕ, suc, ◌≡◌, refl, ap, sym, subst, ◌∙◌, Bool, true, false, Option, none, some, Bytes, nat_eq,
  some_eq,
}
use scamp_go.Base.Dict.{lookup, insert, lookup-insert_self, insert_same}
use scamp_go.Base.Result.{Result, ok, err}
use scamp_go.Connection.{Connection}
use scamp_go.Client.{Client, new_client}
use scamp_go.Proxy.{Proxy}
use scamp_go.Pool.{
  Pool, Network, set_sp_ident, usable_if, usable, client_at, hand_out, dialed, reconnect,
  reuse_or_dial, get_client,
}

-- The proxy holds a client that is open and has the proxy's identity.
pub record IsReady (at : ℕ) (sp : Proxy) (pool : Pool) (id : ℕ) : Type 0 where
  pub client : Client
  pub holds : lookup at pool.held ≡ some id
  pub known : lookup id pool.store ≡ some client
  pub is_open : client.is_closed ≡ false
  pub named : client.sp_ident ≡ sp.ident

-- What a call of `GetClient` that returns a client leaves.
abbrev pub Serves : ℕ → Proxy → Pool × Result Bytes ℕ → Type 0
Serves at sp (pool, err e) = Unit {0}
Serves at sp (pool, ok id) = IsReady at sp pool id

hand_out-Serves :
    (at : ℕ) (pool : Pool) (sp : Proxy) (id : ℕ) (client : Client)
    → lookup at pool.held ≡ some id
    → client.is_closed ≡ false
    → Serves at sp (hand_out pool sp id client)
hand_out-Serves at pool sp id client holds is_open = record {
  client = set_sp_ident client sp.ident;
  holds = holds;
  known = lookup-insert_self id (set_sp_ident client sp.ident) pool.store;
  is_open = is_open;
  named = refl;
}

dialed-Serves :
    (r : Result Bytes Connection) (pool : Pool) (at : ℕ) (sp : Proxy)
    → Serves at sp (dialed r pool at sp)
dialed-Serves (err e) pool at sp = tt
dialed-Serves (ok conn) pool at sp =
    hand_out-Serves at (record pool { made = suc pool.made; held = insert at pool.made pool.held })
      sp pool.made (new_client conn) (lookup-insert_self at pool.made pool.held) refl

reconnect-Serves :
    (net : Network) (r : Result Bytes Bytes) (pool : Pool) (at : ℕ) (sp : Proxy)
    → Serves at sp (reconnect net r pool at sp)
reconnect-Serves net (err e) pool at sp = tt
reconnect-Serves net (ok host) pool at sp = dialed-Serves (net.dial_connection host) pool at sp

usable_if_open :
    (b : Bool) (found client : Client)
    → found.is_closed ≡ b
    → usable_if b found ≡ some client
    → client.is_closed ≡ false
usable_if_open true found client h e = cc
usable_if_open false found client h e = subst (λ (c : Client). c.is_closed ≡ false) (some_eq e) h

usable_open :
    (o : Option Client) (client : Client) → usable o ≡ some client → client.is_closed ≡ false
usable_open none client e = cc
usable_open (some found) client e = usable_if_open found.is_closed found client refl e

reuse_or_dial-Serves :
    (net : Network) (held : Option ℕ) (found : Option Client) (pool : Pool) (at : ℕ) (sp : Proxy)
    → lookup at pool.held ≡ held
    → usable (client_at pool.store held) ≡ found
    → Serves at sp (reuse_or_dial net held found pool at sp)
reuse_or_dial-Serves net none found pool at sp h u =
    reconnect-Serves net (net.url_host sp.connspec) pool at sp
reuse_or_dial-Serves net (some id) none pool at sp h u =
    reconnect-Serves net (net.url_host sp.connspec) pool at sp
reuse_or_dial-Serves net (some id) (some client) pool at sp h u =
    hand_out-Serves at pool sp id client h (usable_open (lookup id pool.store) client u)

get_client-Serves :
    (net : Network) (pool : Pool) (at : ℕ) (sp : Proxy) → Serves at sp (get_client net pool at sp)
unfolding get_client
get_client-Serves net pool at sp =
    reuse_or_dial-Serves net (lookup at pool.held)
      (usable (client_at pool.store (lookup at pool.held))) pool at sp refl refl

set_sp_ident_same :
    (client : Client) (ident : Bytes) → client.sp_ident ≡ ident → set_sp_ident client ident ≡ client
set_sp_ident_same client ident e = λ i. record client { sp_ident = sym e i }

get_client_ready :
    (net : Network) (pool : Pool) (at id : ℕ) (sp : Proxy)
    → IsReady at sp pool id
    → get_client net pool at sp ≡ (pool, ok id)
unfolding get_client
get_client_ready net pool at id sp h =
    let found : usable (client_at pool.store (lookup at pool.held)) ≡ some h.client =
      ap (λ o. usable (client_at pool.store o)) h.holds
      ∙ ap usable h.known
      ∙ ap (λ b. usable_if b h.client) h.is_open in
    ap (λ o. reuse_or_dial net o (usable (client_at pool.store (lookup at pool.held))) pool at sp)
      h.holds
    ∙ ap (λ u. reuse_or_dial net (some id) u pool at sp) found
    ∙ ap (λ c. (record pool { store = insert id c pool.store }, ok id))
        (set_sp_ident_same h.client sp.ident h.named)
    ∙ ap (λ s. (record pool { store = s }, ok id)) (insert_same id h.client pool.store h.known)

-- When `GetClient` of a proxy returns a client, that client is open, bears the proxy's identity
-- and is held by the proxy. A second call then returns the same client and changes nothing, even
-- when the network refuses every connection by then.
pub get_client_again :
    (net later : Network) (pool pool' : Pool) (at id : ℕ) (sp : Proxy)
    → get_client net pool at sp ≡ (pool', ok id)
    → IsReady at sp pool' id × (get_client later pool' at sp ≡ (pool', ok id))
get_client_again net later pool pool' at id sp e =
    let ready = subst (Serves at sp) e (get_client-Serves net pool at sp) in
    (ready, get_client_ready later pool' at id sp ready)
