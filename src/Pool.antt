-- ===== src/Pool.antt =====
-- scamp/serviceproxy.go: `GetClient`, which holds a client for a proxy, with `Dial` of scamp/client.go, and
-- what `Client.Close` does to the proxy that the cache has.
-- Proxies and clients are shared by pointers: both are numbers here. `net/url` and the TLS connection are
-- given. Calls are in sequence: the lock of a proxy is not modelled.
pub mod Held
pub mod Stale
use scamp_go.Base.{
  ℕ, suc, Bool, true, false, List, Option, none, some, if◌then◌else◌, Bytes, bytes_Eq, nat_eq,
}
use scamp_go.Base.Dict.{lookup, insert, delete}
use scamp_go.Base.Result.{Result, ok, err}
use scamp_go.Connection.{Connection}
use scamp_go.Client.{Client, new_client, close}
use scamp_go.Proxy.{Proxy}

-- The clients that have been made, the clients that proxies hold, and the proxies that the cache has for
-- identities.
pub record Pool : Type 0 where
  pub store : List (ℕ × Client)
  pub made : ℕ
  pub held : List (ℕ × ℕ)
  pub current : List (Bytes × ℕ)

-- `url.Parse` as far as the host, and `DialConnection` of a host.
pub record Network : Type 0 where
  pub url_host : Bytes → Result Bytes Bytes
  pub dial_connection : Bytes → Result Bytes Connection

abbrev pub set_sp_ident : Client → Bytes → Client
set_sp_ident client ident = record client { sp_ident = ident }

-- The client that a proxy holds, if it can be used.
abbrev pub usable_if : Bool → Client → Option Client
usable_if true client = none
usable_if false client = some client

abbrev pub usable : Option Client → Option Client
usable none = none
usable (some client) = usable_if client.is_closed client

abbrev pub client_at : List (ℕ × Client) → Option ℕ → Option Client
client_at store none = none
client_at store (some id) = lookup id store

-- The end of `GetClient`: the client has the proxy's identity.
abbrev pub hand_out : Pool → Proxy → ℕ → Client → Pool × Result Bytes ℕ
hand_out pool sp id client =
    (record pool { store = insert id (set_sp_ident client sp.ident) pool.store }, ok id)

-- `Dial`, and the client that the proxy then holds: nil after an error.
abbrev pub dialed : Result Bytes Connection → Pool → ℕ → Proxy → Pool × Result Bytes ℕ
dialed (err e) pool at sp = (record pool { held = delete at pool.held }, err e)
dialed (ok conn) pool at sp =
    hand_out (record pool { made = suc pool.made; held = insert at pool.made pool.held }) sp
      pool.made (new_client conn)

abbrev pub reconnect : Network → Result Bytes Bytes → Pool → ℕ → Proxy → Pool × Result Bytes ℕ
reconnect net (err e) pool at sp = (pool, err e)
reconnect net (ok host) pool at sp = dialed (net.dial_connection host) pool at sp

abbrev pub reuse_or_dial :
    Network → Option ℕ → Option Client → Pool → ℕ → Proxy → Pool × Result Bytes ℕ
reuse_or_dial net (some id) (some client) pool at sp = hand_out pool sp id client
reuse_or_dial net _ _ pool at sp = reconnect net (net.url_host sp.connspec) pool at sp

-- `GetClient` of the proxy with the given number.
unfoldable pub get_client : Network → Pool → ℕ → Proxy → Pool × Result Bytes ℕ
get_client net pool at sp =
    reuse_or_dial net (lookup at pool.held) (usable (client_at pool.store (lookup at pool.held)))
      pool at sp

abbrev pub drop_at : Option ℕ → Pool → Pool
drop_at none pool = pool
drop_at (some at) pool = record pool { held = delete at pool.held }

-- The proxy that the cache has for an identity no longer holds a client.
abbrev pub release : Option Bytes → Pool → Pool
release none pool = pool
release (some ident) pool = drop_at (lookup ident pool.current) pool

-- `Client.Close` of a client in the pool.
abbrev pub close_known : Option Client → Pool → ℕ → Pool
close_known none pool id = pool
close_known (some client) pool id =
    let closed = close client in
    release closed.1.proxy_released (record pool { store = insert id closed.0 pool.store })

unfoldable pub close_client : Pool → ℕ → Pool
close_client pool id = close_known (lookup id pool.store) pool id

-- A refresh of the cache that makes a new proxy for an identity, as `newServiceProxy` does, with no client.
unfoldable pub renew : Pool → Bytes → ℕ → Pool
renew pool ident at = record pool {
  current = insert ident at pool.current;
  held = delete at pool.held;
}
