-- ===== src/Tests/Pools.antt =====
-- Clients that proxies hold, at concrete inputs.
use scamp_go.Base.{
  nat_eq, bytes_Eq, ℕ, ◌≡◌, ◌≢◌, refl, [], ◌∷◌, none, some, codes, arith, ◌==◌, if◌then◌else◌,
}
use scamp_go.Base.Result.{ok, err}
use scamp_go.Base.Dict.{lookup, insert, delete}
use scamp_go.Client.{Client, close, new_client}
use scamp_go.Pool.{Pool, Network, get_client, close_client, set_sp_ident, renew}
use scamp_go.Pool as Pool
use scamp_go.Pool.Held.{IsReady, get_client_again}
use scamp_go.Pool.Stale.{close_client-held}
use scamp_go.Tests.Connections.{fresh}
use scamp_go.Tests.Caches.{proxy}

abbrev network : Network
network = record { url_host = λ s. ok s; dial_connection = λ host. ok fresh }

abbrev no_network : Network
no_network = record { url_host = λ s. err []; dial_connection = λ host. err [] }

abbrev no_clients : Pool
no_clients = record { store = []; made = 0; held = []; current = (codes "srv:1", 5) ∷ [] }

abbrev named : Client
named = set_sp_ident (new_client fresh) (codes "srv:1")

abbrev one_client : Pool
one_client = record no_clients { store = (0, named) ∷ []; made = 1; held = (5, 0) ∷ [] }

first_call : get_client network no_clients 5 proxy ≡ (one_client, ok 0)
unfolding get_client lookup insert
first_call = refl

get_client_again_example :
    IsReady 5 proxy one_client 0 × (get_client no_network one_client 5 proxy ≡ (one_client, ok 0))
get_client_again_example =
    get_client_again network no_network no_clients one_client 5 0 proxy first_call

-- The proxy 5 holds the client 0; the cache then has the proxy 6, which holds the client 1.
abbrev renewed : Pool
renewed = record {
  store = (0, named) ∷ (1, named) ∷ [];
  made = 2;
  held = (5, 0) ∷ (6, 1) ∷ [];
  current = (codes "srv:1", 6) ∷ [];
}

-- That comes of a refresh and a second call.
second_call : get_client network (renew one_client (codes "srv:1") 6) 6 proxy ≡ (renewed, ok 1)
unfolding get_client renew lookup insert delete
second_call = refl

five-ne-six : ◌≢◌ {A = ℕ} 5 6
five-ne-six e = omega arith

close_client-held_example :
    (lookup 6 (Pool.close_client renewed 0).held ≡ none)
    × (lookup 5 (Pool.close_client renewed 0).held ≡ lookup 5 renewed.held)
    × ((n : ℕ)
        → lookup n (Pool.close_client renewed 0).store
          ≡ (if 0 == n then some (close named).0 else lookup n renewed.store))
unfolding lookup
close_client-held_example =
    close_client-held renewed 0 6 5 named b's' (codes "rv:1") refl refl refl five-ne-six
