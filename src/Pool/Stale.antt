-- ===== src/Pool/Stale.antt =====
-- scamp/client.go and scamp/serviceproxy.go: which proxy drops its client when a client is closed.
use scamp_go.Base.{
  ℕ, ◌≡◌, ◌≢◌, refl, ap, ◌∙◌, false, ◌∷◌, none, some, if◌then◌else◌, Bytes, bytes_Eq, nat_eq, ◌==◌,
  ==_refl, arith, Bool-cases, inl, inr,
}
use scamp_go.Base.Dict.{lookup, insert, delete, lookup-insert, lookup-delete}
use scamp_go.Client.{Client, close, released}
use scamp_go.Pool.{Pool, drop_at, release, close_known, close_client}

proxy_released-close :
    (client : Client) → (close client).1.proxy_released ≡ released client.sp_ident
unfolding close
proxy_released-close client = elim (Bool-cases client.is_closed) [
  | inl closed ↦ simp (close, closed) refl
  | inr open_ ↦ simp (close, open_) refl
]

-- The pool after a client with an identity of the cache has been closed.
close_client-drops :
    (pool : Pool) (id at : ℕ) (client : Client) (b : ℕ) (ident : Bytes)
    → lookup id pool.store ≡ some client
    → client.sp_ident ≡ b ∷ ident
    → lookup (b ∷ ident) pool.current ≡ some at
    → close_client pool id
      ≡ record pool { store = insert id (close client).0 pool.store; held = delete at pool.held }
unfolding close_client
close_client-drops pool id at client b ident known named current =
    let closed = record pool { store = insert id (close client).0 pool.store } in
    ap (λ o. close_known o pool id) known
    ∙ ap (λ r. release r closed) (proxy_released-close client ∙ ap released named)
    ∙ ap (λ o. drop_at o closed) current

-- `Close` of a client that bears an identity makes the proxy that the cache now has for that
-- identity hold no client, whichever client it held. Every other proxy holds what it held, and of
-- the clients only the one that `Close` is called of changes, by `Close`.
pub close_client-held :
    (pool : Pool) (id at other : ℕ) (client : Client) (b : ℕ) (ident : Bytes)
    → lookup id pool.store ≡ some client
    → client.sp_ident ≡ b ∷ ident
    → lookup (b ∷ ident) pool.current ≡ some at
    → other ≢ at
    → (lookup at (close_client pool id).held ≡ none)
      × (lookup other (close_client pool id).held ≡ lookup other pool.held)
      × ((n : ℕ)
          → lookup n (close_client pool id).store
            ≡ (if id == n then some (close client).0 else lookup n pool.store))
close_client-held pool id at other client b ident known named current ne =
    let dropped = close_client-drops pool id at client b ident known named current in
    let miss : (at == other) ≡ false = ground (arith, ne) in
    (
      ap (λ (p : Pool). lookup at p.held) dropped
          ∙ rw (lookup-delete at at pool.held, ==_refl at) refl,
      ap (λ (p : Pool). lookup other p.held) dropped
          ∙ lookup-delete at other pool.held
          ∙ ap (λ t. if t then none else lookup other pool.held) miss,
      λ n.
          ap (λ (p : Pool). lookup n p.store) dropped
          ∙ lookup-insert id n (close client).0 pool.store,
    )
