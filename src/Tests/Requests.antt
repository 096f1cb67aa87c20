-- ===== src/Tests/Requests.antt =====
-- A configuration, requests, retries and a refresher at concrete inputs.
use scamp_go.Base.{
  Option, ap, sym, subst, bytes_Eq, ℕ, ◌≡◌, ◌≤◌, refl, false, [], ◌∷◌, List, none, some, codes, All,
  arith, nat_eq, if◌then◌else◌, leb, Bool-cases, inl, inr,
}
use scamp_go.Base.Dict.{lookup, insert}
use scamp_go.Base.Result.{ok, err}
use scamp_go.Message.{Message, to_packets, set_action, set_version}
use scamp_go.Client.{send, dispatch, after_send, send_on_wire, conn_send}
use scamp_go.Connection as Conn
use scamp_go.Packet.{write_packet, write_frame, header_line, bytes_of_type, body_bytes}
use scamp_go.Header.{write_header}
use scamp_go.Base.Decimal.{format_uint, format_int}
use scamp_go.Client.Replies.{dispatch_all}
use mathlib.Core.List.{Memᴰ}
use mathlib.Core.List.Memᴰ.{head, tail}
use scamp_go.Client.{Client}
use scamp_go.Pool.{Pool, get_client, set_sp_ident}
use scamp_go.Requester.{Choice, LastError, get_clients, got_clients, in_order, send_request, depth}
use scamp_go.Requester.Returned.{make_json_request-returns}
use scamp_go.Cache.{ServiceCache, clear, munged_name}
use scamp_go.Cache.Search.{store_all, search_by_action-store_all}
use scamp_go.Requester.{make_json_request}
use scamp_go.Requester.Sent.{IsSortedBy, Orders, send_request-least}
use scamp_go.Requester.Answered.{arrivals_on}
use scamp_go.Cache.{new_service_cache, retrieve, or_not_found, searched_name, search_by_action}
use scamp_go.Cache.Search.{offering}
use scamp_go.Cache.Refinement.{stores, removes, change_all, log_all, new_log, change_all-log_all}
use scamp_go.Refresher.{CacheRefresher, new_cache_refresher, run}
use scamp_go.Refresher.Running.{here, next, runs, IsSound, Reach-IsSound}
use scamp_go.Tests.Codec.{codec}
use scamp_go.Tests.Arrays.{arrays}
use scamp_go.Tests.Tickets.{crypto}
use scamp_go.Tests.Discovery.{certificates}
use scamp_go.Tests.Connections.{sample}
use scamp_go.Tests.Clients.{client, reply_to, client-IsNumbered, three-ne-five}
use scamp_go.Tests.Caches.{cache, proxy}

change_all-log_all_example :
    (retrieve
        (change_all (new_service_cache (codes "/c")) (stores proxy ∷ removes proxy ∷ []))
        (codes "srv:1")
      ≡ (log_all new_log (stores proxy ∷ removes proxy ∷ [])).known (codes "srv:1"))
    × (search_by_action
          (change_all (new_service_cache (codes "/c")) (stores proxy ∷ removes proxy ∷ []))
          (codes "main")
          (codes "Auth.login")
          1
          (codes "json")
        ≡ or_not_found
            (offering
              (searched_name (codes "main") (codes "Auth.login") 1 (codes "json"))
              (log_all new_log (stores proxy ∷ removes proxy ∷ [])).stored)
            (searched_name (codes "main") (codes "Auth.login") 1 (codes "json")))
change_all-log_all_example =
    change_all-log_all (codes "/c") (stores proxy ∷ removes proxy ∷ []) (codes "srv:1")
      (codes "main") (codes "Auth.login") 1 (codes "json")

abbrev looping : CacheRefresher
looping = new_cache_refresher cache none false

Reach-IsSound_example : IsSound codec arrays crypto certificates false ((run looping).0, 1)
unfolding run new_cache_refresher
Reach-IsSound_example =
    Reach-IsSound codec arrays crypto certificates cache none false (next here (runs looping 0))

-- An insertion sort, for the order of the clients.
abbrev insert_by : (ℕ → ℕ) → ℕ → List ℕ → List ℕ
insert_by f x [] = x ∷ []
insert_by f x (y ∷ ys) = if leb (f x) (f y) then x ∷ y ∷ ys else y ∷ insert_by f x ys

abbrev sort_by : (ℕ → ℕ) → List ℕ → List ℕ
sort_by f [] = []
sort_by f (x ∷ xs) = insert_by f x (sort_by f xs)

raise : (f : ℕ → ℕ) (a b : ℕ) (ys : List ℕ) → a ≤ b → All (λ y. b ≤ f y) ys → All (λ y. a ≤ f y) ys
raise f a b [] le h = tt
raise f a b (y ∷ ys) le (h, hs) = (omega arith, raise f a b ys le hs)

insert_by-All :
    (f : ℕ → ℕ) (a x : ℕ) (ys : List ℕ)
    → a ≤ f x
    → All (λ y. a ≤ f y) ys
    → All (λ y. a ≤ f y) (insert_by f x ys)
insert_by-All f a x [] le h = (le, tt)
insert_by-All f a x (y ∷ ys) le (h, hs) = elim (Bool-cases (leb (f x) (f y))) [
  | inl first ↦ rw first (le, (h, hs))
  | inr later ↦ rw later (h, insert_by-All f a x ys le hs)
]

insert_by-IsSortedBy :
    (f : ℕ → ℕ) (x : ℕ) (ys : List ℕ) → IsSortedBy f ys → IsSortedBy f (insert_by f x ys)
insert_by-IsSortedBy f x [] h = (tt, tt)
insert_by-IsSortedBy f x (y ∷ ys) (h, hs) = elim (Bool-cases (leb (f x) (f y))) [
  | inl first ↦
      let le : f x ≤ f y = ground arith in rw first ((le, raise f (f x) (f y) ys le h), (h, hs))
  | inr later ↦
      let le : f y ≤ f x = ground arith in
      rw later (insert_by-All f (f y) x ys le h, insert_by-IsSortedBy f x ys hs)
]

insert_by_keeps :
    (f : ℕ → ℕ) (x id : ℕ) (ys : List ℕ) → Memᴰ id (x ∷ ys) → Memᴰ id (insert_by f x ys)
insert_by_keeps f x id [] m = m
insert_by_keeps f x id (y ∷ ys) m = elim (Bool-cases (leb (f x) (f y))) [
  | inl first ↦ rw first m
  | inr later ↦ rw later (behind (insert_by_keeps f x id ys) m)
]
  where
    behind :
        (Memᴰ id (x ∷ ys) → Memᴰ id (insert_by f x ys))
        → Memᴰ id (x ∷ y ∷ ys)
        → Memᴰ id (y ∷ insert_by f x ys)
    behind again (head e) = tail (again (head e))
    behind again (tail (head e)) = head e
    behind again (tail (tail m)) = tail (again (tail m))

sort_by_keeps : (f : ℕ → ℕ) (ids : List ℕ) (id : ℕ) → Memᴰ id ids → Memᴰ id (sort_by f ids)
sort_by_keeps f [] id m = elim m [ ]
sort_by_keeps f (x ∷ ids) id (head e) = insert_by_keeps f x id (sort_by f ids) (head e)
sort_by_keeps f (x ∷ ids) id (tail m) =
    insert_by_keeps f x id (sort_by f ids) (tail (sort_by_keeps f ids id m))

sort_by-IsSortedBy : (f : ℕ → ℕ) (ids : List ℕ) → IsSortedBy f (sort_by f ids)
sort_by-IsSortedBy f [] = tt
sort_by-IsSortedBy f (x ∷ ids) = insert_by-IsSortedBy f x (sort_by f ids) (sort_by-IsSortedBy f ids)

-- The proxy has number 5, and no connection is to be had.
abbrev choice : Choice
choice = record {
  number = λ p. 5;
  network = record { url_host = λ s. err []; dial_connection = λ host. err [] };
  shuffle = λ ids. ids;
  sort_slice = sort_by;
}

choice-Orders : Orders choice
choice-Orders = record {
  shuffle_keeps = λ ids id m. m;
  sort_keeps = sort_by_keeps;
  sorts = sort_by-IsSortedBy;
}

-- The proxy holds the client 9, which bears another identity yet.
abbrev pool : Pool
pool = record { store = (9, client) ∷ []; made = 10; held = (5, 9) ∷ []; current = [] }

abbrev named : Client
named = set_sp_ident client (codes "srv:1")

abbrev left : Pool
left = record pool { store = (9, named) ∷ [] }

gets : got_clients codec choice pool (proxy ∷ []) ≡ (left, 9 ∷ [], none)
unfolding get_clients get_client lookup insert
gets = refl

abbrev asking : Message
asking = set_version (set_action sample (codes "Auth.login")) 1

stored : lookup 9 (got_clients codec choice pool (proxy ∷ [])).0.store ≡ some named
unfolding lookup
stored = ap (λ (g : Pool × List ℕ × Option LastError). lookup 9 g.0.store) gets

ordered :
    in_order codec choice
      (got_clients codec choice pool (proxy ∷ [])).0.store
      (got_clients codec choice pool (proxy ∷ [])).1
    ≡ 9 ∷ []
ordered = ap (λ (g : Pool × List ℕ × Option LastError). in_order codec choice g.0.store g.1) gets

asks : (send codec named asking).3 ≡ none
unfolding send after_send send_on_wire conn_send Conn.send Conn.send_packets Conn.write_retrying
    write_packet write_frame header_line bytes_of_type body_bytes format_uint format_int
    write_header to_packets
asks = refl

send_request-least_example :
    let got = got_clients codec choice pool (proxy ∷ []) in
    (depth got.0.store 9 ≤ depth got.0.store 9)
    × (send_request codec choice (ok (proxy ∷ [])) pool sample (codes "Auth.login") 1 ≡ (
      record (got.0) { store = insert 9 (send codec named asking).0 got.0.store },
      (send codec named asking).1,
      ok (record {
        client_id = 9;
        message = (send codec named asking).1;
        channel = (send codec named asking).2;
      }),
    ))
send_request-least_example =
    send_request-least codec choice proxy [] pool sample (codes "Auth.login") 1 9 [] named 9
      choice-Orders ordered stored asks
      (subst (λ (g : Pool × List ℕ × Option LastError). Memᴰ 9 g.1) (sym gets) (head refl))

abbrev known_proxies : ServiceCache
known_proxies = store_all (clear cache) (proxy ∷ [])

finds :
    search_by_action known_proxies (codes "main") (codes "Auth.login") 1 (codes "json")
    ≡ ok (proxy ∷ [])
unfolding munged_name format_int format_uint
finds =
    search_by_action-store_all cache (proxy ∷ []) (codes "main") (codes "Auth.login") 1
      (codes "json")

make_json_request-returns_example :
    let got = got_clients codec choice pool (proxy ∷ []) in
    make_json_request codec choice known_proxies pool (codes "main") (codes "Auth.login") 1 sample (
      arrivals_on
        (dispatch
          (dispatch_all (reply_to 3 ∷ []) (send codec named asking).0)
          (reply_to 5)).delivered)
    ≡ (
      record (got.0) { store = insert 9 (send codec named asking).0 got.0.store },
      some (ok (reply_to 5)),
    )
make_json_request-returns_example =
    make_json_request-returns codec choice known_proxies pool (codes "main") (codes "Auth.login") 1
      sample (codes "json") proxy [] 9 [] named (reply_to 3 ∷ []) (reply_to 5) refl finds ordered
      stored refl asks client-IsNumbered tt ((λ is. absurd (three-ne-five is.1)), tt) (refl, refl)
