-- ===== src/Cache/Search.antt =====
-- scamp/servicecache.go: what a search finds after proxies have been stored and removed.
use scamp_go.Base.{
  ℕ, ◌≡◌, refl, ap, sym, ◌∙◌, List, [], ◌∷◌, ◌++◌, map, Option, none, some, Bool-cases, inl, inr,
  if◌then◌else◌, Bytes, bytes_eq, bytes_Eq, bytes_eq_iff, append_assoc, append-nil,
}
use scamp_go.Base.Dict.{lookup, insert, lookup-insert}
use scamp_go.Proxy.{ProxyAction, ProxyClass, Proxy}
use scamp_go.Cache.{
  ServiceCache, munged_name, append_entry, store_protocols, store_actions, store_classes, store,
  clear, entries, or_not_found, searched_name, search_by_action,
}

-- The names that a proxy is stored under, in the order of the loops.
abbrev pub protocol_names : Proxy → Bytes → ProxyAction → List Bytes → List Bytes
protocol_names proxy class action protocols = map (munged_name proxy.sector class action) protocols

abbrev pub action_names : Proxy → Bytes → List ProxyAction → List Bytes
action_names proxy class [] = []
action_names proxy class (action ∷ actions) =
    protocol_names proxy class action proxy.protocols ++ action_names proxy class actions

abbrev pub class_names : Proxy → List ProxyClass → List Bytes
class_names proxy [] = []
class_names proxy (class ∷ classes) =
    action_names proxy class.class_name class.actions ++ class_names proxy classes

-- The proxy, once for each of the names that is the one searched for.
abbrev pub copies : Bytes → Proxy → List Bytes → List Proxy
copies name proxy [] = []
copies name proxy (n ∷ names) =
    if bytes_eq n name then proxy ∷ copies name proxy names else copies name proxy names

-- The proxies that offer a name, in the order in which they were stored.
abbrev pub offering : Bytes → List Proxy → List Proxy
offering name [] = []
offering name (proxy ∷ proxies) =
    copies name proxy (class_names proxy proxy.classes) ++ offering name proxies

abbrev pub store_all : ServiceCache → List Proxy → ServiceCache
store_all cache [] = cache
store_all cache (proxy ∷ proxies) = store_all (store cache proxy) proxies

unfoldable append_all : Proxy → List Bytes → List (Bytes × List Proxy) → List (Bytes × List Proxy)
append_all proxy [] index = index
append_all proxy (name ∷ names) index = append_all proxy names (append_entry name proxy index)

abbrev entries_of : Option (List Proxy) → List Proxy
entries_of o = elim o [ none ↦ [] | some proxies ↦ proxies ]

append_entry-insert :
    (n : Bytes) (proxy : Proxy) (index : List (Bytes × List Proxy))
    → append_entry n proxy index ≡ insert n (entries n index ++ proxy ∷ []) index
unfolding append_entry
append_entry-insert n proxy index = grown (lookup n index)
  where
    grown :
        (o : Option (List Proxy))
        → elim o [
          | none ↦ insert n (proxy ∷ []) index
          | some proxies ↦ insert n (proxies ++ proxy ∷ []) index
        ]
          ≡ insert n (entries_of o ++ proxy ∷ []) index
    grown none = refl
    grown (some proxies) = refl

entries-append_entry :
    (name n : Bytes) (proxy : Proxy) (index : List (Bytes × List Proxy))
    → entries name (append_entry n proxy index)
      ≡ (if bytes_eq n name then entries name index ++ proxy ∷ [] else entries name index)
entries-append_entry name n proxy index =
    ap (entries name) (append_entry-insert n proxy index)
    ∙ ap entries_of (lookup-insert n name (entries n index ++ proxy ∷ []) index)
    ∙ elim (Bool-cases (bytes_eq n name)) [
      | inl hit ↦ rw (hit, (bytes_eq_iff n name).0 hit) refl
      | inr miss ↦ rw (miss) refl
    ]

copies-append :
    (name : Bytes) (proxy : Proxy) (xs ys : List Bytes)
    → copies name proxy (xs ++ ys) ≡ copies name proxy xs ++ copies name proxy ys
copies-append name proxy [] ys = refl
copies-append name proxy (x ∷ xs) ys = elim (Bool-cases (bytes_eq x name)) [
  | inl hit ↦ rw (hit, copies-append name proxy xs ys) refl
  | inr miss ↦ rw (miss, copies-append name proxy xs ys) refl
]

entries-append_all :
    (name : Bytes) (proxy : Proxy) (names : List Bytes) (index : List (Bytes × List Proxy))
    → entries name (append_all proxy names index) ≡ entries name index ++ copies name proxy names
unfolding append_all
entries-append_all name proxy [] index = sym (append-nil (entries name index))
entries-append_all name proxy (n ∷ names) index =
    entries-append_all name proxy names (append_entry n proxy index)
    ∙ ap (λ e. e ++ copies name proxy names) (entries-append_entry name n proxy index)
    ∙ elim (Bool-cases (bytes_eq n name)) [
      | inl hit ↦ rw (hit, append_assoc) refl
      | inr miss ↦ rw (miss) refl
    ]

append_all-append :
    (proxy : Proxy) (xs ys : List Bytes) (index : List (Bytes × List Proxy))
    → append_all proxy (xs ++ ys) index ≡ append_all proxy ys (append_all proxy xs index)
unfolding append_all
append_all-append proxy [] ys index = refl
append_all-append proxy (x ∷ xs) ys index =
    append_all-append proxy xs ys (append_entry x proxy index)

store_protocols-append_all :
    (proxy : Proxy) (class : Bytes) (action : ProxyAction) (protocols : List Bytes)
    (index : List (Bytes × List Proxy))
    → store_protocols proxy class action protocols index
      ≡ append_all proxy (protocol_names proxy class action protocols) index
unfolding append_all store_protocols
store_protocols-append_all proxy class action [] index = refl
store_protocols-append_all proxy class action (p ∷ ps) index =
    store_protocols-append_all proxy class action ps _

store_actions-append_all :
    (proxy : Proxy) (class : Bytes) (actions : List ProxyAction) (index : List (Bytes × List Proxy))
    → store_actions proxy class actions index
      ≡ append_all proxy (action_names proxy class actions) index
unfolding append_all store_actions
store_actions-append_all proxy class [] index = refl
store_actions-append_all proxy class (a ∷ as_) index =
    store_actions-append_all proxy class as_ _
    ∙ ap (append_all proxy (action_names proxy class as_))
        (store_protocols-append_all proxy class a proxy.protocols index)
    ∙ sym (
        append_all-append proxy (protocol_names proxy class a proxy.protocols)
          (action_names proxy class as_) index)

store_classes-append_all :
    (proxy : Proxy) (classes : List ProxyClass) (index : List (Bytes × List Proxy))
    → store_classes proxy classes index ≡ append_all proxy (class_names proxy classes) index
unfolding append_all store_classes
store_classes-append_all proxy [] index = refl
store_classes-append_all proxy (c ∷ cs) index =
    store_classes-append_all proxy cs _
    ∙ ap (append_all proxy (class_names proxy cs))
        (store_actions-append_all proxy c.class_name c.actions index)
    ∙ sym (
        append_all-append proxy (action_names proxy c.class_name c.actions) (class_names proxy cs)
          index)

pub entries-store_all :
    (name : Bytes) (cache : ServiceCache) (proxies : List Proxy)
    → entries name (store_all cache proxies).action_index
      ≡ entries name cache.action_index ++ offering name proxies
unfolding store
entries-store_all name cache [] = sym (append-nil _)
entries-store_all name cache (proxy ∷ proxies) =
    entries-store_all name (store cache proxy) proxies
    ∙ ap (λ e. e ++ offering name proxies)
        (ap (entries name) (store_classes-append_all proxy proxy.classes cache.action_index)
          ∙ entries-append_all name proxy (class_names proxy proxy.classes) cache.action_index)
    ∙ append_assoc (entries name cache.action_index)
        (copies name proxy (class_names proxy proxy.classes)) (offering name proxies)

-- After a cache has been cleared and proxies have been stored, a search gives the proxies that
-- offer the action's name, in the order in which they were stored and as often as they offer it,
-- or the error when there are none.
pub search_by_action-store_all :
    (cache : ServiceCache) (proxies : List Proxy) (sector action : Bytes) (version : ℕ)
    (envelope : Bytes)
    → search_by_action (store_all (clear cache) proxies) sector action version envelope
      ≡ or_not_found
          (offering (searched_name sector action version envelope) proxies)
          (searched_name sector action version envelope)
unfolding search_by_action lookup
search_by_action-store_all cache proxies sector action version envelope =
    ap (λ e. or_not_found e (searched_name sector action version envelope))
      (entries-store_all (searched_name sector action version envelope) (clear cache) proxies)
