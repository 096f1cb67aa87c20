-- ===== src/Cache.antt =====
-- scamp/servicecache.go: the cache of service proxies, by identity and by the actions that they offer.
-- `strings.ToLower` is on ASCII letters. Calls are in sequence: the lock is not modelled.
pub mod Search
pub mod Retry
pub mod Refinement
pub mod Scan
use scamp_go.Base.{
  ℕ, ◌+◌, Bool, true, false, ◌&&◌, List, [], ◌∷◌, ◌++◌, map, Option, none, some, leb, if◌then◌else◌,
  Bytes, codes, bytes_Eq, length,
}
use scamp_go.Base.Decimal.{format_int}
use scamp_go.Base.Dict.{lookup, insert, delete}
use scamp_go.Proxy.{ProxyAction, ProxyClass, Proxy}
use scamp_go.Base.Result.{Result, ok, err}

pub record ServiceCache : Type 0 where
  pub path : Bytes
  pub ident_index : List (Bytes × Proxy)
  pub action_index : List (Bytes × List Proxy)
  pub verify_records : Bool

-- `NewServiceCache`, before its `Refresh`.
abbrev pub new_service_cache : Bytes → ServiceCache
new_service_cache path = record {
  path = path;
  ident_index = [];
  action_index = [];
  verify_records = true;
}

abbrev pub disable_record_verification : ServiceCache → ServiceCache
disable_record_verification cache = record cache { verify_records = true }

abbrev pub enable_record_verification : ServiceCache → ServiceCache
enable_record_verification cache = record cache { verify_records = false }

abbrev pub lower : ℕ → ℕ
lower c = if leb b'A' c && leb c b'Z' then c + 32 else c

abbrev pub to_lower : Bytes → Bytes
to_lower s = map lower s

unfoldable pub munged_name : Bytes → Bytes → ProxyAction → Bytes → Bytes
munged_name sector class action protocol = to_lower (
    sector
    ++ codes ":"
    ++ class
    ++ codes "."
    ++ action.action_name
    ++ codes "~"
    ++ format_int action.version
    ++ codes "#"
    ++ protocol)

-- One entry more under a name.
unfoldable pub append_entry : Bytes → Proxy → List (Bytes × List Proxy) → List (Bytes × List Proxy)
append_entry name instance_ index = elim (lookup name index) [
  | none ↦ insert name (instance_ ∷ []) index
  | some proxies ↦ insert name (proxies ++ instance_ ∷ []) index
]

-- The three loops of `storeNoLock`.
unfoldable pub store_protocols :
    Proxy → Bytes → ProxyAction → List Bytes → List (Bytes × List Proxy) → List (Bytes × List Proxy)
store_protocols proxy class action [] index = index
store_protocols proxy class action (protocol ∷ protocols) index =
    store_protocols proxy class action protocols
      (append_entry (munged_name proxy.sector class action protocol) proxy index)

unfoldable pub store_actions :
    Proxy → Bytes → List ProxyAction → List (Bytes × List Proxy) → List (Bytes × List Proxy)
store_actions proxy class [] index = index
store_actions proxy class (action ∷ actions) index =
    store_actions proxy class actions (store_protocols proxy class action proxy.protocols index)

unfoldable pub store_classes :
    Proxy → List ProxyClass → List (Bytes × List Proxy) → List (Bytes × List Proxy)
store_classes proxy [] index = index
store_classes proxy (class ∷ classes) index =
    store_classes proxy classes (store_actions proxy class.class_name class.actions index)

-- `storeNoLock`, and `Store`.
unfoldable pub store : ServiceCache → Proxy → ServiceCache
store cache proxy = record cache {
  ident_index = insert proxy.ident proxy cache.ident_index;
  action_index = store_classes proxy proxy.classes cache.action_index;
}

-- `removeNoLock`: `none` is its error, and leaves the cache as it is.
unfoldable pub remove : ServiceCache → Proxy → ServiceCache × Bool
remove cache proxy = elim (lookup proxy.ident cache.ident_index) [
  | none ↦ (cache, false)
  | some known ↦ (record cache { ident_index = delete proxy.ident cache.ident_index }, true)
]

abbrev pub clear : ServiceCache → ServiceCache
clear cache = record cache { ident_index = []; action_index = [] }

unfoldable pub retrieve : ServiceCache → Bytes → Option Proxy
retrieve cache ident = lookup ident cache.ident_index

-- A missing key reads as no proxies.
abbrev pub entries : Bytes → List (Bytes × List Proxy) → List Proxy
entries name index = elim (lookup name index) [ none ↦ [] | some proxies ↦ proxies ]

abbrev pub or_not_found : List Proxy → Bytes → Result Bytes (List Proxy)
or_not_found [] name = err (codes "no instances found of " ++ name)
or_not_found (p ∷ ps) name = ok (p ∷ ps)

abbrev pub searched_name : Bytes → Bytes → ℕ → Bytes → Bytes
searched_name sector action version envelope =
    to_lower
      (sector ++ codes ":" ++ action ++ codes "~" ++ format_int version ++ codes "#" ++ envelope)

-- `SearchByAction`.
unfoldable pub search_by_action :
    ServiceCache → Bytes → Bytes → ℕ → Bytes → Result Bytes (List Proxy)
search_by_action cache sector action version envelope =
    let name = searched_name sector action version envelope in
    or_not_found (entries name cache.action_index) name

abbrev pub size : ServiceCache → ℕ
size cache = length cache.ident_index

-- `All` and `ActionList`: Go ranges over a map in any order; here in that of the list.
abbrev pub all : ServiceCache → List Proxy
all cache = map (λ e. e.1) cache.ident_index

abbrev pub action_list : ServiceCache → List Bytes
action_list cache = map (λ e. e.0) cache.action_index
