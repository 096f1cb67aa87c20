-- ===== src/Cache/Refinement.antt =====
-- scamp/servicecache.go: what a cache promises, as a log of what has been stored and a view by identity,
-- and that the two indexes keep it.
use scamp_go.Base.{
  ℕ, ◌≡◌, refl, ap, sym, subst, ◌∙◌, List, [], ◌∷◌, ◌++◌, Option, none, some, Option-cases,
  Bool-cases, inl, inr, if◌then◌else◌, Bytes, bytes_eq, bytes_Eq, bytes_eq_iff, append_assoc,
}
use scamp_go.Base.Dict.{lookup, lookup-insert, lookup-delete}
use scamp_go.Proxy.{Proxy}
use scamp_go.Cache.{
  ServiceCache, new_service_cache, store, remove, clear, retrieve, entries, or_not_found,
  searched_name, search_by_action,
}
use scamp_go.Cache.Search.{class_names, copies, offering, entries-store_all}

pub data Change : Type 0 where
  stores removes : Proxy → Change
  clears : Change

abbrev pub change : ServiceCache → Change → ServiceCache
change cache (stores proxy) = store cache proxy
change cache (removes proxy) = (remove cache proxy).0
change cache clears = clear cache

abbrev pub change_all : ServiceCache → List Change → ServiceCache
change_all cache [] = cache
change_all cache (c ∷ cs) = change_all (change cache c) cs

-- The proxies stored since the cache was last cleared, in order, and the proxy of each identity.
pub record Log : Type 0 where
  pub stored : List Proxy
  pub known : Bytes → Option Proxy

abbrev pub new_log : Log
new_log = record { stored = []; known = λ ident. none }

abbrev pub log : Log → Change → Log
log l (stores proxy) = record {
  stored = l.stored ++ proxy ∷ [];
  known = λ ident. if bytes_eq proxy.ident ident then some proxy else l.known ident;
}
log l (removes proxy) = record {
  stored = l.stored;
  known = λ ident. if bytes_eq proxy.ident ident then none else l.known ident;
}
log l clears = new_log

abbrev pub log_all : Log → List Change → Log
log_all l [] = l
log_all l (c ∷ cs) = log_all (log l c) cs

record Implements (cache : ServiceCache) (l : Log) : Type 0 where
  by_ident : (ident : Bytes) → retrieve cache ident ≡ l.known ident
  by_action : (name : Bytes) → entries name cache.action_index ≡ offering name l.stored

offering-append :
    (name : Bytes) (xs ys : List Proxy)
    → offering name (xs ++ ys) ≡ offering name xs ++ offering name ys
offering-append name [] ys = refl
offering-append name (x ∷ xs) ys =
    ap (λ r. copies name x (class_names x x.classes) ++ r) (offering-append name xs ys)
    ∙ sym (
        append_assoc (copies name x (class_names x x.classes)) (offering name xs)
          (offering name ys))

retrieve-store :
    (cache : ServiceCache) (proxy : Proxy) (ident : Bytes)
    → retrieve (store cache proxy) ident
      ≡ (if bytes_eq proxy.ident ident then some proxy else retrieve cache ident)
unfolding retrieve store
retrieve-store cache proxy ident = lookup-insert proxy.ident ident proxy cache.ident_index

retrieve-remove :
    (cache : ServiceCache) (proxy : Proxy) (ident : Bytes)
    → retrieve (remove cache proxy).0 ident
      ≡ (if bytes_eq proxy.ident ident then none else retrieve cache ident)
unfolding retrieve remove
retrieve-remove cache proxy ident = elim (Option-cases (lookup proxy.ident cache.ident_index)) [
  | inl missing ↦ elim (Bool-cases (bytes_eq proxy.ident ident)) [
    | inl hit ↦
        rw (remove, missing, hit)
          (subst (λ i. lookup i cache.ident_index ≡ none) ((bytes_eq_iff proxy.ident ident).0 hit)
            missing)
    | inr miss ↦ rw (remove, missing, miss) refl
  ]
  | inr (known, found) ↦ rw (remove, found, lookup-delete proxy.ident ident cache.ident_index) refl
]

entries-remove :
    (cache : ServiceCache) (proxy : Proxy) (name : Bytes)
    → entries name (remove cache proxy).0.action_index ≡ entries name cache.action_index
unfolding remove
entries-remove cache proxy name = elim (Option-cases (lookup proxy.ident cache.ident_index)) [
  | inl missing ↦ rw (remove, missing) refl
  | inr (known, found) ↦ rw (remove, found) refl
]

change-Implements :
    (cache : ServiceCache) (l : Log) (c : Change)
    → Implements cache l
    → Implements (change cache c) (log l c)
unfolding retrieve lookup
change-Implements cache l (stores proxy) h = record {
  by_ident = λ ident.
      retrieve-store cache proxy ident
      ∙ ap (λ r. if bytes_eq proxy.ident ident then some proxy else r) (h.by_ident ident);
  by_action = λ name.
      entries-store_all name cache (proxy ∷ [])
      ∙ ap (λ e. e ++ offering name (proxy ∷ [])) (h.by_action name)
      ∙ sym (offering-append name l.stored (proxy ∷ []));
}
change-Implements cache l (removes proxy) h = record {
  by_ident = λ ident.
      retrieve-remove cache proxy ident
      ∙ ap (λ r. if bytes_eq proxy.ident ident then none else r) (h.by_ident ident);
  by_action = λ name. entries-remove cache proxy name ∙ h.by_action name;
}
change-Implements cache l clears h = record { by_ident = λ ident. refl; by_action = λ name. refl }

change_all-Implements :
    (cache : ServiceCache) (l : Log) (cs : List Change)
    → Implements cache l
    → Implements (change_all cache cs) (log_all l cs)
change_all-Implements cache l [] h = h
change_all-Implements cache l (c ∷ cs) h =
    change_all-Implements (change cache c) (log l c) cs (change-Implements cache l c h)

-- Whatever sequence of `Store`, removals and clearing a new cache goes through, it answers as a
-- log does: `Retrieve` gives the proxy stored last under the identity unless it has been removed
-- since, and `SearchByAction` gives every proxy stored since the last clearing, as often as it
-- offers the name and in the order of storing, or the error when there is none; a removal does not
-- change what a search gives.
pub change_all-log_all :
    (path : Bytes) (cs : List Change) (ident sector action : Bytes) (version : ℕ) (envelope : Bytes)
    → (retrieve (change_all (new_service_cache path) cs) ident ≡ (log_all new_log cs).known ident)
      × (search_by_action (change_all (new_service_cache path) cs) sector action version envelope
          ≡ or_not_found
              (offering (searched_name sector action version envelope) (log_all new_log cs).stored)
              (searched_name sector action version envelope))
unfolding search_by_action retrieve lookup
change_all-log_all path cs ident sector action version envelope =
    let h =
      change_all-Implements (new_service_cache path) new_log cs
        (record { by_ident = λ ident. refl; by_action = λ name. refl }) in
    let name = searched_name sector action version envelope in
    (h.by_ident ident, ap (λ e. or_not_found e name) (h.by_action name))
