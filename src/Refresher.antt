-- ===== src/Refresher.antt =====
-- scamp/refresher.go: what keeps a cache up to date: a loop in the background, or the calls themselves.
-- The ticker is a flag, whether there is a tick to take; the context is whether it has been cancelled. What
-- the cache's file is at a refresh is an argument. The read lock excludes nothing, since no call takes the
-- write lock. A scan always ends (Cache/Scan/Ends), so that the cache is left as it is where it would not.
pub mod Running
pub mod Reading
use scamp_go.Base.{
  ℕ, ◌-◌, ◌*◌, ◌^◌, Bool, true, false, List, Option, none, some, ◌==◌, if◌then◌else◌, Bytes,
}
use scamp_go.Base.Result.{Result}
use scamp_go.Header.{Json}
use scamp_go.Ticket.{Crypto}
use scamp_go.Proxy.{Proxy, Arrays}
use scamp_go.Signature.{Certificates}
use scamp_go.Cache.{ServiceCache}
use scamp_go.Cache as Kept
use scamp_go.Cache.Scan.{CacheFile, refresh}

pub data Context : Type 0 where
  active cancelled : Context

pub record CacheRefresher : Type 0 where
  pub cache : ServiceCache
  pub context : Option Context
  pub running : ℕ
  pub due : Bool
  pub initial_refresh : Bool
  pub wait_duration : ℕ
  pub reactive : Bool

-- 5 seconds, in nanoseconds.
abbrev pub default_wait : ℕ
default_wait = 5 * 10 ^ 9

abbrev pub wait_or_default : Option ℕ → ℕ
wait_or_default none = default_wait
wait_or_default (some duration) = duration

-- `NewCacheRefresher`.
unfoldable pub new_cache_refresher : ServiceCache → Option ℕ → Bool → CacheRefresher
new_cache_refresher cache wait_duration reactive = record {
  cache = cache;
  context = none;
  running = 0;
  due = false;
  initial_refresh = false;
  wait_duration = wait_or_default wait_duration;
  reactive = reactive;
}

abbrev pub started : Bool → Bool → CacheRefresher → CacheRefresher × Bool
started true idle refresher = (refresher, false)
started false true refresher = (record refresher { running = 1; context = some active }, true)
started false false refresher = (refresher, false)

-- `Run`, up to its goroutine: whether it has started one.
unfoldable pub run : CacheRefresher → CacheRefresher × Bool
run refresher = started refresher.reactive (refresher.running == 0) refresher

-- The goroutine's end.
unfoldable pub leave : CacheRefresher → CacheRefresher
leave refresher = record refresher { running = refresher.running - 1 }

abbrev pub cancel : Option Context → Option Context
cancel none = none
cancel (some context) = some cancelled

-- `Stop` before it waits, and behind its wait. That its last look at `running` and the resetting of the
-- context are one step is an assumption: in the code a `Run` can come between them.
unfoldable pub begin_stop : CacheRefresher → CacheRefresher
begin_stop refresher = record refresher { context = cancel refresher.context }

unfoldable pub end_stop : CacheRefresher → CacheRefresher
end_stop refresher = record refresher { context = none }

abbrev pub due_if : Bool → Bool → CacheRefresher → CacheRefresher × Bool
due_if false tick refresher = (refresher, true)
due_if true true refresher = (record refresher { due = false }, true)
due_if true false refresher = (refresher, false)

-- `Due`, which takes a tick.
unfoldable pub is_due : CacheRefresher → CacheRefresher × Bool
is_due refresher = due_if refresher.initial_refresh refresher.due refresher

module _ (j : Json) (a : Arrays) (c : Crypto) (x : Certificates c) where
  -- The cache after its `Refresh`, whose error is only logged.
  abbrev pub refreshed : ServiceCache → CacheFile → ServiceCache
  refreshed cache file = elim (refresh j a c x cache file) [
    | none ↦ cache
    | some (cache', e) ↦ cache'
  ]

  -- `markRefresh`, and the goroutine's beginning.
  unfoldable pub mark_refresh : CacheFile → CacheRefresher → CacheRefresher
  mark_refresh file refresher = record refresher {
    cache = refreshed refresher.cache file;
    initial_refresh = true;
  }

  -- A round of the goroutine that takes a tick.
  unfoldable pub take_tick : CacheFile → CacheRefresher → CacheRefresher
  take_tick file refresher = mark_refresh file (record refresher { due = false })

  abbrev pub mark_if : CacheFile → CacheRefresher × Bool → CacheRefresher
  mark_if file (refresher, true) = mark_refresh file refresher
  mark_if file (refresher, false) = refresher

  abbrev pub refresh_if : Bool → CacheFile → CacheRefresher → CacheRefresher
  refresh_if false file refresher = refresher
  refresh_if true file refresher = mark_if file (is_due refresher)

  -- `ReactiveRefresh`.
  unfoldable pub reactive_refresh : CacheFile → CacheRefresher → CacheRefresher
  reactive_refresh file refresher = refresh_if refresher.reactive file refresher

  -- The calls of the cache that come behind a `ReactiveRefresh`.
  unfoldable pub retrieve : CacheFile → CacheRefresher → Bytes → CacheRefresher × Option Proxy
  retrieve file refresher ident =
      let refresher' = reactive_refresh file refresher in
      (refresher', Kept.retrieve refresher'.cache ident)

  unfoldable pub search_by_action :
      CacheFile
      → CacheRefresher
      → Bytes
      → Bytes
      → ℕ
      → Bytes
      → CacheRefresher × Result Bytes (List Proxy)
  search_by_action file refresher sector action version envelope =
      let refresher' = reactive_refresh file refresher in
      (refresher', Kept.search_by_action refresher'.cache sector action version envelope)

  unfoldable pub action_list : CacheFile → CacheRefresher → CacheRefresher × List Bytes
  action_list file refresher =
      let refresher' = reactive_refresh file refresher in
      (refresher', Kept.action_list refresher'.cache)

  unfoldable pub size : CacheFile → CacheRefresher → CacheRefresher × ℕ
  size file refresher =
      let refresher' = reactive_refresh file refresher in (refresher', Kept.size refresher'.cache)

  unfoldable pub all : CacheFile → CacheRefresher → CacheRefresher × List Proxy
  all file refresher =
      let refresher' = reactive_refresh file refresher in (refresher', Kept.all refresher'.cache)

-- The calls that only pass on.
unfoldable pub store : CacheRefresher → Proxy → CacheRefresher
store refresher instance_ = record refresher { cache = Kept.store refresher.cache instance_ }

unfoldable pub disable_record_verification : CacheRefresher → CacheRefresher
disable_record_verification refresher = record refresher {
  cache = Kept.disable_record_verification refresher.cache;
}

unfoldable pub enable_record_verification : CacheRefresher → CacheRefresher
enable_record_verification refresher = record refresher {
  cache = Kept.enable_record_verification refresher.cache;
}
