-- ===== src/Refresher/Reading.antt =====
-- scamp/refresher.go: what the searches of a refresher that refreshes on calls read.
use scamp_go.Base.{ℕ, ◌≡◌, refl, ap, ◌∙◌, Bool, true, false, Bytes}
use scamp_go.Header.{Json}
use scamp_go.Ticket.{Crypto}
use scamp_go.Proxy.{Arrays}
use scamp_go.Signature.{Certificates}
use scamp_go.Cache as Kept
use scamp_go.Cache.Scan.{CacheFile}
use scamp_go.Refresher.{
  CacheRefresher, is_due, due_if, mark_if, refresh_if, refreshed, mark_refresh, reactive_refresh,
  search_by_action,
}

module _ (j : Json) (a : Arrays) (c : Crypto) (x : Certificates c) where
  reactive_refresh-first :
      (file : CacheFile) (r : CacheRefresher)
      → r.reactive ≡ true
      → r.initial_refresh ≡ false
      → reactive_refresh j a c x file r ≡ mark_refresh j a c x file r
  unfolding reactive_refresh is_due
  reactive_refresh-first file r called unread =
      ap (λ b. refresh_if j a c x b file r) called
      ∙ ap (λ b. mark_if j a c x file (due_if b r.due r)) unread

  reactive_refresh-again :
      (file : CacheFile) (r : CacheRefresher)
      → r.initial_refresh ≡ true
      → r.due ≡ false
      → (b : Bool) → refresh_if j a c x b file r ≡ r
  unfolding is_due
  reactive_refresh-again file r read no_tick false = refl
  reactive_refresh-again file r read no_tick true =
      ap (λ b. mark_if j a c x file (due_if b r.due r)) read
      ∙ ap (λ b. mark_if j a c x file (due_if true b r)) no_tick

  -- A refresher that refreshes on calls, has not read its file and has no tick to take searches
  -- twice: the first search is one of the cache read from the file, and the second, whatever the
  -- file is by then, is one of that same cache.
  pub search_by_action-reactive :
      (r : CacheRefresher) (first second : CacheFile) (sector action sector' action' : Bytes)
      (version version' : ℕ) (envelope envelope' : Bytes)
      → r.reactive ≡ true
      → r.initial_refresh ≡ false
      → r.due ≡ false
      → ((search_by_action j a c x first r sector action version envelope).1
          ≡ Kept.search_by_action (refreshed j a c x r.cache first) sector action version envelope)
        × ((search_by_action j a c x second
              (search_by_action j a c x first r sector action version envelope).0
              sector'
              action'
              version'
              envelope').1
            ≡ Kept.search_by_action
                (refreshed j a c x r.cache first)
                sector'
                action'
                version'
                envelope')
  unfolding search_by_action mark_refresh reactive_refresh
  search_by_action-reactive r first second sector action sector' action' version version' envelope
        envelope' called unread no_tick =
      let once = reactive_refresh-first first r called unread in
      let marked = mark_refresh j a c x first r in
      (
        ap (λ (r : CacheRefresher). Kept.search_by_action r.cache sector action version envelope)
            once,
        ap (λ r. (search_by_action j a c x second r sector' action' version' envelope').1) once
            ∙ ap
                (λ (r : CacheRefresher).
                  Kept.search_by_action r.cache sector' action' version' envelope')
                (reactive_refresh-again second marked refl no_tick r.reactive),
      )
