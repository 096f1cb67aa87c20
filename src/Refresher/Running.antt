-- ===== src/Refresher/Running.antt =====
-- scamp/refresher.go: the goroutines of a refresher, over any order of its steps.
use scamp_go.Base.{
  ℕ, suc, ◌≤◌, ◌≡◌, refl, sym, true-ne-false, ==_iff, ◌∙◌, Bool, true, false, Option, some,
  if◌then◌else◌, ◌==◌, arith,
}
use scamp_go.Header.{Json}
use scamp_go.Ticket.{Crypto}
use scamp_go.Proxy.{Arrays}
use scamp_go.Signature.{Certificates}
use scamp_go.Cache.{ServiceCache}
use scamp_go.Cache.Scan.{CacheFile}
use scamp_go.Refresher.{
  CacheRefresher, cancelled, new_cache_refresher, started, due_if, mark_if, refresh_if, run, leave,
  begin_stop, end_stop, is_due, mark_refresh, take_tick, reactive_refresh,
}

module _ (j : Json) (a : Arrays) (c : Crypto) (x : Certificates c) where
  -- A refresher with its goroutines, counted, and the steps of these and of its callers: a call, the
  -- ticker, a goroutine's beginning, a tick that it takes, and its end when it finds its context cancelled.
  pub data Step : CacheRefresher × ℕ → CacheRefresher × ℕ → Type 0 where
    runs : (r : CacheRefresher) (n : ℕ) → Step (r, n) ((run r).0, if (run r).1 then suc n else n)
    calls :
        (file : CacheFile) (r : CacheRefresher) (n : ℕ)
        → Step (r, n) (reactive_refresh j a c x file r, n)
    ticks : (r : CacheRefresher) (n : ℕ) → Step (r, n) (record r { due = true }, n)
    begins :
        (file : CacheFile) (r : CacheRefresher) (n : ℕ)
        → Step (r, suc n) (mark_refresh j a c x file r, suc n)
    takes :
        (file : CacheFile) (r : CacheRefresher) (n : ℕ)
        → r.due ≡ true
        → Step (r, suc n) (take_tick j a c x file r, suc n)
    leaves :
        (r : CacheRefresher) (n : ℕ) → r.context ≡ some cancelled → Step (r, suc n) (leave r, n)
    stop_begins : (r : CacheRefresher) (n : ℕ) → Step (r, n) (begin_stop r, n)
    stop_ends : (r : CacheRefresher) (n : ℕ) → r.running ≡ 0 → Step (r, n) (end_stop r, n)

  pub data Reach (start : CacheRefresher) : CacheRefresher × ℕ → Type 0 where
    here : Reach start (start, 0)
    next : {s t : CacheRefresher × ℕ} → Reach start s → Step s t → Reach start t

  -- The count is that of the goroutines, of which there is one at most, and none when the calls refresh.
  pub record IsSound (reactive : Bool) (s : CacheRefresher × ℕ) : Type 0 where
    pub counted : s.0.running ≡ s.1
    pub at_most_one : s.1 ≤ 1
    pub kept : s.0.reactive ≡ reactive
    pub none_reactive : reactive ≡ true → s.1 ≡ 0

  started-IsSound :
      (reactive called idle : Bool) (r : CacheRefresher) (n : ℕ)
      → reactive ≡ called
      → (r.running == 0) ≡ idle
      → IsSound reactive (r, n)
      → IsSound reactive ((started called idle r).0, if (started called idle r).1 then suc n else n)
  started-IsSound reactive true idle r n e i h = h
  started-IsSound reactive false false r n e i h = h
  started-IsSound reactive false true r n e i h =
      let empty : n ≡ 0 = sym h.counted ∙ (==_iff r.running 0).0 i in
      record {
        counted = omega (arith, empty);
        at_most_one = omega (arith, empty);
        kept = h.kept;
        none_reactive = λ yes. absurd (true-ne-false (sym yes ∙ e));
      }

  -- What the steps of a goroutine and of the callers leave.
  same-IsSound :
      {reactive : Bool} {n : ℕ} (r s : CacheRefresher)
      → s.running ≡ r.running
      → s.reactive ≡ r.reactive
      → IsSound reactive (r, n)
      → IsSound reactive (s, n)
  same-IsSound r s running also h = record {
    counted = running ∙ h.counted;
    at_most_one = h.at_most_one;
    kept = also ∙ h.kept;
    none_reactive = h.none_reactive;
  }

  mark_if-IsSound :
      (fresh tick : Bool) (file : CacheFile) {reactive : Bool} {n : ℕ} (r : CacheRefresher)
      → IsSound reactive (r, n)
      → IsSound reactive (mark_if j a c x file (due_if fresh tick r), n)
  unfolding mark_refresh
  mark_if-IsSound false tick file r h = same-IsSound r _ refl refl h
  mark_if-IsSound true true file r h = same-IsSound r _ refl refl h
  mark_if-IsSound true false file r h = h

  calls-IsSound :
      (b : Bool) (file : CacheFile) {reactive : Bool} {n : ℕ} (r : CacheRefresher)
      → IsSound reactive (r, n)
      → IsSound reactive (refresh_if j a c x b file r, n)
  unfolding is_due
  calls-IsSound false file r h = h
  calls-IsSound true file r h = mark_if-IsSound r.initial_refresh r.due file r h

  Step-IsSound :
      {s t : CacheRefresher × ℕ} (reactive : Bool)
      → Step s t
      → IsSound reactive s
      → IsSound reactive t
  unfolding run reactive_refresh mark_refresh take_tick leave begin_stop end_stop
  Step-IsSound reactive (runs r n) h =
      started-IsSound reactive r.reactive (r.running == 0) r n (sym h.kept) refl h
  Step-IsSound reactive (calls file r n) h = calls-IsSound r.reactive file r h
  Step-IsSound reactive (ticks r n) h = same-IsSound r _ refl refl h
  Step-IsSound reactive (begins file r n) h = same-IsSound r _ refl refl h
  Step-IsSound reactive (takes file r n due) h = same-IsSound r _ refl refl h
  Step-IsSound reactive (leaves r n stopped) h = record {
    counted = omega (arith, h.counted);
    at_most_one = omega (arith, h.at_most_one);
    kept = h.kept;
    none_reactive = λ e. omega (arith, h.none_reactive e);
  }
  Step-IsSound reactive (stop_begins r n) h = same-IsSound r _ refl refl h
  Step-IsSound reactive (stop_ends r n idle) h = same-IsSound r _ refl refl h

  -- From a new refresher, by calls of `Run`, `Stop` and the cache's calls, ticks, and the steps of
  -- the goroutines, in any order: `running` is the number of goroutines, which is 0 or 1, and is 0
  -- when the calls refresh the cache themselves.
  pub Reach-IsSound :
      (cache : ServiceCache) (wait_duration : Option ℕ) (reactive : Bool) {s : CacheRefresher × ℕ}
      → Reach (new_cache_refresher cache wait_duration reactive) s
      → IsSound reactive s
  unfolding new_cache_refresher
  Reach-IsSound cache wait_duration reactive here = record {
    counted = refl;
    at_most_one = omega arith;
    kept = refl;
    none_reactive = λ e. refl;
  }
  Reach-IsSound cache wait_duration reactive (next r st) =
      Step-IsSound reactive st (Reach-IsSound cache wait_duration reactive r)
