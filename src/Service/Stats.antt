-- ===== src/Service/Stats.antt =====
-- scamp/service_stats.go: `PrintStatsLoop`, which logs the statistics of a service until it is told to stop.
-- What comes to the loop is a list of events; the service is as it is when the time has passed. The JSON of
-- the statistics is given.
use scamp_go.Base.{Bool, true, false, List, [], ◌∷◌, Option, none, some, Bytes}
use scamp_go.Service.{Service, ServiceStats, gather_stats}

pub data StatsEvent : Type 0 where
  timeout_passed : Service → StatsEvent
  close_received : StatsEvent

-- A line in the log: the service's name and the JSON. Statistics that cannot be marshalled are passed over.
abbrev pub logged : Bytes → Option Bytes → List (Bytes × Bytes) → List (Bytes × Bytes)
logged name none lines = lines
logged name (some stats_bytes) lines = (name, stats_bytes) ∷ lines

-- `PrintStatsLoop`: what is logged, and whether the loop has ended.
unfoldable pub print_stats_loop :
    (ServiceStats → Option Bytes) → List StatsEvent → List (Bytes × Bytes) × Bool
print_stats_loop marshal [] = ([], false)
print_stats_loop marshal (close_received ∷ events) = ([], true)
print_stats_loop marshal (timeout_passed serv ∷ events) =
    let rest = print_stats_loop marshal events in
    (logged serv.name (marshal (gather_stats serv)) rest.0, rest.1)
