-- ===== src/Service/Running.antt =====
-- scamp/service.go: `Run`, `Stop` and the listener.
-- What comes to `Run` is a list of events: a connection is accepted, a handler takes its client off, and
-- the listener is closed, after which nothing is accepted. A client is known by a number.
-- A round of the loop is one step here, since its two parts change different fields; Service/Clients has
-- them apart.
-- `Run` sends on the service's stats channel when it ends; whether somebody receives there is an argument.
pub mod Ended
use scamp_go.Base.{
  ℕ, Bool, true, false, List, [], ◌∷◌, ◌++◌, map, Option, none, some, if◌then◌else◌, Bytes,
}
use scamp_go.Config.{Config}
use scamp_go.Service.{Service, accept_client, remove_client}
use scamp_go.Service.Files.{
  FileSystem, Refuses, FileError, create_running_service_file, remove_running_service_file,
}

pub data RunEvent : Type 0 where
  accepted removed : ℕ → RunEvent
  accept_failed : RunEvent

-- The loop of `Run`, with the handlers' calls of `RemoveClient` in between: the service, and whether the
-- loop has ended.
unfoldable pub accept_loop : List RunEvent → Service → Service × Bool
accept_loop [] serv = (serv, false)
accept_loop (accepted id ∷ es) serv = accept_loop es (accept_client serv id)
accept_loop (removed id ∷ es) serv = accept_loop es (remove_client serv id).0
accept_loop (accept_failed ∷ es) serv = (serv, true)

-- Where `Run` is: in its loop, at the send on the stats channel, or returned. Behind the loop, the clients
-- that it has closed.
pub data Running : Type 0 where
  accepting : Service → FileSystem → Running
  sending returned : Service → FileSystem → List ℕ → Running

module _ (refuses : Refuses) where
  -- `Run` behind its loop: it waits at the send until somebody receives.
  abbrev pub shut_down : Bool → Config → Service → FileSystem → Running
  shut_down false conf serv fs = sending serv fs serv.clients
  shut_down true conf serv fs =
      returned serv (remove_running_service_file refuses conf serv fs).0 serv.clients

  abbrev pub behind_loop : Bool → Config → FileSystem → Service × Bool → Running
  behind_loop receives conf fs (serv, false) = accepting serv fs
  behind_loop receives conf fs (serv, true) = shut_down receives conf serv fs

  -- `Run`.
  unfoldable pub run : Bool → Config → FileSystem → List RunEvent → Service → Running
  run receives conf fs events serv =
      behind_loop receives conf (create_running_service_file refuses conf serv fs).0
        (accept_loop events serv)
