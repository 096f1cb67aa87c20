-- ===== src/Service/Running/Ended.antt =====
-- scamp/service.go: how `Run` ends.
use scamp_go.Base.{
  ℕ, ◌≡◌, refl, ap, ◌∙◌, Bool, true, false, List, [], ◌∷◌, Option, Bool-cases, inl, inr,
}
use scamp_go.Config.{Config}
use scamp_go.Service.{Service, accept_client, remove_client, tracks}
use scamp_go.Service.Files.{FileSystem, FileError, Refuses, running_service_file_path}
use scamp_go.Service.Files.Kept.{CanRun, create_lem, remove_lem}
use scamp_go.Service.Running.{
  RunEvent, accepted, removed, accept_failed, accept_loop, sending, returned, behind_loop, run,
}

-- Clients that come and go.
pub data Visit : Type 0 where
  comes goes : ℕ → Visit

abbrev pub event_of : Visit → RunEvent
event_of (comes id) = accepted id
event_of (goes id) = removed id

abbrev pub visit : Service → Visit → Service
visit serv (comes id) = accept_client serv id
visit serv (goes id) = (remove_client serv id).0

abbrev pub visits : Service → List Visit → Service
visits serv [] = serv
visits serv (v ∷ vs) = visits (visit serv v) vs

-- What the visits make of the loop's events, up to the closing of the listener.
abbrev pub until_closed : List Visit → List RunEvent → List RunEvent
until_closed [] rest = accept_failed ∷ rest
until_closed (v ∷ vs) rest = event_of v ∷ until_closed vs rest

accept_loop-until_closed :
    (serv : Service) (vs : List Visit) (rest : List RunEvent)
    → accept_loop (until_closed vs rest) serv ≡ (visits serv vs, true)
unfolding accept_loop
accept_loop-until_closed serv [] rest = refl
accept_loop-until_closed serv (comes id ∷ vs) rest =
    accept_loop-until_closed (accept_client serv id) vs rest
accept_loop-until_closed serv (goes id ∷ vs) rest =
    accept_loop-until_closed (remove_client serv id).0 vs rest

remove_client-name : (serv : Service) (id : ℕ) → (remove_client serv id).0.name ≡ serv.name
unfolding remove_client
remove_client-name serv id = elim (Bool-cases (tracks id serv.clients)) [
  | inl found ↦ rw (remove_client, found) refl
  | inr unknown ↦ rw (remove_client, unknown) refl
]

visits-name : (serv : Service) (vs : List Visit) → (visits serv vs).name ≡ serv.name
unfolding accept_client
visits-name serv [] = refl
visits-name serv (comes id ∷ vs) = visits-name (accept_client serv id) vs
visits-name serv (goes id ∷ vs) =
    visits-name (remove_client serv id).0 vs ∙ remove_client-name serv id

module _ (refuses : Refuses) (conf : Config) (serv : Service) (fs : FileSystem)
    (h : CanRun refuses conf serv fs) where
  -- The directory of running files is configured, the calls for it and for the service's running
  -- file are not refused, and that file is not there yet. Clients come and go, and then the
  -- listener is closed. With nobody that receives from the stats channel `Run` stays at its send,
  -- with the clients closed and the running file still there. With a receiver it returns, with the
  -- clients closed, and the files are those from before.
  pub run-until_closed :
      (vs : List Visit) (rest : List RunEvent)
      → (made : FileSystem) × (left : FileSystem) × (made.files
          ≡ running_service_file_path serv h.dir ∷ fs.files)
        × (left.files ≡ fs.files)
        × (run refuses false conf fs (until_closed vs rest) serv
            ≡ sending (visits serv vs) made (visits serv vs).clients)
        × (run refuses true conf fs (until_closed vs rest) serv
            ≡ returned (visits serv vs) left (visits serv vs).clients)
  unfolding run
  run-until_closed vs rest =
      let (made, created, (known, first)) = create_lem refuses conf serv fs h in
      let ended = λ (receives : Bool).
        ap (behind_loop refuses receives conf made) (accept_loop-until_closed serv vs rest) in
      let started = λ (receives : Bool).
        ap
          (λ (r : FileSystem × Option FileError).
            behind_loop refuses receives conf (r.0) (accept_loop (until_closed vs rest) serv))
          created in
      (
        made,
        record made { files = fs.files },
        first,
        refl,
        started false ∙ ended false,
        started true
            ∙ ended true
            ∙ ap
                (λ (r : FileSystem × Option FileError).
                  returned (visits serv vs) (r.0) (visits serv vs).clients)
                (remove_lem refuses conf serv fs h (visits serv vs) made (visits-name serv vs)
                  first),
      )
