-- ===== src/Tests/Runs.antt =====
-- The running file of a service, at concrete inputs.
use scamp_go.Base.{◌||◌, ◌≡◌, refl, true, false, [], ◌∷◌, codes, bytes_Eq}
use scamp_go.Base.Dict.{lookup, insert}
use scamp_go.Config.{Config, new_config, set, running_service_file_dir_path}
use scamp_go.Service.Files.{FileSystem, Refuses, running_service_file_path}
use scamp_go.Service.Files.Kept.{CanRun}
use scamp_go.Service.Running.{run, sending, returned}
use scamp_go.Service.Running.Ended.{comes, goes, visits, until_closed, run-until_closed}
use scamp_go.Tests.Services.{service}
use scamp_go.Base.{not, some, none, List}
use scamp_go.Base.Result.{ok}
use scamp_go.Base.Split.{trim_space}
use scamp_go.Config.{service_cert_path, service_key_path}
use scamp_go.Multicast.{interface_loop, addr_loop}
use scamp_go.Service.{Service, new_service}
use scamp_go.Service.Marshal.{marshal_text}
use scamp_go.Service.Starting.{Host, start_service, new_service_explicit_cert, listen}
use scamp_go.Service.Starting.Named.{
  Registration, register_all, all_have_dots, is_marshal_panic, is_none, marshal_text-register_all,
}
use scamp_go.Tests.Codec.{codec}
use scamp_go.Tests.Arrays.{arrays}
use scamp_go.Tests.Tickets.{crypto}
use scamp_go.Tests.Discovery.{certificates}
use scamp_go.Tests.Multicasts.{net, addresses, interfaces}

abbrev refuses_none : Refuses
refuses_none = record { mkdir_all = λ s. false; create = λ s. false; remove = λ s. false }

abbrev conf : Config
conf = set new_config (codes "service.running_service_file_dir_path") (codes "/run")

abbrev fs : FileSystem
fs = record { dirs = []; files = codes "/run/other" ∷ [] }

service-CanRun : CanRun refuses_none conf service fs
unfolding set running_service_file_dir_path lookup insert running_service_file_path
service-CanRun = record {
  dir = codes "/run";
  configured = refl;
  mkdir_taken = refl;
  create_taken = refl;
  remove_taken = refl;
  is_new = refl;
}

run-until_closed_example :
    (made : FileSystem) × (left : FileSystem) × (made.files
      ≡ running_service_file_path service service-CanRun.dir ∷ fs.files)
    × (left.files ≡ fs.files)
    × (run refuses_none false conf fs (until_closed (comes 7 ∷ comes 8 ∷ goes 7 ∷ []) []) service
        ≡ sending
            (visits service (comes 7 ∷ comes 8 ∷ goes 7 ∷ []))
            made
            (visits service (comes 7 ∷ comes 8 ∷ goes 7 ∷ [])).clients)
    × (run refuses_none true conf fs (until_closed (comes 7 ∷ comes 8 ∷ goes 7 ∷ []) []) service
        ≡ returned
            (visits service (comes 7 ∷ comes 8 ∷ goes 7 ∷ []))
            left
            (visits service (comes 7 ∷ comes 8 ∷ goes 7 ∷ [])).clients)
run-until_closed_example =
    run-until_closed refuses_none conf service fs service-CanRun (comes 7 ∷ comes 8 ∷ goes 7 ∷ [])
      []

abbrev host : Host (Unit {0})
host = record {
  load_key_pair = λ cert key. some tt;
  read_file = λ path. some (codes " cert\n");
  tls_listen = λ key_pair spec. some 30100;
  random = some (codes "abcd");
  interfaces = some interfaces;
}

abbrev started : Service
started = record service {
  service_spec = codes ":0";
  name = codes "srv:abcd";
  listener_ip = some (codes "eth4");
  actions = [];
  pem_cert = codes "cert";
}

starts :
    start_service net addresses host new_config (codes "main") (codes ":0") (codes "srv")
    ≡ ok started
unfolding start_service new_service_explicit_cert listen new_service service_cert_path
    service_key_path interface_loop addr_loop trim_space lookup
starts = refl

abbrev registrations : List Registration
registrations =
    record { action_name = codes "Bus.ping"; callback = λ msg client. none; options = none }
    ∷ record { action_name = codes "ping"; callback = λ msg client. none; options = none }
    ∷ []

marshal_text-register_all_example :
    is_marshal_panic (
      marshal_text codec arrays crypto certificates
        (some tt)
        (register_all started registrations)
        (codes "1.0"))
    ≡ (not (all_have_dots registrations) || is_none {A = Unit {0}} (some tt))
marshal_text-register_all_example =
    marshal_text-register_all codec arrays crypto certificates net addresses host new_config
      (codes "main") (codes ":0") (codes "srv") started registrations (some tt) (codes "1.0") starts
