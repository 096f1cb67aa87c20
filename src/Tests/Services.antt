-- ===== src/Tests/Services.antt =====
-- A service at concrete inputs.
use scamp_go.Base.{true, ◌≡◌, refl, false, [], ◌∷◌, map, none, some, codes, bytes_Eq, arith}
use scamp_go.Base.Dict.{lookup}
use scamp_go.Message.{Message, set_action}
use scamp_go.Ticket.{unread}
use scamp_go.Action.{default_action_options}
use scamp_go.Service.{
  Service, ServiceAction, incoming, goes_on, handle_loop, remove_client, append_client,
  count_client, gather_stats,
}
use scamp_go.Service.Handling.{IsOpen, run_callbacks, handle_loop-run_callbacks}
use scamp_go.Service.Clients.{
  appends, counts, removes, Reach, here, next, IsCounted, Reach-IsCounted,
}
use scamp_go.Tests.Codec.{codec}
use scamp_go.Tests.Connections.{sample}
use scamp_go.Tests.Tickets.{crypto, error_text}
use scamp_go.Tests.Clients.{client}

abbrev pub ping : ServiceAction
ping = record {
  callback = λ msg client. none;
  options = default_action_options;
  crud_tags = [];
  version = 1;
}

abbrev pub service : Service
service = record {
  sector = codes "main";
  service_spec = codes ":30100";
  name = codes "srv:1";
  human_name = codes "srv";
  listener_ip = some (codes "10.0.0.1");
  listener_port = 30100;
  actions = (codes "Bus.ping", ping) ∷ [];
  is_running = false;
  clients = [];
  pem_cert = codes "cert";
  connections_accepted = 0;
}

abbrev asked : Message
asked = set_action sample (codes "Bus.ping")

asked-IsOpen : IsOpen service asked
unfolding lookup
asked-IsOpen = record { action = ping; registered = refl; no_ticket = refl }

handle_loop-run_callbacks_example :
    handle_loop codec crypto error_text 120 service
      (goes_on unread (some client))
      (map incoming (asked ∷ asked ∷ []))
    ≡ goes_on unread (run_callbacks service (asked ∷ asked ∷ []) (some client))
handle_loop-run_callbacks_example =
    handle_loop-run_callbacks codec crypto error_text 120 service unread (some client)
      (asked ∷ asked ∷ []) (asked-IsOpen, (asked-IsOpen, tt))

-- Between two steps of `Run` there is one more open connection than accepted clients.
abbrev with_two : Service
with_two = append_client (count_client (append_client service 7)) 8

tracked : Reach service (with_two, true)
unfolding append_client count_client
tracked =
    next
      (next (next here (appends service 7 refl)) (counts (append_client service 7) (omega arith)))
      (appends (count_client (append_client service 7)) 8 refl)

shows_more : gather_stats with_two ≡ record { clients_accepted = 1; open_connections = 2 }
unfolding gather_stats append_client count_client
shows_more = refl

Reach-IsCounted_example : IsCounted (remove_client with_two 7).0 true
Reach-IsCounted_example = Reach-IsCounted refl (next tracked (removes with_two 7 true))
