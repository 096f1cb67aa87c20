-- ===== src/Tests/Multicasts.antt =====
-- Addresses and announcements at concrete inputs.
use scamp_go.Base.{
  true, false, List, [], ◌∷◌, ◌++◌, Option, none, some, Bytes, codes, length, ◌==◌, ◌≡◌, refl,
}
use scamp_go.Config.{Net, or_default}
use scamp_go.Multicast.{Interface, Addresses, found, no_suitable_ip, get_ip_for_announce_packet}
use scamp_go.Multicast.Chosen.{first_decision, get_ip_for_announce_packet-first_decision}
use scamp_go.Service.Marshal.{service_as_service_proxy, classes_of}
use scamp_go.Announcer.{announce_loop, stop_taken, service_tracked, round_run, returned}
use scamp_go.Announcer.Rounds.{
  CanMarshal, marshal_text-ne-marshal_panics, rounds_sent, announce_loop-rounds_sent,
}
use scamp_go.Tests.Codec.{codec}
use scamp_go.Tests.Arrays.{arrays}
use scamp_go.Tests.Tickets.{crypto}
use scamp_go.Tests.Discovery.{certificates}
use scamp_go.Tests.Services.{service}

-- An address is its text; one of four bytes stands for IPv4, and one of none is refused.
abbrev pub net : Net {0}
net = record { Ip = Bytes; parse_ip = λ s. some s; ipv4 = λ a b c d. a ∷ b ∷ c ∷ d ∷ [] }

abbrev nonempty_ip : Bytes → Option Bytes
nonempty_ip [] = none
nonempty_ip (c ∷ s) = some (c ∷ s)

abbrev pub addresses : Addresses net
addresses = record {
  parse_cidr = nonempty_ip;
  is_ipv4 = λ ip. length ip == 4;
  ip_text = λ ip. or_default ip (codes "<nil>");
}

abbrev pub interfaces : List Interface
interfaces =
    record { is_loopback = true; addrs = some (codes "lo_4" ∷ []) }
    ∷ record { is_loopback = false; addrs = some [] }
    ∷ record { is_loopback = false; addrs = some (codes "six" ∷ codes "eth4" ∷ codes "more" ∷ []) }
    ∷ []

get_ip_for_announce_packet-first_decision_example :
    get_ip_for_announce_packet net addresses (some interfaces)
    ≡ or_default (first_decision net addresses interfaces) no_suitable_ip
get_ip_for_announce_packet-first_decision_example =
    get_ip_for_announce_packet-first_decision net addresses interfaces

chosen : first_decision net addresses interfaces ≡ some (found (codes "eth4"))
chosen = refl

service-CanMarshal : CanMarshal codec arrays crypto certificates (service, some tt)
unfolding service_as_service_proxy classes_of
service-CanMarshal timestamp =
    marshal_text-ne-marshal_panics codec arrays crypto certificates service tt timestamp _ refl

announce_loop-rounds_sent_example :
    announce_loop codec arrays crypto certificates
      (record { services = (service, some tt) ∷ [] })
      ((service_tracked (service, some tt) ∷ round_run (λ s. false) (codes "1.0") ∷ [])
        ++ stop_taken ∷ [])
    ≡ returned (
        rounds_sent codec arrays crypto certificates
          ((service, some tt) ∷ [])
          (service_tracked (service, some tt) ∷ round_run (λ s. false) (codes "1.0") ∷ []))
announce_loop-rounds_sent_example =
    announce_loop-rounds_sent codec arrays crypto certificates
      (record { services = (service, some tt) ∷ [] })
      (service_tracked (service, some tt) ∷ round_run (λ s. false) (codes "1.0") ∷ []) []
      (service-CanMarshal, tt) (service-CanMarshal, (tt, tt))
