-- ===== src/Announcer.antt =====
-- scamp/discoveryannounce.go: the announcer, its rounds of announcements, and the loop of them.
-- A service is tracked with its private key, `none` where that is no RSA key. Which datagrams the multicast
-- socket refuses is given, and so is the time of a round; the time between two rounds is not modelled.
pub mod Rounds
use scamp_go.Base.{ℕ, Bool, Option, List, [], ◌∷◌, ◌++◌, if◌then◌else◌, Bytes}
use scamp_go.Header.{Json}
use scamp_go.Ticket.{Crypto}
use scamp_go.Proxy.{Arrays}
use scamp_go.Signature.{Certificates}
use scamp_go.Config.{Config, Net, discovery_multicast_ip, discovery_multicast_port}
use scamp_go.Multicast.{Addresses, PacketConn, local_multicast_packet_conn}
use scamp_go.Service.{Service}
use scamp_go.Service.Marshal.{Marshalled, marshal_panics, cannot_sign, marshalled, marshal_text}

-- How a round ends, with the datagrams that were handed to the socket.
pub data Announcing : Type 0 where
  finished refused panics : List Bytes → Announcing

abbrev pub behind : Bytes → Announcing → Announcing
behind datagram (finished sent) = finished (datagram ∷ sent)
behind datagram (refused sent) = refused (datagram ∷ sent)
behind datagram (panics sent) = panics (datagram ∷ sent)

-- `WriteTo`, and the rest of the round.
abbrev pub write_to : (Bytes → Bool) → Bytes → Announcing → Announcing
write_to refuses datagram rest =
    if refuses datagram then refused (datagram ∷ []) else behind datagram rest

-- What comes to `AnnounceLoop` in front of a round: a `Stop` that waits to be received, a `Track`, or
-- nothing, so that the round is run.
pub data LoopEvent (S : Type 0) : Type 0 where
  stop_taken : LoopEvent S
  service_tracked : S → LoopEvent S
  round_run : (Bytes → Bool) → Bytes → LoopEvent S

-- How far `AnnounceLoop` is after some events, with the datagrams of its rounds.
pub data Looping : Type 0 where
  looping returned panicked : List Bytes → Looping

abbrev pub behind_round : List Bytes → Looping → Looping
behind_round sent (looping later) = looping (sent ++ later)
behind_round sent (returned later) = returned (sent ++ later)
behind_round sent (panicked later) = panicked (sent ++ later)

-- The loop drops the error of a round.
abbrev pub after_round : Announcing → Looping → Looping
after_round (finished sent) rest = behind_round sent rest
after_round (refused sent) rest = behind_round sent rest
after_round (panics sent) rest = panicked sent

module _ (j : Json) (a : Arrays) (c : Crypto) (x : Certificates c) where
  pub record DiscoveryAnnouncer : Type 0 where
    pub services : List (Service × Option x.PrivateKey)

  -- `Track`.
  unfoldable pub track : DiscoveryAnnouncer → Service × Option x.PrivateKey → DiscoveryAnnouncer
  track announcer serv = record announcer { services = announcer.services ++ serv ∷ [] }

  -- A service that cannot be marshalled is announced by an empty datagram.
  abbrev pub announce : (Bytes → Bool) → Marshalled → Announcing → Announcing
  announce refuses marshal_panics rest = panics []
  announce refuses cannot_sign rest = write_to refuses [] rest
  announce refuses (marshalled text) rest = write_to refuses text rest

  unfoldable pub announce_all :
      (Bytes → Bool) → Bytes → List (Service × Option x.PrivateKey) → Announcing
  announce_all refuses timestamp [] = finished []
  announce_all refuses timestamp ((serv, priv) ∷ services) =
      announce refuses (marshal_text j a c x priv serv timestamp)
        (announce_all refuses timestamp services)

  -- `doAnnounce`.
  unfoldable pub do_announce : DiscoveryAnnouncer → (Bytes → Bool) → Bytes → Announcing
  do_announce announcer refuses timestamp = announce_all refuses timestamp announcer.services

  -- `AnnounceLoop`; a `Stop` behind its end is not received.
  unfoldable pub announce_loop :
      DiscoveryAnnouncer → List (LoopEvent (Service × Option x.PrivateKey)) → Looping
  announce_loop announcer [] = looping []
  announce_loop announcer (stop_taken ∷ events) = returned []
  announce_loop announcer (service_tracked serv ∷ events) =
      announce_loop (track announcer serv) events
  announce_loop announcer (round_run refuses timestamp ∷ events) =
      after_round (do_announce announcer refuses timestamp) (announce_loop announcer events)

  -- `NewDiscoveryAnnouncer`: the announcer, the group that it round_run to, and its socket or the error.
  unfoldable pub new_discovery_announcer {ℓ ℓs} :
      (n : Net {ℓ})
      → Addresses n
      → {S : Type ℓs} → Config
      → (Bytes → Option S)
      → Bool
      → DiscoveryAnnouncer × ((Option n.Ip × ℕ) × PacketConn S)
  new_discovery_announcer n addresses config listen_packet has_eth0 = (
    record { services = [] },
    (
      (discovery_multicast_ip n config, discovery_multicast_port config),
      local_multicast_packet_conn n addresses config listen_packet has_eth0,
    ),
  )
