-- ===== src/Announcer/Rounds.antt =====
-- scamp/discoveryannounce.go: the datagrams that the rounds of the loop send.
use scamp_go.Base.{
  Option, none, some, Bool, List, [], ◌∷◌, ◌++◌, if◌then◌else◌, Bytes, All, All-append, ◌≡◌, ◌≢◌,
  refl, ap, ◌∙◌, Bool-cases, inl, inr,
}
use scamp_go.Header.{Json}
use scamp_go.Ticket.{Crypto}
use scamp_go.Proxy.{Arrays, Proxy, marshal_json}
use scamp_go.Signature.{Certificates, sign_sha256}
use scamp_go.Service.{Service}
use scamp_go.Service.Marshal.{
  Marshalled, marshal_panics, cannot_sign, marshalled, marshal_text, announcement,
  service_as_service_proxy,
}
use scamp_go.Announcer.{
  Announcing, finished, refused, panics, behind, write_to, DiscoveryAnnouncer, track, announce,
  announce_all, do_announce, LoopEvent, stop_taken, service_tracked, round_run, returned,
  after_round, announce_loop,
}

-- The datagrams up to the first that is refused, which is handed to the socket too.
abbrev pub up_to : (Bytes → Bool) → List Bytes → List Bytes
up_to refuses [] = []
up_to refuses (datagram ∷ datagrams) =
    datagram ∷ (if refuses datagram then [] else up_to refuses datagrams)

-- The datagram of a service that is marshalled, or not signed.
abbrev pub datagram_of : Marshalled → Bytes
datagram_of marshal_panics = []
datagram_of cannot_sign = []
datagram_of (marshalled text) = text

abbrev Sends : Announcing → List Bytes → Type 0
Sends (finished sent) expected = sent ≡ expected
Sends (refused sent) expected = sent ≡ expected
Sends (panics sent) expected = ⊥

write_to-Sends :
    (refuses : Bytes → Bool) (datagram : Bytes) (rest : Announcing) (expected : List Bytes)
    → Sends rest expected
    → Sends
        (write_to refuses datagram rest)
        (datagram ∷ (if refuses datagram then [] else expected))
write_to-Sends refuses datagram rest expected h = elim (Bool-cases (refuses datagram)) [
  | inl hit ↦ rw hit refl
  | inr miss ↦ rw miss (behind-Sends rest h)
]
  where
    behind-Sends :
        (rest : Announcing)
        → Sends rest expected
        → Sends (behind datagram rest) (datagram ∷ expected)
    behind-Sends (finished sent) e = ap (◌∷◌ datagram) e
    behind-Sends (refused sent) e = ap (◌∷◌ datagram) e
    behind-Sends (panics sent) e = elim e [ ]

after_round-Sends :
    (round : Announcing) (expected : List Bytes) (rest : List Bytes)
    → Sends round expected
    → after_round round (returned rest) ≡ returned (expected ++ rest)
after_round-Sends (finished sent) expected rest e = ap (λ s. returned (s ++ rest)) e
after_round-Sends (refused sent) expected rest e = ap (λ s. returned (s ++ rest)) e
after_round-Sends (panics sent) expected rest e = elim e [ ]

module _ (j : Json) (a : Arrays) (c : Crypto) (x : Certificates c) where
  -- A service that is marshalled, or not signed, at any time.
  abbrev pub CanMarshal : Service × Option x.PrivateKey → Type 0
  CanMarshal (serv, priv) =
      (timestamp : Bytes) → marshal_text j a c x priv serv timestamp ≢ marshal_panics

  -- A service that is announced as a proxy, and has an RSA key, is marshalled, or not signed.
  pub marshal_text-ne-marshal_panics :
      (serv : Service) (priv : x.PrivateKey) (timestamp : Bytes) (proxy : Proxy)
      → service_as_service_proxy serv timestamp ≡ some proxy
      → marshal_text j a c x (some priv) serv timestamp ≢ marshal_panics
  unfolding marshal_text
  marshal_text-ne-marshal_panics serv priv timestamp proxy e =
      rw (marshal_text, e) (signed (sign_sha256 c x (marshal_json j a proxy) priv))
    where
      signed :
          (sig : Option Bytes)
          → (elim sig [
            | none ↦ cannot_sign
            | some s ↦ marshalled (announcement (marshal_json j a proxy) serv.pem_cert s)
          ])
            ≢ marshal_panics
      signed none = λ e. cc
      signed (some s) = λ e. cc

  -- The datagrams of the services at a time.
  abbrev pub datagrams : Bytes → List (Service × Option x.PrivateKey) → List Bytes
  datagrams timestamp [] = []
  datagrams timestamp ((serv, priv) ∷ services) =
      datagram_of (marshal_text j a c x priv serv timestamp) ∷ datagrams timestamp services

  -- The datagrams of rounds, each of the services that are tracked in front of it.
  abbrev pub rounds_sent :
      List (Service × Option x.PrivateKey)
      → List (LoopEvent (Service × Option x.PrivateKey))
      → List Bytes
  rounds_sent services [] = []
  rounds_sent services (stop_taken ∷ events) = []
  rounds_sent services (service_tracked serv ∷ events) = rounds_sent (services ++ serv ∷ []) events
  rounds_sent services (round_run refuses timestamp ∷ events) =
      up_to refuses (datagrams timestamp services) ++ rounds_sent services events

  abbrev pub CanTrack : LoopEvent (Service × Option x.PrivateKey) → Type 0
  CanTrack stop_taken = Unit {0}
  CanTrack (service_tracked serv) = CanMarshal serv
  CanTrack (round_run refuses timestamp) = Unit {0}

  announce-Sends :
      (refuses : Bytes → Bool) (text : Marshalled) (rest : Announcing) (expected : List Bytes)
      → text ≢ marshal_panics
      → Sends rest expected
      → Sends
          (announce j a c x refuses text rest)
          (datagram_of text ∷ (if refuses (datagram_of text) then [] else expected))
  announce-Sends refuses marshal_panics rest expected ne h = absurd (ne refl)
  announce-Sends refuses cannot_sign rest expected ne h = write_to-Sends refuses [] rest expected h
  announce-Sends refuses (marshalled text) rest expected ne h =
      write_to-Sends refuses text rest expected h

  announce_all-Sends :
      (refuses : Bytes → Bool) (timestamp : Bytes) (services : List (Service × Option x.PrivateKey))
      → All CanMarshal services
      → Sends
          (announce_all j a c x refuses timestamp services)
          (up_to refuses (datagrams timestamp services))
  unfolding announce_all
  announce_all-Sends refuses timestamp [] h = refl
  announce_all-Sends refuses timestamp ((serv, priv) ∷ services) (h, hs) =
      announce-Sends refuses (marshal_text j a c x priv serv timestamp)
        (announce_all j a c x refuses timestamp services)
        (up_to refuses (datagrams timestamp services)) (h timestamp)
        (announce_all-Sends refuses timestamp services hs)

  -- The services that are tracked at first or later can be marshalled. `AnnounceLoop` takes a list
  -- of events, with rounds and calls of `Track` among them, and then a `Stop`: it returns, and has
  -- sent, for each round in front of the first `Stop`, the datagrams of the services tracked by
  -- then, in order, up to the first datagram that the socket refuses in that round, which it has
  -- tried to send. Nothing behind that `Stop` is looked at.
  pub announce_loop-rounds_sent :
      (announcer : DiscoveryAnnouncer j a c x)
      (events later : List (LoopEvent (Service × Option x.PrivateKey)))
      → All CanMarshal announcer.services
      → All CanTrack events
      → announce_loop j a c x announcer (events ++ stop_taken ∷ later)
        ≡ returned (rounds_sent announcer.services events)
  unfolding announce_loop do_announce track
  announce_loop-rounds_sent announcer [] later h hs = refl
  announce_loop-rounds_sent announcer (stop_taken ∷ events) later h hs = refl
  announce_loop-rounds_sent announcer (service_tracked serv ∷ events) later h (can, hs) =
      announce_loop-rounds_sent (track j a c x announcer serv) events later
        (All-append CanMarshal announcer.services (serv ∷ []) h (can, tt)) hs
  announce_loop-rounds_sent announcer (round_run refuses timestamp ∷ events) later h (_, hs) =
      ap (after_round (do_announce j a c x announcer refuses timestamp))
        (announce_loop-rounds_sent announcer events later h hs)
      ∙ after_round-Sends (do_announce j a c x announcer refuses timestamp)
          (up_to refuses (datagrams timestamp announcer.services))
          (rounds_sent announcer.services events)
          (announce_all-Sends refuses timestamp announcer.services h)
