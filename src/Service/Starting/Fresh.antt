-- ===== src/Service/Starting/Fresh.antt =====
-- scamp/service.go: what `NewService` returns has no action and does not run.
use scamp_go.Base.{
  ℕ, ◌≡◌, refl, false, [], Option, none, some, ltb, Bytes, bytes_Eq, length, Bool-cases, inl, inr,
}
use scamp_go.Base.Result.{Result, ok, err}
use scamp_go.Config.{Config, Net}
use scamp_go.Multicast.{Addresses}
use scamp_go.Base.Split.{trim_space}
use scamp_go.Service.{Service, new_service, random_name}
use scamp_go.Service.Starting.{
  Host, StartError, start_service, with_key_pair, with_certificate, new_service_explicit_cert,
  listening_service, named_service, generate_random_name, listen, text_or_empty,
}

-- A service that is not running and has no action yet.
abbrev pub IsFresh : Result StartError Service → Type 0
IsFresh (err e) = Unit {0}
IsFresh (ok serv) = (serv.is_running ≡ false) × (serv.actions ≡ [])

module _ {ℓ κ} {K : Type κ} (n : Net {ℓ}) (addresses : Addresses n) (host : Host K) where
  named_service-IsFresh :
      (sector spec human random : Bytes) (ip : Option Bytes) (port : ℕ) (pem : Bytes)
      → IsFresh (named_service n addresses host (new_service sector spec human random ip port pem))
  unfolding new_service
  named_service-IsFresh sector spec human random ip port pem =
      elim (Bool-cases (ltb 18 (length human))) [
        | inl long ↦ rw (new_service, long) tt
        | inr short ↦ rw (new_service, short) (named host.random)
      ]
    where
      named :
          (random' : Option Bytes)
          → IsFresh (
              ok (
                generate_random_name random' (record {
                  sector = sector;
                  service_spec = spec;
                  name = random_name human random;
                  human_name = human;
                  listener_ip = ip;
                  listener_port = port;
                  actions = [];
                  is_running = false;
                  clients = [];
                  pem_cert = trim_space pem;
                  connections_accepted = 0;
                })))
      named none = (refl, refl)
      named (some text) = (refl, refl)

  listening_service-IsFresh :
      (sector spec human pem : Bytes) (at : Result StartError (Option Bytes × ℕ))
      → IsFresh (listening_service n addresses host sector spec human pem at)
  listening_service-IsFresh sector spec human pem (err e) = tt
  listening_service-IsFresh sector spec human pem (ok (ip, port)) =
      named_service-IsFresh sector spec human (text_or_empty host.random) ip port pem

  with_certificate-IsFresh :
      (sector spec human : Bytes) (key_pair : K) (pem : Option Bytes)
      → IsFresh (with_certificate n addresses host sector spec human key_pair pem)
  unfolding new_service_explicit_cert
  with_certificate-IsFresh sector spec human key_pair none = tt
  with_certificate-IsFresh sector spec human key_pair (some pem) =
      elim (Bool-cases (ltb 18 (length human))) [
        | inl long ↦ rw (new_service_explicit_cert, long) tt
        | inr short ↦
            rw (new_service_explicit_cert, short)
              (listening_service-IsFresh sector spec human pem
                (listen n addresses host key_pair spec))
      ]

  with_key_pair-IsFresh :
      (conf : Config) (sector spec human : Bytes) (key_pair : Option K)
      → IsFresh (with_key_pair n addresses host conf sector spec human key_pair)
  with_key_pair-IsFresh conf sector spec human none = tt
  with_key_pair-IsFresh conf sector spec human (some key_pair) =
      with_certificate-IsFresh sector spec human key_pair _

  pub start_service-IsFresh :
      (conf : Config) (sector spec human : Bytes)
      → IsFresh (start_service n addresses host conf sector spec human)
  unfolding start_service
  start_service-IsFresh conf sector spec human = with_key_pair-IsFresh conf sector spec human _
