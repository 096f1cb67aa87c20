-- ===== src/Service/Starting.antt =====
-- scamp/service.go: `NewService` and `listen`, over a given host.
-- Where `rand.Read` fails, the service has no name and no error is returned. The text of an address is that
-- of package `net`.
pub mod Fresh
pub mod Named
use scamp_go.Base.{
  ℕ, Bool, true, false, List, [], ◌∷◌, ◌++◌, Option, none, some, ltb, if◌then◌else◌, Bytes, length,
}
use scamp_go.Base.Result.{Result, ok, err}
use scamp_go.Message.{Message}
use scamp_go.Client.{Client}
use scamp_go.Action.{ActionOptions}
use scamp_go.Config.{Config, Net, service_key_path, service_cert_path}
use scamp_go.Multicast.{Interface, Addresses, AnnounceIp, found, get_ip_for_announce_packet}
use scamp_go.Service.{Service, new_service, register}

-- What the host has: files, key pairs by their paths, listeners by what they are asked for, with the port
-- that they get, the text of random bytes, and interfaces.
pub record Host {ℓ} (K : Type ℓ) : Type ℓ where
  pub load_key_pair : Bytes → Bytes → Option K
  pub read_file : Bytes → Option Bytes
  pub tls_listen : K → Bytes → Option ℕ
  pub random : Option Bytes
  pub interfaces : Option (List Interface)

pub data StartError : Type 0 where
  no_key_pair no_certificate name_too_long cannot_listen no_address : StartError

abbrev pub as_address {ℓ} :
    {I : Type ℓ} → (I → Option Bytes) → ℕ → AnnounceIp I → Result StartError (Option Bytes × ℕ)
as_address to4_text port (found ip) = ok (to4_text ip, port)
as_address to4_text port _ = err no_address

-- `generateRandomName`.
abbrev pub generate_random_name : Option Bytes → Service → Service
generate_random_name none serv = record serv { name = [] }
generate_random_name (some random) serv = serv

abbrev pub text_or_empty : Option Bytes → Bytes
text_or_empty none = []
text_or_empty (some s) = s

module _ {ℓ κ} {K : Type κ} (n : Net {ℓ}) (a : Addresses n) (host : Host K) where
  -- The text of an address as `To4` gives it.
  abbrev pub to4_text : n.Ip → Option Bytes
  to4_text ip = if a.is_ipv4 ip then some (a.ip_text (some ip)) else none

  abbrev pub listening_at : Option ℕ → Result StartError (Option Bytes × ℕ)
  listening_at none = err cannot_listen
  listening_at (some port) =
      as_address to4_text port (get_ip_for_announce_packet n a host.interfaces)

  -- `listen`: the address and the port.
  unfoldable pub listen : K → Bytes → Result StartError (Option Bytes × ℕ)
  listen key_pair service_spec = listening_at (host.tls_listen key_pair service_spec)

  abbrev pub named_service : Option Service → Result StartError Service
  named_service none = err name_too_long
  named_service (some serv) = ok (generate_random_name host.random serv)

  abbrev pub listening_service :
      Bytes
      → Bytes
      → Bytes
      → Bytes
      → Result StartError (Option Bytes × ℕ)
      → Result StartError Service
  listening_service sector service_spec human_name pem_cert (err e) = err e
  listening_service sector service_spec human_name pem_cert (ok (ip, port)) =
      named_service
        (new_service sector service_spec human_name (text_or_empty host.random) ip port pem_cert)

  -- `NewServiceExplicitCert`: the length of the name is tested before it listens.
  unfoldable pub new_service_explicit_cert :
      Bytes → Bytes → Bytes → K → Bytes → Result StartError Service
  new_service_explicit_cert sector service_spec human_name key_pair pem_cert =
      if ltb 18 (length human_name)
      then err name_too_long
      else listening_service sector service_spec human_name pem_cert (listen key_pair service_spec)

  abbrev pub with_certificate : Bytes → Bytes → Bytes → K → Option Bytes → Result StartError Service
  with_certificate sector service_spec human_name key_pair none = err no_certificate
  with_certificate sector service_spec human_name key_pair (some pem_cert) =
      new_service_explicit_cert sector service_spec human_name key_pair pem_cert

  abbrev pub with_key_pair : Config → Bytes → Bytes → Bytes → Option K → Result StartError Service
  with_key_pair conf sector service_spec human_name none = err no_key_pair
  with_key_pair conf sector service_spec human_name (some key_pair) =
      with_certificate sector service_spec human_name key_pair
        (host.read_file (service_cert_path conf human_name))

  -- `NewService`. Neither path is nil.
  unfoldable pub start_service : Config → Bytes → Bytes → Bytes → Result StartError Service
  start_service conf sector service_spec human_name =
      with_key_pair conf sector service_spec human_name
        (host.load_key_pair (service_cert_path conf human_name) (service_key_path conf human_name))
