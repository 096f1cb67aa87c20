-- ===== src/Multicast.antt =====
-- scamp/multicast.go: the address that a service announces, and the socket that it announces on.
-- The interfaces, their addresses and what package `net` makes of these are given.
pub mod Chosen
use scamp_go.Base.{
  ℕ, Bool, true, false, List, [], ◌∷◌, ◌++◌, Option, none, some, Bytes, codes, if◌then◌else◌,
}
use scamp_go.Base.Decimal.{format_int}
use scamp_go.Config.{
  Config, Net, local_discovery_multicast, local_discovery_multicast_ip,
  local_discovery_multicast_port,
}

-- An interface of the host: `none` when its addresses cannot be had.
pub record Interface : Type 0 where
  pub is_loopback : Bool
  pub addrs : Option (List Bytes)

-- `ParseCIDR` as far as the address, `To4` as a test, and the text of an address, which may be nil.
pub record Addresses {ℓ} (n : Net {ℓ}) : Type ℓ where
  pub parse_cidr : Bytes → Option n.Ip
  pub is_ipv4 : n.Ip → Bool
  pub ip_text : Option n.Ip → Bytes

-- What `getIPForAnnouncePacket` returns, by where it does.
pub data AnnounceIp {ℓ} (I : Type ℓ) : Type ℓ where
  found : I → AnnounceIp I
  interfaces_error addrs_error no_suitable_ip : AnnounceIp I

-- What `localMulticastPacketConn` returns: without `eth0` there is an error beside the connection.
pub data PacketConn {ℓ} (S : Type ℓ) : Type ℓ where
  not_listening : Bytes → PacketConn S
  without_eth0 multicast_on_eth0 : S → PacketConn S

abbrev pub first_found {ℓ} : {A : Type ℓ} → Option A → Option A → Option A
first_found none other = other
first_found (some a) other = some a

-- `loopbackInterface`, of the interfaces by their names.
unfoldable pub loopback_interface {ℓ} : {I : Type ℓ} → (Bytes → Option I) → Option I
loopback_interface interface_by_name =
    first_found (interface_by_name (codes "lo0")) (interface_by_name (codes "lo"))

abbrev pub connection_of {ℓ} : {S : Type ℓ} → Bytes → Option S → Bool → PacketConn S
connection_of spec none has_eth0 = not_listening spec
connection_of spec (some socket) true = multicast_on_eth0 socket
connection_of spec (some socket) false = without_eth0 socket

module _ {ℓ} (n : Net {ℓ}) (a : Addresses n) where
  -- Whether an address ends the loop over them, or the rest decides.
  abbrev pub break_at : Option n.Ip → Option n.Ip → Option n.Ip
  break_at none rest = rest
  break_at (some ip) rest = if a.is_ipv4 ip then some ip else rest

  -- The loop over the addresses of an interface, with the address that it has at its end: one that
  -- is not IPv4 is passed over, but stays in the variable.
  unfoldable pub addr_loop : List Bytes → Option n.Ip → Option n.Ip
  addr_loop [] ip = ip
  addr_loop (addr ∷ addrs) ip =
      let parsed = a.parse_cidr addr in break_at parsed (addr_loop addrs parsed)

  abbrev pub after_addrs : Option n.Ip → AnnounceIp n.Ip → AnnounceIp n.Ip
  after_addrs none rest = rest
  after_addrs (some ip) rest = found ip

  abbrev pub at_interface : Option (List Bytes) → AnnounceIp n.Ip → AnnounceIp n.Ip
  at_interface none rest = addrs_error
  at_interface (some addrs) rest = after_addrs (addr_loop addrs none) rest

  -- The loop over the interfaces: in front of each of them there is no address yet.
  unfoldable pub interface_loop : List Interface → AnnounceIp n.Ip
  interface_loop [] = no_suitable_ip
  interface_loop (inf ∷ infs) =
      let rest = interface_loop infs in
      if inf.is_loopback then rest else at_interface inf.addrs rest

  -- `getIPForAnnouncePacket`, of what `net.Interfaces` returns.
  abbrev pub get_ip_for_announce_packet : Option (List Interface) → AnnounceIp n.Ip
  get_ip_for_announce_packet none = interfaces_error
  get_ip_for_announce_packet (some infs) = interface_loop infs

  -- `localMulticastSpec`.
  unfoldable pub local_multicast_spec : Config → Bytes
  local_multicast_spec config =
      if local_discovery_multicast config
      then (a.ip_text (local_discovery_multicast_ip n config)
          ++ b':' ∷ format_int (local_discovery_multicast_port config))
      else codes "127.0.0.1:"

  -- `localMulticastPacketConn`: which sockets can be had is given, and whether there is `eth0`.
  unfoldable pub local_multicast_packet_conn {ℓs} :
      {S : Type ℓs} → Config → (Bytes → Option S) → Bool → PacketConn S
  local_multicast_packet_conn config listen_packet has_eth0 =
      let spec = local_multicast_spec config in connection_of spec (listen_packet spec) has_eth0
