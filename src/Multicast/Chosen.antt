-- ===== src/Multicast/Chosen.antt =====
-- scamp/multicast.go: which address `getIPForAnnouncePacket` chooses.
use scamp_go.Base.{
  List, [], ◌∷◌, Option, none, some, Bytes, ◌≡◌, refl, ap, ◌∙◌, if◌then◌else◌, Bool-cases, inl, inr,
}
use scamp_go.Config.{Net, or_default}
use scamp_go.Multicast.{
  Interface, Addresses, AnnounceIp, found, addrs_error, no_suitable_ip, first_found, addr_loop,
  break_at, interface_loop, get_ip_for_announce_packet, at_interface, after_addrs,
}

module _ {ℓ} (n : Net {ℓ}) (a : Addresses n) where
  abbrev ipv4_of : Option n.Ip → Option n.Ip
  ipv4_of none = none
  ipv4_of (some ip) = if a.is_ipv4 ip then some ip else none

  -- The first address that is IPv4.
  abbrev pub first_ipv4 : List Bytes → Option n.Ip
  first_ipv4 [] = none
  first_ipv4 (addr ∷ addrs) = first_found (ipv4_of (a.parse_cidr addr)) (first_ipv4 addrs)

  -- What the last address is parsed to.
  abbrev pub last_parsed : List Bytes → Option n.Ip → Option n.Ip
  last_parsed [] ip = ip
  last_parsed (addr ∷ addrs) ip = last_parsed addrs (a.parse_cidr addr)

  -- What an interface alone decides.
  abbrev pub decides : Option (List Bytes) → Option (AnnounceIp n.Ip)
  decides none = some addrs_error
  decides (some addrs) = elim (first_found (first_ipv4 addrs) (last_parsed addrs none)) [
    | none ↦ none
    | some ip ↦ some (found ip)
  ]

  -- The first of the interfaces that are no loopback interface and decide.
  abbrev pub first_decision : List Interface → Option (AnnounceIp n.Ip)
  first_decision [] = none
  first_decision (inf ∷ infs) =
      let rest = first_decision infs in
      if inf.is_loopback then rest else first_found (decides inf.addrs) rest

  break_at-first :
      (parsed first last : Option n.Ip)
      → break_at n a parsed (first_found first last)
        ≡ first_found (first_found (ipv4_of parsed) first) last
  break_at-first none first last = refl
  break_at-first (some ip) first last = elim (Bool-cases (a.is_ipv4 ip)) [
    | inl is_lo ↦ rw is_lo refl
    | inr is_other ↦ rw is_other refl
  ]

  addr_loop-first :
      (addrs : List Bytes) (ip : Option n.Ip)
      → addr_loop n a addrs ip ≡ first_found (first_ipv4 addrs) (last_parsed addrs ip)
  unfolding addr_loop
  addr_loop-first [] ip = refl
  addr_loop-first (addr ∷ addrs) ip =
      let parsed = a.parse_cidr addr in
      ap (break_at n a parsed) (addr_loop-first addrs parsed)
      ∙ break_at-first parsed (first_ipv4 addrs) (last_parsed addrs parsed)

  at_interface-decides :
      (addrs : Option (List Bytes)) (rest : AnnounceIp n.Ip) (later : Option (AnnounceIp n.Ip))
      → rest ≡ or_default later no_suitable_ip
      → at_interface n a addrs rest ≡ or_default (first_found (decides addrs) later) no_suitable_ip
  at_interface-decides none rest later h = refl
  at_interface-decides (some addrs) rest later h =
      ap (λ ip. after_addrs n a ip rest) (addr_loop-first addrs none)
      ∙ after (first_found (first_ipv4 addrs) (last_parsed addrs none))
    where
      after :
          (ip : Option n.Ip)
          → after_addrs n a ip rest
            ≡ or_default
                (first_found (elim ip [ none ↦ none | some i ↦ some (found i) ]) later)
                no_suitable_ip
      after none = h
      after (some ip) = refl

  -- `getIPForAnnouncePacket` gives what the first interface decides that is no loopback interface
  -- and decides something, or else the error that there is no suitable address. An interface whose
  -- addresses cannot be had decides for that error. Another decides for the first of its addresses
  -- that is IPv4, or else for what its last address is parsed to, where that is an address.
  pub get_ip_for_announce_packet-first_decision :
      (infs : List Interface)
      → get_ip_for_announce_packet n a (some infs) ≡ or_default (first_decision infs) no_suitable_ip
  unfolding interface_loop
  get_ip_for_announce_packet-first_decision [] = refl
  get_ip_for_announce_packet-first_decision (inf ∷ infs) = elim (Bool-cases inf.is_loopback) [
    | inl is_lo ↦ rw is_lo (get_ip_for_announce_packet-first_decision infs)
    | inr is_other ↦ rw is_other (
        at_interface-decides inf.addrs (interface_loop n a infs) (first_decision infs)
          (get_ip_for_announce_packet-first_decision infs))
  ]
