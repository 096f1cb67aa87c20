-- ===== src/Connection/Reading.antt =====
-- scamp/connection.go: the loop of `packetReader` over the bytes that come in.
use scamp_go.Base.{
  ℕ, zero, suc, ◌+◌, ◌%◌, ◌≤◌, ◌<◌, ◌≡◌, refl, ap, sym, ◌∙◌, true, List, [], ◌∷◌, ◌++◌, map, Option,
  none, some, some_eq, arith, ◌==◌, Bytes, All, nat_eq, length, append_assoc, Option-cases,
  Bool-cases, is_none, inl, inr, ◌⊎◌,
}
use scamp_go.Base.Decimal.{two_64}
use scamp_go.Base.Dict.{lookup}
use scamp_go.Base.Result.{ok, Result-cases}
use scamp_go.Header.{Json}
use scamp_go.Header.RoundTrip.{Laws, IsPlain}
use scamp_go.Packet.{
  Packet, PacketType, header_type, data_type, eof_type, txerr_type, ack_type, other_type, Reader,
  ReadError, size_panic, readline_error, three_parts, short_body, missing_trailer, header_error,
  unknown_packet_type, read_packet, packet_bytes, max_alloc,
}
use scamp_go.Packet.RoundTrip.{received, read_packet-packet_bytes}
use scamp_go.Packet.Sound.{length-read_packet}
use scamp_go.Connection.{
  Connection, RouteError, Stop, read_stop, route_stop, stopped, ack_bytes, deliver, route_header,
  route_data, route_eof, route_txerr, route_as, route_packet, packet_reader,
}
use scamp_go.Connection.Delivery.{route_all, route_all_step}

-- Another reader on a connection.
abbrev pub with_reader : Reader → Connection × Option RouteError → Connection × Option RouteError
with_reader reader r = (record r.0 { reader = reader }, r.1)

module _ (j : Json) (reader : Reader) where
  route_header-reader :
      (conn : Connection) (pkt : Packet)
      → route_header (record conn { reader = reader }) pkt
        ≡ with_reader reader (route_header conn pkt)
  unfolding route_header
  route_header-reader conn pkt = elim (Bool-cases (pkt.msg_no == conn.incomingmsgno)) [
    | inr other ↦ rw (other, route_header)
    | inl next ↦ elim (Bool-cases (is_none (lookup pkt.msg_no conn.pkt_to_msg))) [
      | inl e ↦ rw (next, e, route_header)
      | inr e ↦ rw (next, e, route_header)
    ]
  ]

  route_data-reader :
      (conn : Connection) (pkt : Packet)
      → route_data j (record conn { reader = reader }) pkt
        ≡ with_reader reader (route_data j conn pkt)
  unfolding route_data ack_bytes
  route_data-reader conn pkt = elim (Option-cases (lookup pkt.msg_no conn.pkt_to_msg)) [
    | inl e ↦ rw (e, route_data)
    | inr (msg, e) ↦ rw (e, route_data)
  ]

  route_eof-reader :
      (conn : Connection) (pkt : Packet)
      → route_eof (record conn { reader = reader }) pkt ≡ with_reader reader (route_eof conn pkt)
  unfolding route_eof deliver
  route_eof-reader conn pkt = elim (Option-cases (lookup pkt.msg_no conn.pkt_to_msg)) [
    | inl e ↦ rw (e, route_eof)
    | inr (msg, e) ↦ rw (e, route_eof)
  ]

  route_txerr-reader :
      (conn : Connection) (pkt : Packet)
      → route_txerr j (record conn { reader = reader }) pkt
        ≡ with_reader reader (route_txerr j conn pkt)
  unfolding route_txerr ack_bytes deliver
  route_txerr-reader conn pkt = elim (Option-cases (lookup pkt.msg_no conn.pkt_to_msg)) [
    | inl e ↦ rw (e, route_txerr)
    | inr (msg, e) ↦ rw (e, route_txerr)
  ]

  route_as-reader :
      (type : PacketType) (conn : Connection) (pkt : Packet)
      → route_as j type (record conn { reader = reader }) pkt
        ≡ with_reader reader (route_as j type conn pkt)
  unfolding route_as
  route_as-reader header_type conn pkt = route_header-reader conn pkt
  route_as-reader data_type conn pkt = route_data-reader conn pkt
  route_as-reader eof_type conn pkt = route_eof-reader conn pkt
  route_as-reader txerr_type conn pkt = route_txerr-reader conn pkt
  route_as-reader ack_type conn pkt = refl
  route_as-reader (other_type n) conn pkt = refl

  -- Routing a packet does not look at the input that is still to come, and leaves it alone.
  pub route_packet-reader :
      (conn : Connection) (pkt : Packet)
      → route_packet j (record conn { reader = reader }) pkt
        ≡ with_reader reader (route_packet j conn pkt)
  unfolding route_packet
  route_packet-reader conn pkt = route_as-reader pkt.packet_type conn pkt

-- The channel is closed when the loop ends, but for a panic.
read_stop-closed :
    (conn : Connection) (e : ReadError)
    → (read_stop e ≡ read_stop size_panic) ⊎ ((stopped conn (read_stop e)).msgs_closed ≡ true)
read_stop-closed conn size_panic = inl refl
read_stop-closed conn readline_error = inr refl
read_stop-closed conn three_parts = inr refl
read_stop-closed conn short_body = inr refl
read_stop-closed conn missing_trailer = inr refl
read_stop-closed conn header_error = inr refl
read_stop-closed conn (unknown_packet_type s) = inr refl

module _ (j : Json) where
  packet_reader_step :
      (fuel : ℕ) (conn conn' : Connection) (pkt : Packet) (reader : Reader)
      → read_packet j conn.reader ≡ ok (pkt, reader)
      → route_packet j (record conn { reader = reader }) pkt ≡ (conn', none)
      → packet_reader j (suc fuel) conn ≡ packet_reader j fuel conn'
  unfolding packet_reader
  packet_reader_step fuel conn conn' pkt reader e r =
      rw (e, packet_reader)
        (rw r (ap (λ (x : Connection × Option RouteError). packet_reader j fuel x.0) r))

  -- When each message that is delivered is taken from the channel: with more fuel than there are
  -- bytes to come, the loop of `packetReader` ends, and either it has closed the channel of
  -- messages or it has ended by the panic on a body's size.
  pub packet_reader_total :
      (fuel : ℕ) (conn : Connection)
      → length conn.reader.input < fuel
      → (r : Connection × Stop) × (packet_reader j fuel conn ≡ some r)
        × ((r.1 ≡ read_stop size_panic) ⊎ (r.0.msgs_closed ≡ true))
  unfolding packet_reader
  packet_reader_total zero conn h = absurd (omega arith)
  packet_reader_total (suc fuel) conn h = elim (Result-cases (read_packet j conn.reader)) [
    | inr (e, p) ↦
        ((stopped conn (read_stop e), read_stop e), rw (p, packet_reader), read_stop-closed conn e)
    | inl ((pkt, reader), p) ↦
        elim (Option-cases (route_packet j (record conn { reader = reader }) pkt).1) [
          | inr (e, q) ↦ (
            (
              stopped (route_packet j (record conn { reader = reader }) pkt).0 (route_stop e),
              route_stop e,
            ),
            rw (p, packet_reader) (rw q),
            inr refl,
          )
          | inl q ↦
              let conn' : Connection = (route_packet j (record conn { reader = reader }) pkt).0 in
              let short : length conn'.reader.input < fuel = omega (
                arith,
                length-read_packet j conn.reader reader pkt p,
                ap (λ (x : Connection × Option RouteError). length x.0.reader.input)
                    (route_packet-reader j reader conn pkt),
              ) in
              let (r, total, ended) = packet_reader_total fuel conn' short in
              (r, rw (p, packet_reader) (rw q total), ended)
        ]
  ]

-- The bytes of a list of packets, one behind the other.
abbrev pub wire : Json → List Packet → Option Bytes
wire j [] = some []
wire j (p ∷ ps) = elim (packet_bytes j p) [
  | none ↦ none
  | some bs ↦ elim (wire j ps) [ none ↦ none | some rest ↦ some (bs ++ rest) ]
]

-- A packet that a reader accepts, as far as its numbers, sizes and texts go.
pub record IsSendable (j : Json) (p : Packet) : Type 0 where
  pub plain : IsPlain j p.packet_header
  pub number_fits : p.msg_no < two_64
  pub bytes_fit : (bs : Bytes) → packet_bytes j p ≡ some bs → length bs ≤ max_alloc

pub wire_cons :
    (j : Json) (p : Packet) (ps : List Packet) {bytes : Bytes}
    → wire j (p ∷ ps) ≡ some bytes
    → (bs : Bytes) × (rest : Bytes) × (packet_bytes j p ≡ some bs)
      × (wire j ps ≡ some rest)
      × (bytes ≡ bs ++ rest)
wire_cons j p ps e = elim (Option-cases (packet_bytes j p)) [
  | inl p_none ↦ absurd (ground arith)
  | inr (bs, p_some) ↦ elim (Option-cases (wire j ps)) [
    | inl w_none ↦ absurd (ground arith)
    | inr (rest, w_some) ↦ (bs, rest, p_some, w_some, ground arith)
  ]
]

route_all_stop :
    (j : Json) (p : Packet) (ps : List Packet) (conn : Connection) (e : RouteError)
    → (route_packet j conn p).1 ≡ some e
    → (route_all j (p ∷ ps) conn).1 ≡ some e
unfolding route_all
route_all_stop j p ps conn e bad = rw (bad, route_all) bad

-- A list of packets that is routed whole: the first one, then the others.
route_all_cons :
    (j : Json) (p : Packet) (ps : List Packet) (conn conn' : Connection)
    → route_all j (p ∷ ps) conn ≡ (conn', none)
    → (conn1 : Connection) × (route_packet j conn p ≡ (conn1, none))
      × (route_all j ps conn1 ≡ (conn', none))
route_all_cons j p ps conn conn' r = elim (Option-cases (route_packet j conn p).1) [
  | inl e ↦
      let step : route_packet j conn p ≡ ((route_packet j conn p).0, none) =
        λ i. ((route_packet j conn p).0, e i) in
      ((route_packet j conn p).0, step, sym (route_all_step j p ps conn step) ∙ r)
  | inr (e, bad) ↦ absurd (refused e bad)
]
  where
    refused : (e : RouteError) → (route_packet j conn p).1 ≡ some e → ⊥
    refused e bad = cc (
        sym (route_all_stop j p ps conn e bad) ∙ ap (λ (x : Connection × Option RouteError). x.1) r)

module _ (j : Json) (reader : Reader) where
  route_all-reader :
      (ps : List Packet) (conn conn' : Connection)
      → route_all j ps conn ≡ (conn', none)
      → route_all j ps (record conn { reader = reader }) ≡ (record conn' { reader = reader }, none)
  unfolding route_all
  route_all-reader [] conn conn' r = λ i. (record (r i).0 { reader = reader }, none)
  route_all-reader (p ∷ ps) conn conn' r =
      let (conn1, step, steps) = route_all_cons j p ps conn conn' r in
      route_all_step j p ps (record conn { reader = reader })
        (route_packet-reader j reader conn p ∙ ap (with_reader reader) step)
      ∙ route_all-reader ps conn1 conn' steps

module _ (j : Json) (laws : Laws j) where
  pub packet_reader-wire :
      (ps : List Packet) (fuel fuel' : ℕ) (conn conn' : Connection) (bytes rest : Bytes)
      → fuel' ≡ length ps + fuel
      → All (IsSendable j) ps
      → wire j ps ≡ some bytes
      → conn.reader.input ≡ bytes ++ rest
      → route_all j (map received ps) conn ≡ (conn', none)
      → (seen : ℕ) × (packet_reader j fuel' conn
          ≡ packet_reader j fuel (record conn' { reader = record { input = rest; seen = seen } }))
  unfolding route_all
  packet_reader-wire [] fuel fuel' conn conn' bytes rest n h w i r =
      let same : fuel' ≡ fuel = omega arith in
      let input : conn.reader.input ≡ rest = i ∙ ap (λ b. b ++ rest) (sym (some_eq w)) in
      (
        conn.reader.seen,
        λ k.
            packet_reader j (same k)
              (record (r k).0 { reader = record { input = input k; seen = conn.reader.seen } }),
      )
  packet_reader-wire (p ∷ ps) fuel fuel' conn conn' bytes rest n h w i r =
      let (bs, more, e1, e2, same) = wire_cons j p ps w in
      let (conn1, step, steps) = route_all_cons j (received p) (map received ps) conn conn' r in
      let reader : Reader = record {
        input = more ++ rest;
        seen = (conn.reader.seen + 1) % two_64;
      } in
      let input : conn.reader.input ≡ bs ++ (more ++ rest) =
        i ∙ ap (λ b. b ++ rest) same ∙ append_assoc bs more rest in
      let reads : read_packet j conn.reader ≡ ok (received p, reader) =
        ap (λ s. read_packet j (record { input = s; seen = conn.reader.seen })) input
        ∙ read_packet-packet_bytes j laws p bs (more ++ rest) conn.reader.seen h.0.plain
            h.0.number_fits (h.0.bytes_fit bs e1) e1 in
      let routes : route_packet j (record conn { reader = reader }) (received p)
          ≡ (record conn1 { reader = reader }, none) =
        route_packet-reader j reader conn (received p) ∙ ap (with_reader reader) step in
      let fuel_left : fuel' ≡ suc (length ps + fuel) = omega arith in
      let (seen, ih) =
        packet_reader-wire ps fuel (length ps + fuel) (record conn1 { reader = reader })
          (record conn' { reader = reader }) more rest refl h.1 e2 refl
          (route_all-reader j reader (map received ps) conn1 conn' steps) in
      (
        seen,
        ap (λ f. packet_reader j f conn) fuel_left
            ∙ packet_reader_step j (length ps + fuel) conn (record conn1 { reader = reader })
                (received p) reader reads routes
            ∙ ih,
      )
