-- ===== src/Connection/Transfer.antt =====
-- scamp/connection.go: what one connection sends and another reads.
use scamp_go.Base.{
  ℕ, ◌+◌, ◌≡◌, ◌≢◌, refl, ap, sym, ◌∙◌, false, List, [], ◌∷◌, ◌++◌, map, Option, none, some, Bytes,
  All, length, append-nil,
}
use scamp_go.Header.{Json}
use scamp_go.Header.RoundTrip.{Laws}
use scamp_go.Packet.{Packet}
use scamp_go.Packet.RoundTrip.{received, received_as}
use scamp_go.Message.{Message, to_packets, numbered, eof_packet, header_packet}
use scamp_go.Connection.{Connection, SendError, send, packet_reader}
use scamp_go.Connection.Tracking.{Tracks}
use scamp_go.Connection.Delivery.{
  IsData, IsDelivered, route_all, route_all_nil, route_all-to_packets,
}
use scamp_go.Connection.Reading.{wire, IsSendable, packet_reader-wire}
use scamp_go.Connection.Sending.{send-wire}

received-numbered : (n : ℕ) (p : Packet) → IsData p → received (numbered n p) ≡ numbered n p
received-numbered n p (t, h) =
    ap (λ type. received_as type (numbered n p)) t
    ∙ (λ i. record p { msg_no = n; packet_header = sym h i })

received-own :
    (n : ℕ) (ps : List Packet)
    → All IsData ps
    → map received (map (numbered n) ps ++ eof_packet n ∷ [])
      ≡ map (numbered n) ps ++ eof_packet n ∷ []
received-own n [] h = refl
received-own n (p ∷ ps) h = λ i. received-numbered n p h.0 i ∷ received-own n ps h.1 i

-- The packets of a message are read as they were written.
received-to_packets :
    (msg : Message) (n : ℕ)
    → All IsData msg.packets
    → map received (to_packets msg n).1 ≡ (to_packets msg n).1
unfolding to_packets
received-to_packets msg n h = ap (◌∷◌ (header_packet msg n)) (received-own n msg.packets h)

-- A message with a request id, whose packets are data packets that can go on a wire, is sent on an
-- open connection whose writer works: `Send` reports no error and adds the message's wire text to
-- what was written. A connection that tracks its messages, expects the number used, and has that
-- text in front of its input reads exactly that text, for as many steps of `packetReader` as there
-- are packets: then the message has been delivered last, with the same contents and header, but
-- for the identifying token, which is lost; the messages tracked are those from before. The JSON
-- codec has the laws `Laws`.
pub packet_reader-send :
    (j : Json) (laws : Laws j) (s r : Connection) (msg : Message) (bytes rest : Bytes) (fuel : ℕ)
    → msg.request_id ≢ 0
    → s.writer.outcomes ≡ []
    → s.is_closed ≡ false
    → All IsData msg.packets
    → All (IsSendable j) (to_packets msg s.outgoingmsgno).1
    → wire j (to_packets msg s.outgoingmsgno).1 ≡ some bytes
    → Tracks r
    → r.incomingmsgno ≡ s.outgoingmsgno
    → r.reader.input ≡ bytes ++ rest
    → ((send j s msg).2 ≡ none)
      × ((send j s msg).0.writer.sent ≡ s.writer.sent ++ bytes)
      × ((r' : Connection) × (seen : ℕ) × (packet_reader j
              (length (to_packets msg s.outgoingmsgno).1 + fuel)
              r
            ≡ packet_reader j fuel (record r' { reader = record { input = rest; seen = seen } }))
          × IsDelivered r r' msg)
packet_reader-send j laws s r msg bytes rest fuel id o c d ok_packets w t n i =
    let pkts = (to_packets msg s.outgoingmsgno).1 in
    let sent = send-wire j s msg bytes id o w in
    let (r', routed, delivered) = route_all-to_packets j r msg [] t d in
    let same : (to_packets msg r.incomingmsgno).1 ≡ pkts = ap (λ k. (to_packets msg k).1) n in
    let all_routed : route_all j (map received pkts) r ≡ (r', none) =
      ap (λ ps. route_all j ps r)
        (received-to_packets msg s.outgoingmsgno d
          ∙ sym same
          ∙ sym (append-nil (to_packets msg r.incomingmsgno).1))
      ∙ routed
      ∙ route_all_nil j r' in
    let (seen, read) =
      packet_reader-wire j laws pkts fuel (length pkts + fuel) r r' bytes rest refl ok_packets w i
        all_routed in
    (
      ap (λ (x : Connection × Message × Option SendError). x.2) sent ∙ rw c,
      ap (λ (x : Connection × Message × Option SendError). x.0.writer.sent) sent,
      (r', seen, read, delivered),
    )
