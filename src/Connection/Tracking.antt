-- ===== src/Connection/Tracking.antt =====
-- scamp/connection.go: the messages that a connection tracks while their packets come in.
use scamp_go.Base.{
  ℕ, ◌+◌, ◌≤◌, ◌<◌, ◌≡◌, ◌≢◌, refl, List, [], ◌∷◌, none, some, arith, ◌==◌, All, All-append,
  Option-cases, Bool-cases, inl, inr, nat_eq,
}
use scamp_go.Base.Decimal.{two_64}
use scamp_go.Base.Dict.{lookup, insert-All, delete-All, lookup-All}
use scamp_go.Header.{Json}
use scamp_go.Packet.{
  Packet, PacketType, header_type, data_type, eof_type, txerr_type, ack_type, other_type,
}
use scamp_go.Message.{Message, set_error}
use scamp_go.Message.Chunks.{IsCounted, write-IsCounted}
use scamp_go.Connection.{
  Connection, already_tracking, ack_bytes, deliver, route_header, route_data, route_eof,
  route_txerr, route_as, route_packet, txerr_text,
}

-- A tracked message: its number has been handed out, and its count is the length of its contents.
abbrev pub IsTracked : ℕ → ℕ × Message → Type 0
IsTracked next e = (e.0 < next) × IsCounted e.1

pub record Tracks (conn : Connection) : Type 0 where
  pub tracked : All (IsTracked conn.incomingmsgno) conn.pkt_to_msg
  pub delivered : All IsCounted conn.msgs

IsTracked-mono :
    (n k : ℕ) (m : List (ℕ × Message)) → n ≤ k → All (IsTracked n) m → All (IsTracked k) m
IsTracked-mono n k [] b h = tt
IsTracked-mono n k (e ∷ m) b h = ((omega arith, h.0.1), IsTracked-mono n k m b h.1)

-- The next number is not in the map.
pub lookup_next :
    (conn : Connection) → Tracks conn → lookup conn.incomingmsgno conn.pkt_to_msg ≡ none
lookup_next conn t = elim (Option-cases (lookup conn.incomingmsgno conn.pkt_to_msg)) [
  | inl e ↦ e
  | inr (msg, e) ↦ absurd (
      omega (
        arith,
        (lookup-All (IsTracked conn.incomingmsgno) conn.incomingmsgno conn.pkt_to_msg t.tracked
            e).0,
      ))
]

module _ (j : Json) where
  route_header-Tracks :
      (conn : Connection) (pkt : Packet)
      → conn.incomingmsgno + 1 < two_64
      → Tracks conn
      → Tracks (route_header conn pkt).0
  unfolding route_header
  route_header-Tracks conn pkt b t = elim (Bool-cases (pkt.msg_no == conn.incomingmsgno)) [
    | inr other ↦ rw (other, route_header) t
    | inl next ↦ elim (Option-cases (lookup pkt.msg_no conn.pkt_to_msg)) [
      | inr (msg, e) ↦ rw (next, e, route_header) t
      | inl e ↦
          rw (next, e, route_header)
            (record {
              tracked =
                  insert-All _ pkt.msg_no _ conn.pkt_to_msg (ground arith, refl)
                    (IsTracked-mono conn.incomingmsgno _ conn.pkt_to_msg (omega arith) t.tracked);
              delivered = t.delivered;
            })
    ]
  ]

  route_data-Tracks :
      (conn : Connection) (pkt : Packet) → Tracks conn → Tracks (route_data j conn pkt).0
  unfolding route_data ack_bytes
  route_data-Tracks conn pkt t = elim (Option-cases (lookup pkt.msg_no conn.pkt_to_msg)) [
    | inl e ↦ rw (e, route_data) t
    | inr (msg, e) ↦
        let h = lookup-All (IsTracked conn.incomingmsgno) pkt.msg_no conn.pkt_to_msg t.tracked e in
        rw (e, route_data)
          (record {
            tracked =
                insert-All (IsTracked conn.incomingmsgno) pkt.msg_no _ conn.pkt_to_msg
                  (h.0, (write-IsCounted msg pkt.body h.1).0) t.tracked;
            delivered = t.delivered;
          })
  ]

  deliver-Tracks :
      (conn : Connection) (n : ℕ) (msg : Message)
      → IsCounted msg
      → Tracks conn
      → Tracks (deliver conn n msg)
  unfolding deliver
  deliver-Tracks conn n msg h t = record {
    tracked = delete-All (IsTracked conn.incomingmsgno) n conn.pkt_to_msg t.tracked;
    delivered = All-append IsCounted conn.msgs (msg ∷ []) t.delivered (h, tt);
  }

  route_eof-Tracks :
      (conn : Connection) (pkt : Packet) → Tracks conn → Tracks (route_eof conn pkt).0
  unfolding route_eof
  route_eof-Tracks conn pkt t = elim (Option-cases (lookup pkt.msg_no conn.pkt_to_msg)) [
    | inl e ↦ rw (e, route_eof) t
    | inr (msg, e) ↦
        rw (e, route_eof)
          (deliver-Tracks conn pkt.msg_no msg
            (lookup-All (IsTracked conn.incomingmsgno) pkt.msg_no conn.pkt_to_msg t.tracked e).1 t)
  ]

  route_txerr-Tracks :
      (conn : Connection) (pkt : Packet) → Tracks conn → Tracks (route_txerr j conn pkt).0
  unfolding route_txerr ack_bytes
  route_txerr-Tracks conn pkt t = elim (Option-cases (lookup pkt.msg_no conn.pkt_to_msg)) [
    | inl e ↦ rw (e, route_txerr) t
    | inr (msg, e) ↦
        rw (e, route_txerr)
          (deliver-Tracks _ pkt.msg_no _
            (write-IsCounted (set_error msg (txerr_text pkt.body)) pkt.body
              (lookup-All (IsTracked conn.incomingmsgno) pkt.msg_no conn.pkt_to_msg t.tracked
                e).1).0
            (record { tracked = t.tracked; delivered = t.delivered }))
  ]

  route_as-Tracks :
      (type : PacketType) (conn : Connection) (pkt : Packet)
      → conn.incomingmsgno + 1 < two_64
      → Tracks conn
      → Tracks (route_as j type conn pkt).0
  unfolding route_as
  route_as-Tracks header_type conn pkt b t = route_header-Tracks conn pkt b t
  route_as-Tracks data_type conn pkt b t = route_data-Tracks conn pkt t
  route_as-Tracks eof_type conn pkt b t = route_eof-Tracks conn pkt t
  route_as-Tracks txerr_type conn pkt b t = route_txerr-Tracks conn pkt t
  route_as-Tracks ack_type conn pkt b t = t
  route_as-Tracks (other_type n) conn pkt b t = t

  route_as-ne-already_tracking :
      (type : PacketType) (conn : Connection) (pkt : Packet)
      → Tracks conn
      → (route_as j type conn pkt).1 ≢ some already_tracking
  unfolding route_as route_header route_data route_eof route_txerr
  route_as-ne-already_tracking header_type conn pkt t = ground (arith, lookup_next conn t)
  route_as-ne-already_tracking data_type conn pkt t = ground arith
  route_as-ne-already_tracking eof_type conn pkt t = ground arith
  route_as-ne-already_tracking txerr_type conn pkt t = ground arith
  route_as-ne-already_tracking ack_type conn pkt t = ground arith
  route_as-ne-already_tracking (other_type n) conn pkt t = ground arith

  -- On a connection that tracks its messages so, routing a packet never reports that its message
  -- is tracked already.
  pub route_packet-ne-already_tracking :
      (conn : Connection) (pkt : Packet)
      → Tracks conn
      → (route_packet j conn pkt).1 ≢ some already_tracking
  unfolding route_packet
  route_packet-ne-already_tracking conn pkt t =
      route_as-ne-already_tracking pkt.packet_type conn pkt t

  -- On a connection whose incoming number does not wrap: when every message that it tracks has a
  -- number below the one it expects and counts its bytes, and every message delivered counts its
  -- bytes, this is so again after any packet has been routed.
  pub route_packet-Tracks :
      (conn : Connection) (pkt : Packet)
      → conn.incomingmsgno + 1 < two_64
      → Tracks conn
      → Tracks (route_packet j conn pkt).0
  unfolding route_packet
  route_packet-Tracks conn pkt b t = route_as-Tracks pkt.packet_type conn pkt b t
