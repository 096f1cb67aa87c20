-- ===== src/Connection/Delivery.antt =====
-- scamp/connection.go: the delivery of a message whose packets come in order, on a connection that
-- tracks others too.
use scamp_go.Base.{
  ℕ, ◌+◌, ◌%◌, ◌≡◌, refl, ap, sym, ◌∙◌, List, [], ◌∷◌, ◌++◌, map, Option, none, some, ==_refl, All,
  nat_eq, length, append_assoc, append-nil,
}
use scamp_go.Base.Decimal.{two_64}
use scamp_go.Base.Dict.{lookup, insert, lookup-insert_self, insert-insert, delete-insert}
use scamp_go.Header.{Json, empty_header}
use scamp_go.Packet.{Packet, data_type}
use scamp_go.Message.{
  Message, write, bytes, bodies, to_packets, header_of, header_packet, eof_packet, numbered,
}
use scamp_go.Message.Chunks.{bytes-write, write-IsCounted, IsCounted}
use scamp_go.Connection.{
  Connection, RouteError, message_of, ack_bytes, deliver, route_header, route_data, route_eof,
  route_as, route_packet,
}
use scamp_go.Connection.Tracking.{Tracks, lookup_next}

-- What comes in on a connection, packet after packet, until one is refused.
unfoldable pub route_all : Json → List Packet → Connection → Connection × Option RouteError
route_all j [] conn = (conn, none)
route_all j (pkt ∷ pkts) conn =
    let r = route_packet j conn pkt in elim r.1 [ some e ↦ r | none ↦ route_all j pkts r.0 ]

pub route_all_nil : (j : Json) (conn : Connection) → route_all j [] conn ≡ (conn, none)
unfolding route_all
route_all_nil j conn = refl

pub route_all_step :
    (j : Json) (p : Packet) (ps : List Packet) (conn : Connection) {conn' : Connection}
    → route_packet j conn p ≡ (conn', none)
    → route_all j (p ∷ ps) conn ≡ route_all j ps conn'
unfolding route_all
route_all_step j p ps conn e =
    rw (e, route_all) (ap (λ (r : Connection × Option RouteError). route_all j ps r.0) e)

-- A message to which DATA packets were added.
absorb : Message → List Packet → Message
absorb msg [] = msg
absorb msg (p ∷ ps) = absorb (write msg p.body).0 ps

-- The packets of a message that was built by `Write` and `WriteJSON`.
abbrev pub IsData : Packet → Type 0
IsData pkt = (pkt.packet_type ≡ data_type) × (pkt.packet_header ≡ empty_header)

bytes-absorb : (msg : Message) (ps : List Packet) → bytes (absorb msg ps) ≡ bytes msg ++ bodies ps
unfolding absorb
bytes-absorb msg [] = sym (append-nil (bytes msg))
bytes-absorb msg (p ∷ ps) =
    bytes-absorb (write msg p.body).0 ps
    ∙ rw (bytes-write msg p.body) (append_assoc (bytes msg) p.body (bodies ps))

header_of-absorb : (msg : Message) (ps : List Packet) → header_of (absorb msg ps) ≡ header_of msg
unfolding absorb write
header_of-absorb msg [] = refl
header_of-absorb msg (p ∷ ps) = header_of-absorb (write msg p.body).0 ps

absorb-IsCounted : (msg : Message) (ps : List Packet) → IsCounted msg → IsCounted (absorb msg ps)
unfolding absorb
absorb-IsCounted msg [] h = h
absorb-IsCounted msg (p ∷ ps) h =
    absorb-IsCounted (write msg p.body).0 ps (write-IsCounted msg p.body h).0

-- The parts of a connection that packets of number n leave alone, but for its entry of the map.
abbrev pub Holds : ℕ → List (ℕ × Message) → List Message → ℕ → Connection → Message → Type 0
Holds n base msgs next conn m =
    (conn.pkt_to_msg ≡ insert n m base) × (conn.msgs ≡ msgs) × (conn.incomingmsgno ≡ next)

module _ (j : Json) where
  route_data-Holds :
      (n : ℕ) (base : List (ℕ × Message)) (conn : Connection) (m : Message) (p : Packet)
      → p.packet_type ≡ data_type
      → conn.pkt_to_msg ≡ insert n m base
      → (conn' : Connection) × (route_packet j conn (numbered n p) ≡ (conn', none))
        × Holds n base conn.msgs conn.incomingmsgno conn' (write m p.body).0
  unfolding route_packet route_as route_data ack_bytes
  route_data-Holds n base conn m p t e =
      let hit : lookup n conn.pkt_to_msg ≡ some m = rw e (lookup-insert_self n m base) in
      (
        ack_bytes j (record conn { pkt_to_msg = insert n (write m p.body).0 conn.pkt_to_msg }) n
            (write m p.body).0.bytes_written,
        rw t (rw (hit, route_data)),
        (rw (e, insert-insert n (write m p.body).0 m base), refl, refl),
      )

  -- All the DATA packets of a message.
  route_all-absorb :
      (n : ℕ) (base : List (ℕ × Message)) (conn : Connection) (m : Message) (ps rest : List Packet)
      → All IsData ps
      → conn.pkt_to_msg ≡ insert n m base
      → (conn' : Connection) × (route_all j (map (numbered n) ps ++ rest) conn
          ≡ route_all j rest conn')
        × Holds n base conn.msgs conn.incomingmsgno conn' (absorb m ps)
  unfolding absorb
  route_all-absorb n base conn m [] rest h e = (conn, refl, (e, refl, refl))
  route_all-absorb n base conn m (p ∷ ps) rest h e =
      let (conn1, step, (e1, d1, i1)) = route_data-Holds n base conn m p h.0.0 e in
      let (conn2, steps, (e2, d2, i2)) =
        route_all-absorb n base conn1 (write m p.body).0 ps rest h.1 e1 in
      (
        conn2,
        route_all_step j (numbered n p) (map (numbered n) ps ++ rest) conn step ∙ steps,
        (e2, d2 ∙ d1, i2 ∙ i1),
      )

  route_eof_lem :
      (n : ℕ) (base : List (ℕ × Message)) (conn : Connection) (m : Message)
      → lookup n base ≡ none
      → conn.pkt_to_msg ≡ insert n m base
      → (conn' : Connection) × (route_packet j conn (eof_packet n) ≡ (conn', none))
        × (conn'.pkt_to_msg ≡ base)
        × (conn'.msgs ≡ conn.msgs ++ m ∷ [])
        × (conn'.incomingmsgno ≡ conn.incomingmsgno)
  unfolding route_packet route_as route_eof deliver
  route_eof_lem n base conn m absent e =
      let hit : lookup n conn.pkt_to_msg ≡ some m = rw e (lookup-insert_self n m base) in
      (deliver conn n m, rw (hit, route_eof), rw (e, delete-insert n m base absent), refl, refl)

  route_header_lem :
      (conn : Connection) (msg : Message)
      → lookup conn.incomingmsgno conn.pkt_to_msg ≡ none
      → (conn' : Connection) × (route_packet j conn (header_packet msg conn.incomingmsgno)
          ≡ (conn', none))
        × Holds conn.incomingmsgno conn.pkt_to_msg conn.msgs
            ((conn.incomingmsgno + 1) % two_64)
            conn'
            (message_of (header_of msg))
  unfolding route_packet route_as route_header
  route_header_lem conn msg absent = (
    record conn {
      pkt_to_msg = insert conn.incomingmsgno (message_of (header_of msg)) conn.pkt_to_msg;
      incomingmsgno = (conn.incomingmsgno + 1) % two_64;
    },
    rw (==_refl conn.incomingmsgno, absent, route_header),
    (refl, refl, refl),
  )

-- What arrives of a message: its contents and its header, but for the identifying token.
pub record IsDelivered (conn conn' : Connection) (msg : Message) : Type 0 where
  pub got : Message
  pub msgs : conn'.msgs ≡ conn.msgs ++ got ∷ []
  pub contents : bytes got ≡ bytes msg
  pub header : header_of got ≡ record (header_of msg) { identifying_token = [] }
  pub counted : got.bytes_written ≡ length (bytes msg) % two_64
  pub tracking : conn'.pkt_to_msg ≡ conn.pkt_to_msg
  pub next : conn'.incomingmsgno ≡ (conn.incomingmsgno + 1) % two_64

-- On a connection that tracks its messages, the packets that `toPackets` makes of a message of
-- data packets, numbered with the number that the connection expects, are routed one after the
-- other with no error, and what follows is routed after them: the message has been put last on the
-- channel, with its contents, its header without the identifying token, and its count of bytes;
-- the tracked messages are those from before and the number expected next is one more.
pub route_all-to_packets :
    (j : Json) (conn : Connection) (msg : Message) (rest : List Packet)
    → Tracks conn
    → All IsData msg.packets
    → (conn' : Connection) × (route_all j ((to_packets msg conn.incomingmsgno).1 ++ rest) conn
        ≡ route_all j rest conn')
      × IsDelivered conn conn' msg
unfolding to_packets
route_all-to_packets j conn msg rest t h =
    let n = conn.incomingmsgno in
    let absent = lookup_next conn t in
    let (conn1, s1, (e1, d1, i1)) = route_header_lem j conn msg absent in
    let (conn2, s2, (e2, d2, i2)) =
      route_all-absorb j n conn.pkt_to_msg conn1 (message_of (header_of msg)) msg.packets
        (eof_packet n ∷ rest) h e1 in
    let (conn3, s3, e3, d3, i3) =
      route_eof_lem j n conn.pkt_to_msg conn2 (absorb (message_of (header_of msg)) msg.packets)
        absent e2 in
    (
      conn3,
      route_all_step j (header_packet msg n) _ conn s1
          ∙ ap (λ ps. route_all j ps conn1)
              (append_assoc (map (numbered n) msg.packets) (eof_packet n ∷ []) rest)
          ∙ s2
          ∙ route_all_step j (eof_packet n) rest conn2 s3,
      record {
        got = absorb (message_of (header_of msg)) msg.packets;
        msgs = d3 ∙ ap (λ ms. ms ++ absorb (message_of (header_of msg)) msg.packets ∷ []) (d2 ∙ d1);
        contents = bytes-absorb (message_of (header_of msg)) msg.packets;
        header = header_of-absorb (message_of (header_of msg)) msg.packets;
        counted =
            absorb-IsCounted (message_of (header_of msg)) msg.packets refl
            ∙ ap (λ b. length b % two_64) (bytes-absorb (message_of (header_of msg)) msg.packets);
        tracking = e3;
        next = i3 ∙ i2 ∙ i1;
      },
    )
