-- ===== src/Connection.antt =====
-- scamp/connection.go: a connection: routing of the packets that come in, the loop that reads them,
-- and sending.
-- A connection is a value with the input that is still to come, a writer (which stands for the
-- buffered writer and the TLS connection behind it), and the messages put on its channel so far.
-- The debugger's tee (`enableWriteTee`) is off. Calls of one connection are in sequence: the mutexes
-- are not modelled. What is put on the channel is taken as received at once: in the code, whose channel
-- has no buffer, the loop waits at the send until the client's loop takes the message. The buffered writer,
-- its flush and TLS are one writer, whose errors are those of its calls.
pub mod Tracking
pub mod Delivery
pub mod Reading
pub mod Sending
pub mod Transfer
use scamp_go.Base.{
  ℕ, zero, suc, ◌+◌, ◌%◌, ◌<◌, Bool, true, false, not, ◌&&◌, ◌||◌, List, [], ◌∷◌, ◌++◌, map, Option,
  none, some, ltb, ◌==◌, is_none, if◌then◌else◌, Bytes, codes, bytes_eq, length, nat_eq,
}
use scamp_go.Base.Decimal.{two_64, format_uint}
use scamp_go.Base.Dict.{lookup, insert, delete}
use scamp_go.Base.Result.{Result, ok, err}
use scamp_go.Header.{Json, PacketHeader, empty_header}
use scamp_go.Packet.Output.{Writer}
use scamp_go.Packet.{
  Packet, PacketType, header_type, data_type, eof_type, txerr_type, ack_type, other_type, Reader,
  ReadError, size_panic, read_packet, Written, WriteError, writer_error, unknown_type_error,
  header_write_error, write_packet,
}
use scamp_go.Message.{
  Message, new_message, set_action, set_envelope, set_version, set_message_type, set_request_id,
  set_client_id, set_error, set_error_code, set_ticket, write, to_packets,
}

pub record Connection : Type 0 where
  pub reader : Reader
  pub writer : Writer
  pub incomingmsgno : ℕ
  pub outgoingmsgno : ℕ
  pub pkt_to_msg : List (ℕ × Message)
  -- The messages sent on the channel `msgs`, and whether it has been closed.
  pub msgs : List Message
  pub msgs_closed : Bool
  pub is_closed : Bool

-- `NewConnection`, over the two ends of a TLS connection.
abbrev pub new_connection : Reader → Writer → Connection
new_connection reader writer = record {
  reader = reader;
  writer = writer;
  incomingmsgno = 0;
  outgoingmsgno = 0;
  pkt_to_msg = [];
  msgs = [];
  msgs_closed = false;
  is_closed = false;
}

pub data RouteError : Type 0 where
  out_of_sequence already_tracking not_tracking unknown_eof : RouteError

abbrev pub ack_packet : ℕ → ℕ → Packet
ack_packet n count = record {
  packet_type = ack_type;
  msg_no = n;
  packet_header = empty_header;
  body = format_uint count;
}

-- The message that a HEADER packet starts. The identifying token is not copied.
abbrev pub message_of : PacketHeader → Message
message_of h =
    set_ticket
      (set_error_code
        (set_error
          (set_client_id
            (set_request_id
              (set_message_type
                (set_version (set_envelope (set_action new_message h.action) h.envelope) h.version)
                h.message_type)
              h.request_id)
            h.client_id)
          h.error)
        h.error_code)
      h.ticket

unfoldable pub route_header : Connection → Packet → Connection × Option RouteError
route_header conn pkt =
    if not (pkt.msg_no == conn.incomingmsgno)
    then (conn, some out_of_sequence)
    else if not (is_none (lookup pkt.msg_no conn.pkt_to_msg))
    then (conn, some already_tracking)
    else (
      record conn {
        pkt_to_msg = insert pkt.msg_no (message_of pkt.packet_header) conn.pkt_to_msg;
        incomingmsgno = (conn.incomingmsgno + 1) % two_64;
      },
      none,
    )

-- A message leaves the map and goes to the channel.
unfoldable pub deliver : Connection → ℕ → Message → Connection
deliver conn n msg = record conn {
  pkt_to_msg = delete n conn.pkt_to_msg;
  msgs = conn.msgs ++ msg ∷ [];
}

unfoldable pub route_eof : Connection → Packet → Connection × Option RouteError
route_eof conn pkt = elim (lookup pkt.msg_no conn.pkt_to_msg) [
  | none ↦ (conn, some unknown_eof)
  | some msg ↦ (deliver conn pkt.msg_no msg, none)
]

abbrev pub txerr_text : Bytes → Bytes
txerr_text [] = codes "There was an unkown error with the connection"
txerr_text (c ∷ s) = c ∷ s

module _ (j : Json) where
  -- `ackBytes`; its error is not looked at by its callers.
  unfoldable pub ack_bytes : Connection → ℕ → ℕ → Connection
  ack_bytes conn n count = record conn {
    writer = (write_packet j (ack_packet n count) conn.writer).0;
  }

  unfoldable pub route_data : Connection → Packet → Connection × Option RouteError
  route_data conn pkt = elim (lookup pkt.msg_no conn.pkt_to_msg) [
    | none ↦ (conn, some not_tracking)
    | some msg ↦
        let msg' = (write msg pkt.body).0 in
        (
          ack_bytes (record conn { pkt_to_msg = insert pkt.msg_no msg' conn.pkt_to_msg }) pkt.msg_no
              msg'.bytes_written,
          none,
        )
  ]

  unfoldable pub route_txerr : Connection → Packet → Connection × Option RouteError
  route_txerr conn pkt = elim (lookup pkt.msg_no conn.pkt_to_msg) [
    | none ↦ (conn, some unknown_eof)
    | some msg ↦
        let msg' = (write (set_error msg (txerr_text pkt.body)) pkt.body).0 in
        (deliver (ack_bytes conn pkt.msg_no msg'.bytes_written) pkt.msg_no msg', none)
  ]

  unfoldable pub route_as : PacketType → Connection → Packet → Connection × Option RouteError
  route_as header_type conn pkt = route_header conn pkt
  route_as data_type conn pkt = route_data conn pkt
  route_as eof_type conn pkt = route_eof conn pkt
  route_as txerr_type conn pkt = route_txerr conn pkt
  route_as ack_type conn pkt = (conn, none)
  route_as (other_type n) conn pkt = (conn, none)

  -- `routePacket`.
  unfoldable pub route_packet : Connection → Packet → Connection × Option RouteError
  route_packet conn pkt = route_as pkt.packet_type conn pkt

-- Why the reading loop ends.
pub data Stop : Type 0 where
  read_stop : ReadError → Stop
  route_stop : RouteError → Stop

-- The channel is closed behind the loop; a panic in the loop ends the program instead.
abbrev pub stopped : Connection → Stop → Connection
stopped conn (read_stop size_panic) = conn
stopped conn _ = record conn { msgs_closed = true }

module _ (j : Json) where
  -- `packetReader`: `none` means that the fuel ran out.
  unfoldable pub packet_reader : ℕ → Connection → Option (Connection × Stop)
  packet_reader zero conn = none
  packet_reader (suc fuel) conn = elim (read_packet j conn.reader) [
    | err e ↦ some (stopped conn (read_stop e), read_stop e)
    | ok (pkt, reader) ↦
        let routed = route_packet j (record conn { reader = reader }) pkt in
        elim routed.1 [
          | some e ↦ some (stopped routed.0 (route_stop e), route_stop e)
          | none ↦ packet_reader fuel routed.0
        ]
  ]

pub data SendError : Type 0 where
  nil_connection connection_closed no_request_id : SendError
  too_many_retries : WriteError → SendError

-- `strings.HasPrefix` and `strings.Contains`.
abbrev pub has_prefix : Bytes → Bytes → Bool
has_prefix s [] = true
has_prefix [] (p ∷ ps) = false
has_prefix (c ∷ s) (p ∷ ps) = c == p && has_prefix s ps

abbrev pub contains : Bytes → Bytes → Bool
contains [] sub = has_prefix [] sub
contains (c ∷ s) sub = has_prefix (c ∷ s) sub || contains s sub

-- The errors after which `Send` gives a packet up without saying so.
abbrev pub is_gone : WriteError → Bool
is_gone (writer_error e) =
    contains e (codes "use of closed connection") || contains e (codes "broken pipe")
is_gone _ = false

abbrev pub retry_limit : ℕ
retry_limit = 50

module _ (j : Json) where
  -- The loop around `Packet.Write`, with the number of retries that are left.
  unfoldable pub write_retrying : ℕ → Packet → Writer → Writer × Option SendError
  write_retrying zero pkt w =
      let r = write_packet j pkt w in
      elim r.2 [
        | none ↦ (r.0, none)
        | some e ↦ if is_gone e then (r.0, none) else (r.0, some (too_many_retries e))
      ]
  write_retrying (suc left) pkt w =
      let r = write_packet j pkt w in
      let again = write_retrying left pkt r.0 in
      elim r.2 [ none ↦ (r.0, none) | some e ↦ if is_gone e then (r.0, none) else again ]

  unfoldable pub send_packets : List Packet → Writer → Writer × Option SendError
  send_packets [] w = (w, none)
  send_packets (pkt ∷ pkts) w =
      let r = write_retrying (suc retry_limit) pkt w in
      elim r.1 [ some e ↦ (r.0, some e) | none ↦ send_packets pkts r.0 ]

  -- `Connection.Send` on a connection that is not nil. The message comes back with its packets
  -- renumbered. A closed connection is noticed, and reported only at the end.
  unfoldable pub send : Connection → Message → Connection × Message × Option SendError
  send conn msg =
      if msg.request_id == 0
      then (conn, msg, some no_request_id)
      else let (msg', pkts) = to_packets msg conn.outgoingmsgno in
        let r = send_packets pkts conn.writer in
        let failed = (if conn.is_closed then some connection_closed else none) in
        (
          record conn { outgoingmsgno = (conn.outgoingmsgno + 1) % two_64; writer = r.0 },
          msg',
          elim r.1 [ some e ↦ some e | none ↦ failed ],
        )

-- `Connection.Close`.
unfoldable pub close : Connection → Connection
close conn = if conn.is_closed then conn else record conn { is_closed = true }
