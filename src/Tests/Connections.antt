-- ===== src/Tests/Connections.antt =====
-- Messages and connections at concrete inputs.
use scamp_go.Base.{
  ℕ, ◌+◌, ◌≡◌, refl, sym, ◌∙◌, subst, some_eq, true, [], ◌∷◌, ◌++◌, map, none, some, arith, Bytes,
  codes, length, All, ◌≤◌, nat_eq,
}
use scamp_go.Base.Decimal.{format_uint, format_int}
use scamp_go.Header.{request, write_header}
use scamp_go.Packet.{Packet, packet_bytes, header_line, bytes_of_type, body_bytes, max_alloc}
use scamp_go.Message.{
  Message, new_message, data_packet, header_packet, eof_packet, numbered, to_packets,
}
use scamp_go.Connection.{
  Connection, new_connection, route_packet, packet_reader, send, connection_closed,
}
use scamp_go.Connection.Tracking.{Tracks, route_packet-Tracks}
use scamp_go.Connection.Delivery.{IsData, IsDelivered, route_all, route_all-to_packets}
use scamp_go.Connection.Reading.{wire, IsSendable}
use scamp_go.Connection.Sending.{send-wire, send-broken, broken_pipe, working}
use scamp_go.Connection.Transfer.{packet_reader-send}
use scamp_go.Tests.Codec.{codec, codec-Laws}
use scamp_go.Tests.Wire.{got, hello, hello_bytes, empty_IsPlain}

abbrev pub sample : Message
sample = record new_message {
  action = codes "do";
  request_id = 7;
  message_type = request;
  identifying_token = codes "tok";
  version = 1;
  packets = data_packet (codes "hi") ∷ [];
  bytes_written = 2;
}

abbrev pub fresh : Connection
fresh = new_connection (record { input = []; seen = 0 }) (working [])

fresh_Tracks : Tracks fresh
fresh_Tracks = record { tracked = tt; delivered = tt }

route_packet-Tracks_example : Tracks (route_packet codec fresh hello).0
route_packet-Tracks_example = route_packet-Tracks codec fresh hello (omega arith) fresh_Tracks

sample_IsData : All IsData sample.packets
sample_IsData = ((refl, refl), tt)

route_all-to_packets_example :
    (conn' : Connection) × (route_all codec ((to_packets sample 0).1 ++ hello ∷ []) fresh
      ≡ route_all codec (hello ∷ []) conn')
    × IsDelivered fresh conn' sample
route_all-to_packets_example =
    route_all-to_packets codec fresh sample (hello ∷ []) fresh_Tracks sample_IsData

abbrev sample_wire : Bytes
unfolding packet_bytes header_line bytes_of_type body_bytes format_uint format_int write_header
    to_packets
sample_wire = got (wire codec (to_packets sample 0).1)

sample_wired : wire codec (to_packets sample 0).1 ≡ some sample_wire
unfolding packet_bytes header_line bytes_of_type body_bytes format_uint format_int write_header
    to_packets
sample_wired = refl

length-sample_wire : length sample_wire ≤ 300
unfolding packet_bytes header_line bytes_of_type body_bytes format_uint format_int write_header
    to_packets
length-sample_wire = omega arith

fits :
    (p : Packet) (known bs : Bytes)
    → packet_bytes codec p ≡ some known
    → length known ≤ max_alloc
    → packet_bytes codec p ≡ some bs
    → length bs ≤ max_alloc
fits p known bs e l e' = subst (λ b. length b ≤ max_alloc) (some_eq (sym e ∙ e')) l

sample-IsSendable : All (IsSendable codec) (to_packets sample 0).1
unfolding packet_bytes header_line bytes_of_type body_bytes format_uint format_int write_header
    to_packets
sample-IsSendable = (
  record {
    plain = record {
      action_valid = refl;
      error_valid = refl;
      error_code_valid = refl;
      ticket_valid = refl;
      token_valid = refl;
      request_id_fits = omega arith;
      client_id_fits = omega arith;
      version_fits = omega arith;
    };
    number_fits = omega arith;
    bytes_fit = λ bs e.
        fits (header_packet sample 0) (got (packet_bytes codec (header_packet sample 0))) bs refl
          (omega arith) e;
  },
  (
    record {
      plain = empty_IsPlain;
      number_fits = omega arith;
      bytes_fit = λ bs e.
          fits (numbered 0 (data_packet (codes "hi")))
            (got (packet_bytes codec (numbered 0 (data_packet (codes "hi"))))) bs refl (omega arith)
            e;
    },
    (
      record {
        plain = empty_IsPlain;
        number_fits = omega arith;
        bytes_fit = λ bs e.
            fits (eof_packet 0) (got (packet_bytes codec (eof_packet 0))) bs refl (omega arith) e;
      },
      tt,
    ),
  ),
)

abbrev sample_input : Connection
sample_input = new_connection (record { input = sample_wire ++ hello_bytes; seen = 0 }) (working [])

packet_reader-send_example :
    ((send codec fresh sample).2 ≡ none)
    × ((send codec fresh sample).0.writer.sent ≡ sample_wire)
    × ((r' : Connection) × (seen : ℕ) × (packet_reader codec
            (length (to_packets sample 0).1 + 50)
            sample_input
          ≡ packet_reader codec 50
              (record r' { reader = record { input = hello_bytes; seen = seen } }))
        × IsDelivered sample_input r' sample)
packet_reader-send_example =
    packet_reader-send codec codec-Laws fresh sample_input sample sample_wire hello_bytes 50
      (λ e. ground arith) refl refl sample_IsData sample-IsSendable sample_wired
      (record { tracked = tt; delivered = tt }) refl refl

send-wire_example : send codec (record fresh { is_closed = true }) sample ≡ (
  record fresh { is_closed = true; outgoingmsgno = 1; writer = working sample_wire },
  (to_packets sample 0).0,
  some connection_closed,
)
send-wire_example =
    send-wire codec (record fresh { is_closed = true }) sample sample_wire (λ e. ground arith) refl
      sample_wired

abbrev broken_conn : Connection
broken_conn = record fresh {
  writer = record { sent = codes "x"; outcomes = broken_pipe ∷ broken_pipe ∷ broken_pipe ∷ [] };
}

three_packets : broken_conn.writer.outcomes ≡ map (λ p. broken_pipe) (to_packets sample 0).1
unfolding to_packets
three_packets = refl

send-broken_example :
    ((send codec broken_conn sample).2 ≡ none)
    × ((send codec broken_conn sample).0.writer.sent ≡ codes "x")
    × ((send codec broken_conn sample).0.outgoingmsgno ≡ 1)
send-broken_example =
    send-broken codec broken_conn sample sample_wire (λ e. ground arith) refl sample_wired
      three_packets
