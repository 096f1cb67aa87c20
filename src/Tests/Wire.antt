-- ===== src/Tests/Wire.antt =====
-- Packets, headers, messages and connections at concrete inputs.
use scamp_go.Base.{
  All, map, length, ◌≤◌, List, ◌≡◌, refl, [], ◌∷◌, ◌++◌, Option, none, some, arith, Bytes, codes,
}
use scamp_go.Base.Decimal.{format_uint, format_int, parse_uint, parse_int}
use scamp_go.Base.Result.{ok, err}
use scamp_go.Header.{parse_header, PacketHeader, empty_header, request, write_header}
use scamp_go.Header.RoundTrip.{IsPlain, parse_header-write_header}
use scamp_go.Message.{new_message, write_json, bytes, data_packet, msg_chunk_size}
use scamp_go.Message.Chunks.{bytes-write_json}
use scamp_go.Packet.Line.{read_line}
use scamp_go.Packet.Scan.{scan_header_line, scan_word, scan_blank, scan_uint, scan_int}
use scamp_go.Packet.Output.{Writer, fails, accepts}
use scamp_go.Packet.{
  Packet, data_type, Reader, read_packet, packet_bytes, write_packet, read_full, with_header,
  type_of_bytes, header_line, bytes_of_type, body_bytes, size_panic,
}
use scamp_go.Packet.RoundTrip.{received, read_packet-packet_bytes}
use scamp_go.Packet.Written.{HasWritten, write_packet-HasWritten}
use scamp_go.Tests.Codec.{codec, codec-Laws}

abbrev pub got : Option Bytes → Bytes
got none = []
got (some bs) = bs

abbrev pub sample_header : PacketHeader
sample_header = record empty_header {
  action = codes "do";
  request_id = 7;
  message_type = request;
  identifying_token = codes "tok";
  version = 1;
}

abbrev pub sample_text : Bytes
unfolding write_header
sample_text = got (write_header codec sample_header)

sample_written : write_header codec sample_header ≡ some sample_text
unfolding write_header
sample_written = refl

pub sample_IsPlain : IsPlain codec sample_header
sample_IsPlain = record {
  action_valid = refl;
  error_valid = refl;
  error_code_valid = refl;
  ticket_valid = refl;
  token_valid = refl;
  request_id_fits = omega arith;
  client_id_fits = omega arith;
  version_fits = omega arith;
}

parse_header-write_header_example : parse_header codec sample_text ≡ some sample_header
parse_header-write_header_example =
    parse_header-write_header codec codec-Laws sample_header sample_text sample_IsPlain
      sample_written

bytes-write_json_example :
    (bytes (write_json new_message (ok (codes "[1]"))).0 ≡ bytes new_message ++ codes "[1]")
    × ((cs : List Bytes) × ((write_json new_message (ok (codes "[1]"))).0.packets
          ≡ new_message.packets ++ map data_packet cs)
        × All (λ c. length c ≤ msg_chunk_size) cs)
bytes-write_json_example = bytes-write_json new_message (codes "[1]")

abbrev pub hello : Packet
hello = record {
  packet_type = data_type;
  msg_no = 3;
  packet_header = empty_header;
  body = codes "hello";
}

abbrev pub hello_bytes : Bytes
hello_bytes = codes "DATA 3 5\r\nhelloEND\r\n"

hello_written : packet_bytes codec hello ≡ some hello_bytes
unfolding packet_bytes header_line bytes_of_type body_bytes format_uint format_int
hello_written = refl

pub empty_IsPlain : IsPlain codec empty_header
empty_IsPlain = record {
  action_valid = refl;
  error_valid = refl;
  error_code_valid = refl;
  ticket_valid = refl;
  token_valid = refl;
  request_id_fits = omega arith;
  client_id_fits = omega arith;
  version_fits = omega arith;
}

read_packet-packet_bytes_example :
    read_packet codec (record { input = hello_bytes ++ codes "ACK"; seen = 4 })
    ≡ ok (received hello, record { input = codes "ACK"; seen = 5 })
read_packet-packet_bytes_example =
    read_packet-packet_bytes codec codec-Laws hello hello_bytes (codes "ACK") 4 empty_IsPlain
      (omega arith) (omega arith) hello_written

abbrev hello_reader : Reader
hello_reader = record { input = hello_bytes; seen = 0 }

abbrev hello_read : Reader
hello_read = record { input = []; seen = 1 }

-- A negative size in the header line is a panic.
negative_size :
    read_packet codec (record { input = codes "DATA 0 -1\r\nEND\r\n"; seen = 0 }) ≡ err size_panic
unfolding read_packet read_line scan_header_line scan_word scan_blank scan_uint scan_int read_full
    with_header type_of_bytes parse_uint parse_int
negative_size = refl

abbrev faulty : Writer
faulty = record { sent = []; outcomes = accepts ∷ fails 2 (codes "reset") ∷ [] }

write_packet-HasWritten_example : HasWritten faulty hello_bytes 0 (write_packet codec hello faulty)
write_packet-HasWritten_example = write_packet-HasWritten codec hello faulty hello_written
