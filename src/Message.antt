-- ===== src/Message.antt =====
-- scamp/message.go: a message, its packets, and the packets that it is sent as.
-- A message is a value: the code's pointers to packets are shared by one message only.
-- `json.NewEncoder(..).Encode(data)` enters `write_json` as its outcome, a text or an error's text.
pub mod Chunks
use scamp_go.Base.{
  ℕ, zero, suc, ◌+◌, ◌%◌, ◌*◌, ◌<◌, Bool, true, false, List, [], ◌∷◌, ◌++◌, map, Option, none, some,
  ltb, if◌then◌else◌, Bytes, length, take, drop,
}
use scamp_go.Base.Decimal.{two_64}
use scamp_go.Base.Result.{Result, ok, err}
use scamp_go.Header.{
  PacketHeader, EnvelopeFormat, json, MessageType, request, reply, unknown_type, empty_header,
}
use scamp_go.Packet.{Packet, header_type, data_type, eof_type}

pub record Message : Type 0 where
  pub action : Bytes
  pub envelope : EnvelopeFormat
  pub request_id : ℕ
  pub client_id : ℕ
  pub version : ℕ
  pub message_type : MessageType
  pub packets : List Packet
  pub bytes_written : ℕ
  pub ticket : Bytes
  pub identifying_token : Bytes
  pub error : Bytes
  pub error_code : Bytes

abbrev pub new_message : Message
new_message = record {
  action = [];
  envelope = json;
  request_id = 0;
  client_id = 0;
  version = 0;
  message_type = unknown_type 0;
  packets = [];
  bytes_written = 0;
  ticket = [];
  identifying_token = [];
  error = [];
  error_code = [];
}

abbrev pub set_action : Message → Bytes → Message
set_action msg action = record msg { action = action }

abbrev pub set_envelope : Message → EnvelopeFormat → Message
set_envelope msg env = record msg { envelope = env }

abbrev pub set_version : Message → ℕ → Message
set_version msg version = record msg { version = version }

abbrev pub set_message_type : Message → MessageType → Message
set_message_type msg type = record msg { message_type = type }

abbrev pub set_request_id : Message → ℕ → Message
set_request_id msg id = record msg { request_id = id }

abbrev pub set_client_id : Message → ℕ → Message
set_client_id msg id = record msg { client_id = id }

abbrev pub set_ticket : Message → Bytes → Message
set_ticket msg ticket = record msg { ticket = ticket }

abbrev pub set_identifying_token : Message → Bytes → Message
set_identifying_token msg token = record msg { identifying_token = token }

abbrev pub set_error : Message → Bytes → Message
set_error msg error = record msg { error = error }

abbrev pub set_error_code : Message → Bytes → Message
set_error_code msg code = record msg { error_code = code }

abbrev pub new_request_message : Message
new_request_message = set_message_type new_message request

abbrev pub new_response_message : Message
new_response_message = set_message_type new_message reply

abbrev pub data_packet : Bytes → Packet
data_packet body = record {
  packet_type = data_type;
  msg_no = 0;
  packet_header = empty_header;
  body = body;
}

-- `Message.Write`: a DATA packet with the blob. The count is the blob's length.
unfoldable pub write : Message → Bytes → Message × ℕ
write msg blob = (
  record msg {
    bytes_written = (msg.bytes_written + length blob) % two_64;
    packets = msg.packets ++ data_packet blob ∷ [];
  },
  length blob,
)

abbrev pub msg_chunk_size : ℕ
msg_chunk_size = 128 * 1024

-- The loop of `WriteJSON`: chunks of `size` bytes, and a last one that is shorter. The fuel is one
-- more than the length.
unfoldable pub split_chunks : ℕ → ℕ → Bytes → List Bytes
split_chunks zero size slice = []
split_chunks (suc fuel) size slice =
    let more = take size slice ∷ split_chunks fuel size (drop size slice) in
    if ltb (length slice) size then slice ∷ [] else more

unfoldable pub chunks : Bytes → List Bytes
unfolding split_chunks
chunks text =
    if ltb msg_chunk_size (length text)
    then split_chunks (suc (length text)) msg_chunk_size text
    else text ∷ []

-- `Message.WriteJSON`: the message, the count (which is never set) and the encoder's error.
unfoldable pub write_json : Message → Result Bytes Bytes → Message × ℕ × Option Bytes
unfolding chunks
write_json msg (err e) = (msg, 0, some e)
write_json msg (ok text) = (
  record msg {
    bytes_written = (msg.bytes_written + length text) % two_64;
    packets = msg.packets ++ map data_packet (chunks text);
  },
  0,
  none,
)

-- `Message.Bytes`.
abbrev pub bodies : List Packet → Bytes
bodies [] = []
bodies (p ∷ ps) = p.body ++ bodies ps

abbrev pub bytes : Message → Bytes
bytes msg = bodies msg.packets

-- The header that a message is sent with.
abbrev pub header_of : Message → PacketHeader
header_of msg = record {
  action = msg.action;
  envelope = msg.envelope;
  error = msg.error;
  error_code = msg.error_code;
  request_id = msg.request_id;
  client_id = msg.client_id;
  ticket = msg.ticket;
  identifying_token = msg.identifying_token;
  message_type = msg.message_type;
  version = msg.version;
}

abbrev pub header_packet : Message → ℕ → Packet
header_packet msg n = record {
  packet_type = header_type;
  msg_no = n;
  packet_header = header_of msg;
  body = [];
}

abbrev pub eof_packet : ℕ → Packet
eof_packet n = record {
  packet_type = eof_type;
  msg_no = n;
  packet_header = empty_header;
  body = [];
}

abbrev pub numbered : ℕ → Packet → Packet
numbered n pkt = record pkt { msg_no = n }

-- `Message.toPackets`: the message's own packets are renumbered in place.
unfoldable pub to_packets : Message → ℕ → Message × List Packet
to_packets msg n =
    let own = map (numbered n) msg.packets in
    (record msg { packets = own }, header_packet msg n ∷ (own ++ eof_packet n ∷ []))
