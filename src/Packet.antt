-- ===== src/Packet.antt =====
-- scamp/packet.go: the frame of a packet on the wire, its writer and its reader.
-- A packet is a line `TYPE msgno size\r\n`, then `size` bytes, then `END\r\n`.
-- `Line` is `bufio.ReadLine` and `Scan` is `fmt.Sscanf`, as `ReadPacket` uses them.
-- The reader is the bytes still to come before the input ends, and the count of packets seen.
pub mod Line
pub mod Scan
pub mod Output
pub mod RoundTrip
pub mod Sound
pub mod Written
use scamp_go.Base.{
  ℕ, ◌+◌, ◌<◌, ◌%◌, ◌^◌, Bool, true, false, ◌&&◌, ◌||◌, List, [], ◌∷◌, ◌++◌, Option, none, some,
  leb, ltb, if◌then◌else◌, Bytes, codes, bytes_eq, length, take, drop,
}
use scamp_go.Base.Decimal.{two_64, is_negative, format_uint, format_int}
use scamp_go.Base.Result.{Result, ok, err, ◌>>=◌, ◌>>◌, guard}
use scamp_go.Header.{PacketHeader, Json, empty_header, write_header, parse_header}
use Line.{read_line}
use Scan.{scan_header_line}
use Output.{Writer, write_bytes}

-- The five types have the values 0 to 4; `other_type n` is any other int.
pub data PacketType : Type 0 where
  header_type data_type eof_type txerr_type ack_type : PacketType
  other_type : ℕ → PacketType

pub record Packet : Type 0 where
  pub packet_type : PacketType
  pub msg_no : ℕ
  pub packet_header : PacketHeader
  pub body : Bytes

pub record Reader : Type 0 where
  pub input : Bytes
  -- `packetSeenSinceBoot`
  pub seen : ℕ

-- What `ReadPacket` fails with. `size_panic` is the panic of `make` on a negative size, or on one
-- that is over what the runtime can address.
pub data ReadError : Type 0 where
  readline_error three_parts short_body missing_trailer header_error size_panic : ReadError
  unknown_packet_type : Bytes → ReadError

-- The runtime's limit on one allocation (linux/amd64).
abbrev pub max_alloc : ℕ
max_alloc = 2 ^ 48

abbrev pub the_rest_bytes : Bytes
the_rest_bytes = codes "END\r\n"

unfoldable pub type_of_bytes : Bytes → Option PacketType
type_of_bytes s =
    if bytes_eq (codes "HEADER") s
    then some header_type
    else if bytes_eq (codes "DATA") s
    then some data_type
    else if bytes_eq (codes "EOF") s
    then some eof_type
    else if bytes_eq (codes "TXERR") s
    then some txerr_type
    else if bytes_eq (codes "ACK") s
    then some ack_type
    else none

unfoldable pub bytes_of_type : PacketType → Option Bytes
bytes_of_type header_type = some (codes "HEADER")
bytes_of_type data_type = some (codes "DATA")
bytes_of_type eof_type = some (codes "EOF")
bytes_of_type txerr_type = some (codes "TXERR")
bytes_of_type ack_type = some (codes "ACK")
bytes_of_type (other_type n) = none

abbrev pub or_fail {ℓ} : {A : Type ℓ} → Option A → ReadError → Result ReadError A
or_fail none e = err e
or_fail (some a) e = ok a

-- `make([]byte, n)` and `io.ReadFull` into it.
unfoldable pub read_full : ℕ → Bytes → ReadError → Result ReadError (Bytes × Bytes)
read_full n input e = if leb n (length input) then ok (take n input, drop n input) else err e

module _ (j : Json) where
  -- The last step of `ReadPacket`: a HEADER packet's body becomes its header.
  unfoldable pub with_header : PacketType → ℕ → Bytes → Result ReadError Packet
  with_header header_type msg_no body = do
    h ← or_fail (parse_header j body) header_error
    ok (record { packet_type = header_type; msg_no = msg_no; packet_header = h; body = [] })
  with_header type msg_no body =
      ok (record { packet_type = type; msg_no = msg_no; packet_header = empty_header; body = body })

  -- `ReadPacket`.
  unfoldable pub read_packet : Reader → Result ReadError (Packet × Reader)
  read_packet r = do
    (line, input) ← or_fail (read_line r.input) readline_error
    (type_bytes, msg_no, size) ← or_fail (scan_header_line line) three_parts
    type ← or_fail (type_of_bytes type_bytes) (unknown_packet_type type_bytes)
    guard (leb size max_alloc) size_panic
    (body, rest) ← read_full size input short_body
    (trailer, rest') ← read_full 5 rest missing_trailer
    guard (bytes_eq trailer the_rest_bytes) missing_trailer
    pkt ← with_header type msg_no body
    ok (pkt, record { input = rest'; seen = (r.seen + 1) % two_64 })

  -- The bytes after the header line: the header as JSON, or the body.
  unfoldable pub body_bytes : PacketType → Packet → Option Bytes
  body_bytes header_type pkt = write_header j pkt.packet_header
  body_bytes type pkt = some pkt.body

-- `%s %d %d\r\n`
unfoldable pub header_line : Bytes → ℕ → ℕ → Bytes
header_line type_bytes msg_no size =
    type_bytes ++ b' ' ∷ (format_uint msg_no ++ b' ' ∷ (format_int size ++ b'\r' ∷ b'\n' ∷ []))

-- The errors of `Packet.Write`; a writer's error keeps its text.
pub data WriteError : Type 0 where
  unknown_type_error header_write_error : WriteError
  writer_error : Bytes → WriteError

-- The writer, `written`, and the error.
abbrev pub Written : Type 0
Written = Writer × ℕ × Option WriteError

-- What follows a call of the writer: its count is added, and its error, under a prefix, returned.
abbrev after_write : Writer × ℕ × Option Bytes → ℕ → Bytes → (Writer → ℕ → Written) → Written
after_write (w, n, some e) written prefix next = (w, written + n, some (writer_error (prefix ++ e)))
after_write (w, n, none) written prefix next = next w (written + n)

-- The three calls of the writer: header line, body, trailer.
unfoldable pub write_frame : Bytes → ℕ → Bytes → Writer → Written
unfolding write_bytes header_line
write_frame type_bytes msg_no body w =
    after_write (write_bytes w (header_line type_bytes msg_no (length body))) 0
      (codes "err writing packet header: ")
      λ w1 n1.
        after_write (write_bytes w1 body) n1 []
          λ w2 n2. after_write (write_bytes w2 the_rest_bytes) n2 [] λ w3 n3. (w3, n3, none)

-- `Packet.Write`.
unfoldable pub write_packet : Json → Packet → Writer → Written
write_packet j pkt w = elim (bytes_of_type pkt.packet_type) [
  | none ↦ (w, 0, some unknown_type_error)
  | some type_bytes ↦ elim (body_bytes j pkt.packet_type pkt) [
    | none ↦ (w, 0, some header_write_error)
    | some body ↦ write_frame type_bytes pkt.msg_no body w
  ]
]

-- The whole packet as bytes, where its type and its header can be written.
unfoldable pub packet_bytes : Json → Packet → Option Bytes
packet_bytes j pkt = elim (bytes_of_type pkt.packet_type) [
  | none ↦ none
  | some type_bytes ↦ elim (body_bytes j pkt.packet_type pkt) [
    | none ↦ none
    | some body ↦ some (header_line type_bytes pkt.msg_no (length body) ++ (body ++ the_rest_bytes))
  ]
]
