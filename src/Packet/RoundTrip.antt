-- ===== src/Packet/RoundTrip.antt =====
-- scamp/packet.go: the writing of a packet, and its reading.
use mathlib.Core.Option.{some-injective}
use scamp_go.Base.{
  ℕ, ◌+◌, ◌%◌, ◌≤◌, ◌<◌, ◌≡◌, ◌≢◌, refl, ap, subst, [], ◌∷◌, ◌++◌, Option, some, arith, Bytes,
  codes, length, take_append_self, drop_append_self, All, All-append, length-append, append_assoc,
  le→leb, Option-cases, inl, inr,
}
use scamp_go.Base.Decimal.{
  two_64, two_63, IsDigit, format_uint, format_int, format_uint-IsDigit, length-format_uint,
}
use scamp_go.Base.Decimal.RoundTrip.{format_int_small}
use scamp_go.Base.Result.{ok, ◌>>=◌}
use scamp_go.Header.{Json, empty_header}
use scamp_go.Header.RoundTrip.{Laws, IsPlain, parse_header-write_header}
use scamp_go.Packet.Line.{read_line}
use scamp_go.Packet.Line.Cut.{OneLine, read_line_crlf}
use scamp_go.Packet.Scan.Format.{IsWord, scan_header_line-format}
use scamp_go.Packet.{
  Packet, PacketType, header_type, data_type, eof_type, txerr_type, ack_type, other_type, ReadError,
  short_body, missing_trailer, max_alloc, the_rest_bytes, type_of_bytes, bytes_of_type, read_full,
  with_header, read_packet, header_line, packet_bytes, body_bytes,
}

-- The line without its end.
line_text : Bytes → ℕ → ℕ → Bytes
line_text word n size = word ++ b' ' ∷ (format_uint n ++ b' ' ∷ format_int size)

header_line-line_text :
    (word : Bytes) (n size : ℕ) (rest : Bytes)
    → header_line word n size ++ rest ≡ line_text word n size ++ b'\r' ∷ b'\n' ∷ rest
unfolding header_line line_text
header_line-line_text word n size rest = simp append_assoc

IsDigit-OneLine : (s : Bytes) → All IsDigit s → OneLine s
IsDigit-OneLine [] h = tt
IsDigit-OneLine (c ∷ s) h = (omega arith, IsDigit-OneLine s h.1)

format_int-OneLine : (n : ℕ) → n < two_63 → OneLine (format_int n)
format_int-OneLine n b =
    rw (format_int_small n b) (IsDigit-OneLine (format_uint n) (format_uint-IsDigit n))

line_text-OneLine :
    (word : Bytes) (n size : ℕ) → OneLine word → size < two_63 → OneLine (line_text word n size)
unfolding line_text
line_text-OneLine word n size h b = All-append _ word _ h (
  omega arith,
  All-append _ (format_uint n) _ (IsDigit-OneLine (format_uint n) (format_uint-IsDigit n))
      (omega arith, format_int-OneLine size b),
)

length-line_text :
    (word : Bytes) (n size : ℕ)
    → length word ≤ 6
    → n < two_64
    → size < two_63
    → length (line_text word n size) ≤ 48
unfolding line_text
length-line_text word n size w bn bs = omega (
  arith,
  length-append word (b' ' ∷ (format_uint n ++ b' ' ∷ format_int size)),
  length-append (format_uint n) (b' ' ∷ format_int size),
  length-format_uint n bn,
  length-format_uint size,
  ap length (format_int_small size bs),
)

read_line-header_line :
    (word : Bytes) (n size : ℕ) (rest : Bytes)
    → OneLine word
    → length word ≤ 6
    → n < two_64
    → size < two_63
    → read_line (header_line word n size ++ rest) ≡ some (line_text word n size, rest)
read_line-header_line word n size rest h w bn bs = rw (header_line-line_text word n size rest) (
    read_line_crlf (line_text word n size) rest (line_text-OneLine word n size h bs)
      (omega (arith, length-line_text word n size w bn bs)))

-- `io.ReadFull` of the bytes that stand in front.
read_full-append :
    (s rest : Bytes) (e : ReadError) → read_full (length s) (s ++ rest) e ≡ ok (s, rest)
unfolding read_full
read_full-append s rest e =
    rw (take_append_self s rest, drop_append_self s rest) (ground (arith, length-append s rest))

-- The five type words: they are short words on one line, and name their type.
pub record IsTypeWord (type : PacketType) (word : Bytes) : Type 0 where
  pub named : type_of_bytes word ≡ some type
  pub short : length word ≤ 6
  pub not_empty : word ≢ []
  pub is_word : IsWord word
  pub one_line : OneLine word

-- The type that a word names.
IsTypeWord-spelled :
    (type : PacketType) (a : Bytes) {word : Bytes}
    → ◌≡◌ {A = Option Bytes} (some a) (some word)
    → IsTypeWord type a
    → IsTypeWord type word
IsTypeWord-spelled type a e w = subst (IsTypeWord type) (some-injective a _ e) w

type_word :
    (type : PacketType) {word : Bytes} → bytes_of_type type ≡ some word → IsTypeWord type word
unfolding bytes_of_type type_of_bytes
type_word header_type e = IsTypeWord-spelled header_type (codes "HEADER") e (record {
  named = refl;
  short = omega arith;
  not_empty = cc;
  is_word = ground arith;
  one_line = omega arith;
})
type_word data_type e = IsTypeWord-spelled data_type (codes "DATA") e (record {
  named = refl;
  short = omega arith;
  not_empty = cc;
  is_word = ground arith;
  one_line = omega arith;
})
type_word eof_type e = IsTypeWord-spelled eof_type (codes "EOF") e (record {
  named = refl;
  short = omega arith;
  not_empty = cc;
  is_word = ground arith;
  one_line = omega arith;
})
type_word txerr_type e = IsTypeWord-spelled txerr_type (codes "TXERR") e (record {
  named = refl;
  short = omega arith;
  not_empty = cc;
  is_word = ground arith;
  one_line = omega arith;
})
type_word ack_type e = IsTypeWord-spelled ack_type (codes "ACK") e (record {
  named = refl;
  short = omega arith;
  not_empty = cc;
  is_word = ground arith;
  one_line = omega arith;
})
type_word (other_type n) e = cc

module _ (j : Json) where
  -- Reading the frame of a packet: what is left is the parse of a header's body.
  read_packet_frame :
      (type : PacketType) (word : Bytes) (n : ℕ) (body rest : Bytes) (seen : ℕ)
      → IsTypeWord type word
      → n < two_64
      → length body ≤ max_alloc
      → read_packet j (record {
        input = header_line word n (length body) ++ (body ++ (the_rest_bytes ++ rest));
        seen = seen;
      })
        ≡ (with_header j type n body >>= λ pkt.
            ok (pkt, record { input = rest; seen = (seen + 1) % two_64 }))
  unfolding read_packet line_text
  read_packet_frame type word n body rest seen w bn bs = rw (
    read_line-header_line word n (length body) (body ++ (the_rest_bytes ++ rest)) w.one_line w.short
        bn (omega arith),
    scan_header_line-format word n (length body) w.not_empty w.is_word bn (omega arith),
    w.named,
    le→leb (length body) max_alloc bs,
    read_full-append body (the_rest_bytes ++ rest) short_body,
    read_full-append the_rest_bytes rest missing_trailer,
  )

-- What the reader makes of a packet: a HEADER packet has no body, any other no header.
abbrev pub received_as : PacketType → Packet → Packet
received_as header_type pkt = record pkt { body = [] }
received_as _ pkt = record pkt { packet_header = empty_header }

abbrev pub received : Packet → Packet
received pkt = received_as pkt.packet_type pkt

module _ (j : Json) (laws : Laws j) where
  with_header-body_bytes :
      (type : PacketType) (pkt : Packet) (body : Bytes)
      → pkt.packet_type ≡ type
      → IsPlain j pkt.packet_header
      → body_bytes j type pkt ≡ some body
      → with_header j type pkt.msg_no body ≡ ok (received_as type pkt)
  unfolding body_bytes with_header
  with_header-body_bytes header_type pkt body t p e =
      rw (parse_header-write_header j laws pkt.packet_header body p e) (ground arith)
  with_header-body_bytes data_type pkt body t p e = ground arith
  with_header-body_bytes eof_type pkt body t p e = ground arith
  with_header-body_bytes txerr_type pkt body t p e = ground arith
  with_header-body_bytes ack_type pkt body t p e = ground arith
  with_header-body_bytes (other_type n) pkt body t p e = ground arith

-- A packet that can be written has a type word and a body.
pub packet_bytes-eq-some :
    (j : Json) (pkt : Packet) (bytes : Bytes)
    → packet_bytes j pkt ≡ some bytes
    → (word : Bytes) × (body : Bytes) × (bytes_of_type pkt.packet_type ≡ some word)
      × (body_bytes j pkt.packet_type pkt ≡ some body)
      × (bytes ≡ header_line word pkt.msg_no (length body) ++ (body ++ the_rest_bytes))
unfolding packet_bytes
packet_bytes-eq-some j pkt bytes e = elim (Option-cases (bytes_of_type pkt.packet_type)) [
  | inl w ↦ absurd (ground arith)
  | inr (word, w) ↦ elim (Option-cases (body_bytes j pkt.packet_type pkt)) [
    | inl b ↦ absurd (ground arith)
    | inr (body, b) ↦ (word, body, w, b, ground arith)
  ]
]

-- A packet whose header is plain, whose number is below 2^64 and whose bytes, as `Packet.Write`
-- frames them, are at most 2^48, is read back by `ReadPacket` from in front of any input, which is
-- left: its type and number, and the header or the body that its type carries; the count of
-- packets seen is one more. The JSON codec has the laws `Laws`.
pub read_packet-packet_bytes :
    (j : Json) (laws : Laws j) (pkt : Packet) (bytes rest : Bytes) (seen : ℕ)
    → IsPlain j pkt.packet_header
    → pkt.msg_no < two_64
    → length bytes ≤ max_alloc
    → packet_bytes j pkt ≡ some bytes
    → read_packet j (record { input = bytes ++ rest; seen = seen })
      ≡ ok (received pkt, record { input = rest; seen = (seen + 1) % two_64 })
read_packet-packet_bytes j laws pkt bytes rest seen p bn bs e =
    let (word, body, w, b, same) = packet_bytes-eq-some j pkt bytes e in
    let fits : length body ≤ max_alloc = omega (
      arith,
      ap length same,
      length-append (header_line word pkt.msg_no (length body)) (body ++ the_rest_bytes),
      length-append body the_rest_bytes,
    ) in
    rw (
      same,
      append_assoc,
      append_assoc,
      read_packet_frame j pkt.packet_type word pkt.msg_no body rest seen
          (type_word pkt.packet_type w) bn fits,
      with_header-body_bytes j laws pkt.packet_type pkt body refl p b,
    )
