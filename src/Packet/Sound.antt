-- ===== src/Packet/Sound.antt =====
-- scamp/packet.go: what the reader accepts, and how much of the input it takes.
use scamp_go.Base.{
  ℕ, zero, suc, ◌+◌, ◌%◌, ◌≤◌, ◌≡◌, refl, ap, sym, ◌∙◌, true, [], ◌∷◌, ◌++◌, none, some, arith,
  ◌==◌, Bytes, length, take-append-drop, length-take, append_assoc, bytes_eq_iff, Option-cases,
  Bool-cases, inl, inr, ◌⊎◌, length-append,
}
use scamp_go.Base.Result.{ok, Result-cases}
use scamp_go.Base.Decimal.{two_64}
use scamp_go.Header.{Json, parse_header}
use scamp_go.Packet.Line.{
  read_line, read_slice, line_of, put_back, Slice, found, full, ended, ends_cr, drop_last,
  buffer_size,
}
use scamp_go.Packet.Scan.{scan_header_line}
use scamp_go.Packet.{
  Packet, PacketType, Reader, ReadError, max_alloc, the_rest_bytes, type_of_bytes, read_full,
  with_header, read_packet, header_type, data_type, eof_type, txerr_type, ack_type, other_type,
  short_body, missing_trailer,
}

-- The bytes that a slice was cut from.
abbrev spelled : Slice → Bytes
spelled (found line rest) = line ++ b'\n' ∷ rest
spelled (full line rest) = line ++ rest
spelled (ended line rest) = line ++ rest

spelled-put_back : (c : ℕ) (s : Slice) → spelled (put_back c s) ≡ c ∷ spelled s
unfolding put_back
spelled-put_back c (found line rest) = refl
spelled-put_back c (full line rest) = refl
spelled-put_back c (ended line rest) = refl

spelled-read_slice : (room : ℕ) (s : Bytes) → spelled (read_slice room s) ≡ s
unfolding read_slice
spelled-read_slice zero s = refl
spelled-read_slice (suc room) [] = refl
spelled-read_slice (suc room) (c ∷ s) = elim (Bool-cases (c == b'\n')) [
  | inl e ↦ rw e (ground (arith))
  | inr e ↦ rw e (spelled-put_back c (read_slice room s) ∙ ap (◌∷◌ c) (spelled-read_slice room s))
]

drop_last-append_cr : (s : Bytes) → ends_cr s ≡ true → s ≡ drop_last s ++ b'\r' ∷ []
unfolding ends_cr drop_last
drop_last-append_cr [] h = cc
drop_last-append_cr (c ∷ []) h = ground arith
drop_last-append_cr (c ∷ d ∷ s) h = ap (◌∷◌ c) (drop_last-append_cr (d ∷ s) h)

-- The ends of a line.
pub data IsLineEnd : Bytes → Type 0 where
  no_end : IsLineEnd []
  newline : IsLineEnd (b'\n' ∷ [])
  crlf : IsLineEnd (b'\r' ∷ b'\n' ∷ [])

line_of_sound :
    (s : Slice) {line rest : Bytes}
    → line_of s ≡ some (line, rest)
    → (end : Bytes) × IsLineEnd end × (spelled s ≡ line ++ (end ++ rest))
unfolding line_of
line_of_sound (found l r) e = elim (Bool-cases (ends_cr l)) [
  | inl cr ↦ (
    b'\r' ∷ b'\n' ∷ [],
    crlf,
    ground (arith, drop_last-append_cr l cr, append_assoc (drop_last l) (b'\r' ∷ []) (b'\n' ∷ r)),
  )
  | inr no_cr ↦ (b'\n' ∷ [], newline, ground arith)
]
line_of_sound (full l r) e = elim (Bool-cases (ends_cr l)) [
  | inl cr ↦ (
    [],
    no_end,
    ground (arith, drop_last-append_cr l cr, append_assoc (drop_last l) (b'\r' ∷ []) r),
  )
  | inr no_cr ↦ ([], no_end, ground arith)
]
line_of_sound (ended [] r) e = cc
line_of_sound (ended (c ∷ l) r) e = ([], no_end, ground arith)

read_line_sound :
    (s : Bytes) {line rest : Bytes}
    → read_line s ≡ some (line, rest)
    → (end : Bytes) × IsLineEnd end × (s ≡ line ++ (end ++ rest))
unfolding read_line
read_line_sound s e =
    let (end, h, same) = line_of_sound (read_slice buffer_size s) e in
    (end, h, sym (spelled-read_slice buffer_size s) ∙ same)

read_full_sound :
    (n : ℕ) (s : Bytes) (e : ReadError) {a b : Bytes}
    → read_full n s e ≡ ok (a, b)
    → (s ≡ a ++ b) × (length a ≡ n)
unfolding read_full
read_full_sound n s e h = ground (arith, take-append-drop n s, length-take n s)

with_header-fields :
    (j : Json) (type : PacketType) (n : ℕ) (body : Bytes) {pkt : Packet}
    → with_header j type n body ≡ ok pkt
    → (pkt.packet_type ≡ type) × (pkt.msg_no ≡ n) × ((type ≡ header_type) ⊎ (pkt.body ≡ body))
unfolding with_header
with_header-fields j header_type n body h = elim (Option-cases (parse_header j body)) [
  | inl e ↦ absurd (ground arith)
  | inr (parsed, e) ↦ ground arith
]
with_header-fields j data_type n body h = ground arith
with_header-fields j eof_type n body h = ground arith
with_header-fields j txerr_type n body h = ground arith
with_header-fields j ack_type n body h = ground arith
with_header-fields j (other_type k) n body h = ground arith

-- What stands behind a packet that was read: a line with three values, as many bytes as it says,
-- and the trailer.
pub record Frame (j : Json) (r r' : Reader) (pkt : Packet) : Type 0 where
  pub line : Bytes
  pub line_end : Bytes
  pub word : Bytes
  pub body : Bytes
  pub is_end : IsLineEnd line_end
  pub scanned : scan_header_line line ≡ some (word, pkt.msg_no, length body)
  pub named : type_of_bytes word ≡ some pkt.packet_type
  pub fits : length body ≤ max_alloc
  pub built : with_header j pkt.packet_type pkt.msg_no body ≡ ok pkt
  pub consumed : r.input ≡ line ++ (line_end ++ (body ++ (the_rest_bytes ++ r'.input)))
  pub counted : r'.seen ≡ (r.seen + 1) % two_64

read_body :
    (j : Json) (r r' : Reader) (pkt : Packet) (line input word : Bytes) (n size : ℕ)
    (type : PacketType)
    → read_line r.input ≡ some (line, input)
    → scan_header_line line ≡ some (word, n, size)
    → type_of_bytes word ≡ some type
    → read_packet j r ≡ ok (pkt, r')
    → (body : Bytes) × (input ≡ body ++ (the_rest_bytes ++ r'.input))
      × (length body ≡ size)
      × (size ≤ max_alloc)
      × (with_header j type n body ≡ ok pkt)
      × (r'.seen ≡ (r.seen + 1) % two_64)
unfolding read_packet
read_body j r r' pkt line input word n size type e1 e2 e3 h =
    elim (Result-cases (read_full size input short_body)) [
      | inr (e, e4) ↦ absurd (ground arith)
      | inl ((body, rest), e4) ↦ elim (Result-cases (read_full 5 rest missing_trailer)) [
        | inr (e, e5) ↦ absurd (ground arith)
        | inl ((trailer, rest'), e5) ↦ elim (Result-cases (with_header j type n body)) [
          | inr (e, e6) ↦ absurd (ground arith)
          | inl (pkt', e6) ↦ (
            body,
            ground (
              arith,
              read_full_sound size input short_body e4,
              read_full_sound 5 rest missing_trailer e5,
              bytes_eq_iff trailer the_rest_bytes,
            ),
            (read_full_sound size input short_body e4).1,
            ground arith,
            ground arith,
            ground arith,
          )
        ]
      ]
    ]

pub read_packet_sound :
    (j : Json) (r r' : Reader) (pkt : Packet) → read_packet j r ≡ ok (pkt, r') → Frame j r r' pkt
unfolding read_packet
read_packet_sound j r r' pkt h = elim (Option-cases (read_line r.input)) [
  | inl e1 ↦ absurd (failed_line e1)
  | inr ((line, input), e1) ↦ elim (Option-cases (scan_header_line line)) [
    | inl e2 ↦ absurd (failed_scan line input e1 e2)
    | inr ((word, n, size), e2) ↦ elim (Option-cases (type_of_bytes word)) [
      | inl e3 ↦ absurd (failed_type line input word n size e1 e2 e3)
      | inr (type, e3) ↦
          let (end, is_end, same) = read_line_sound r.input e1 in
          let (body, cut, long, fits, built, counted) =
            read_body j r r' pkt line input word n size type e1 e2 e3 h in
          let (t, m, _) = with_header-fields j type n body built in
          record {
            line = line;
            line_end = end;
            word = word;
            body = body;
            is_end = is_end;
            scanned = cc (m, long, e2);
            named = cc (t, e3);
            fits = omega arith;
            built = cc (t, m, built);
            consumed = same ∙ ap (λ s. line ++ (end ++ s)) cut;
            counted = counted;
          }
    ]
  ]
]
  where
    failed_line : read_line r.input ≡ none → ⊥
    failed_line e1 = ground arith

    failed_scan :
        (line input : Bytes)
        → read_line r.input ≡ some (line, input)
        → scan_header_line line ≡ none
        → ⊥
    failed_scan line input e1 e2 = ground arith

    failed_type :
        (line input word : Bytes) (n size : ℕ)
        → read_line r.input ≡ some (line, input)
        → scan_header_line line ≡ some (word, n, size)
        → type_of_bytes word ≡ none
        → ⊥
    failed_type line input word n size e1 e2 e3 = ground arith

-- A packet that was read is at least its trailer long.
pub length-read_packet :
    (j : Json) (r r' : Reader) (pkt : Packet)
    → read_packet j r ≡ ok (pkt, r')
    → length r'.input + 5 ≤ length r.input
length-read_packet j r r' pkt h =
    let f = read_packet_sound j r r' pkt h in
    omega (
      arith,
      ap length f.consumed,
      length-append f.line (f.line_end ++ (f.body ++ (the_rest_bytes ++ r'.input))),
      length-append f.line_end (f.body ++ (the_rest_bytes ++ r'.input)),
      length-append f.body (the_rest_bytes ++ r'.input),
    )
