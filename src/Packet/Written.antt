-- ===== src/Packet/Written.antt =====
-- scamp/packet.go: what `Packet.Write` leaves in its writer, whichever calls of the writer fail.
use scamp_go.Base.{
  ℕ, ◌+◌, ◌≡◌, ◌≢◌, refl, ap, sym, ◌∙◌, subst, List, [], ◌∷◌, ◌++◌, Option, none, some, arith,
  Bytes, codes, length, take, drop, take-append-drop, length-append, append_assoc, append-nil, inl,
  inr, ◌⊎◌,
}
use scamp_go.Header.{Json}
use scamp_go.Packet.Output.{Writer, Outcome, accepts, fails, write_bytes, write_outcome}
use scamp_go.Packet.RoundTrip.{packet_bytes-eq-some}
use scamp_go.Packet.{
  Packet, Written, write_packet, write_frame, after_write, packet_bytes, header_line,
  the_rest_bytes, bytes_of_type, body_bytes,
}

-- A call of the writer takes all the bytes, or fails after some of them.
abbrev Wrote : Writer → Bytes → Writer × ℕ × Option Bytes → Type 0
Wrote w bs r =
    ((w' : Writer) × (r ≡ (w', length bs, none)) × (w'.sent ≡ w.sent ++ bs))
    ⊎ ((w' : Writer) × (n : ℕ) × (e : Bytes) × (tail : Bytes) × (r ≡ (w', n, some e))
        × (w'.sent ++ tail ≡ w.sent ++ bs)
        × (length w'.sent ≡ length w.sent + n))

write_outcome-Wrote :
    (sent : Bytes) (os : List Outcome) (bs : Bytes)
    → Wrote (record { sent = sent; outcomes = os }) bs (write_outcome sent os bs)
unfolding write_outcome
write_outcome-Wrote sent [] bs = inl (_, refl, refl)
write_outcome-Wrote sent (accepts ∷ os) bs = inl (_, refl, refl)
write_outcome-Wrote sent (fails n e ∷ os) bs = inr (
  _,
  _,
  e,
  drop n bs,
  refl,
  append_assoc sent (take n bs) (drop n bs) ∙ ap (◌++◌ sent) (take-append-drop n bs),
  length-append sent (take n bs),
)

write_bytes-Wrote : (w : Writer) (bs : Bytes) → Wrote w bs (write_bytes w bs)
unfolding write_bytes
write_bytes-Wrote w bs = write_outcome-Wrote w.sent w.outcomes bs

-- The writer holds a part of the bytes, as long as the count says, and all of them without error.
abbrev pub HasWritten : Writer → Bytes → ℕ → Written → Type 0
HasWritten w bytes before r =
    (tail : Bytes) × (r.0.sent ++ tail ≡ w.sent ++ bytes)
    × (length r.0.sent + before ≡ length w.sent + r.1)
    × ((r.2 ≢ none) ⊎ (tail ≡ []))

-- One call, and then the rest.
after_write-HasWritten :
    (w : Writer) (bs more : Bytes) (before : ℕ) (prefix : Bytes) (next : Writer → ℕ → Written)
    → ((w' : Writer) (n : ℕ) → HasWritten w' more n (next w' n))
    → HasWritten w (bs ++ more) before (after_write (write_bytes w bs) before prefix next)
after_write-HasWritten w bs more before prefix next h = elim (write_bytes-Wrote w bs) [
  | inl (w', e, s) ↦
      let (tail, t, c, d) = h w' (before + length bs) in
      rw e
        (tail, t ∙ rw (s, append_assoc), omega (arith, c, ap length s, length-append w.sent bs), d)
  | inr (w', n, e, tail, r, s, c) ↦ rw r (
    tail ++ more,
    sym (append_assoc w'.sent tail more) ∙ rw (s, append_assoc),
    omega arith,
    inl (λ p. cc),
  )
]

write_frame-HasWritten :
    (word : Bytes) (n : ℕ) (body : Bytes) (w : Writer)
    → HasWritten w
        (header_line word n (length body) ++ (body ++ the_rest_bytes))
        0
        (write_frame word n body w)
unfolding write_frame
write_frame-HasWritten word n body w =
    after_write-HasWritten w (header_line word n (length body)) (body ++ the_rest_bytes) 0
      (codes "err writing packet header: ") _
      λ w1 n1. after_write-HasWritten w1 body the_rest_bytes n1 [] _ λ w2 n2.
        subst
          (λ bs.
            HasWritten w2 bs n2
              (after_write (write_bytes w2 the_rest_bytes) n2 [] (λ w3 n3. (w3, n3, none))))
          (append-nil the_rest_bytes)
          (after_write-HasWritten w2 the_rest_bytes [] n2 [] (λ w3 n3. (w3, n3, none))
            (λ w3 n3. ([], refl, omega arith, inr refl)))

-- A packet with a type word and a body is written as a frame.
pub write_packet-write_frame :
    (j : Json) (pkt : Packet) (w : Writer) (word body : Bytes)
    → bytes_of_type pkt.packet_type ≡ some word
    → body_bytes j pkt.packet_type pkt ≡ some body
    → write_packet j pkt w ≡ write_frame word pkt.msg_no body w
unfolding write_packet
write_packet-write_frame j pkt w word body t b = ground arith

-- When a packet has bytes to be framed as, and whichever calls of the writer fail: what
-- `Packet.Write` has added to the writer is a front part of these bytes, the count that it returns
-- is the number of bytes added, and all of them are added unless it returns an error.
pub write_packet-HasWritten :
    (j : Json) (pkt : Packet) (w : Writer) {bytes : Bytes}
    → packet_bytes j pkt ≡ some bytes
    → HasWritten w bytes 0 (write_packet j pkt w)
write_packet-HasWritten j pkt w {bytes} e =
    let (word, body, t, b, same) = packet_bytes-eq-some j pkt bytes e in
    rw (same, write_packet-write_frame j pkt w word body t b)
      (write_frame-HasWritten word pkt.msg_no body w)
