-- ===== src/Message/Chunks.antt =====
-- scamp/message.go: the chunks that `WriteJSON` cuts a text into.
use scamp_go.Base.{
  ℕ, zero, suc, ◌%◌, ◌≤◌, ◌<◌, ◌≡◌, refl, ap, sym, ◌∙◌, List, [], ◌∷◌, ◌++◌, map, arith, ltb,
  ltb→le, Bytes, length, drop, take-append-drop, length-take, length-drop, length-append,
  append_assoc, append-nil, All, Bool-cases, inl, inr,
}
use scamp_go.Base.Decimal.{two_64}
use scamp_go.Base.Result.{ok}
use scamp_go.Packet.{Packet}
use scamp_go.Message.{
  Message, split_chunks, chunks, write_json, write, data_packet, bodies, bytes, msg_chunk_size,
}

abbrev pub concat : List Bytes → Bytes
concat [] = []
concat (c ∷ cs) = c ++ concat cs

bodies-data_packet : (cs : List Bytes) → bodies (map data_packet cs) ≡ concat cs
bodies-data_packet [] = refl
bodies-data_packet (c ∷ cs) = ap (◌++◌ c) (bodies-data_packet cs)

pub bodies-append : (ps qs : List Packet) → bodies (ps ++ qs) ≡ bodies ps ++ bodies qs
bodies-append [] qs = refl
bodies-append (p ∷ ps) qs =
    rw (bodies-append ps qs) (sym (append_assoc p.body (bodies ps) (bodies qs)))

concat-split_chunks :
    (fuel size : ℕ) (s : Bytes) → 0 < size → length s < fuel → concat (split_chunks fuel size s) ≡ s
unfolding split_chunks
concat-split_chunks zero size s h b = absurd (omega arith)
concat-split_chunks (suc fuel) size s h b = elim (Bool-cases (ltb (length s) size)) [
  | inl last ↦ rw last (append-nil s)
  | inr more ↦ rw more (
      rw (concat-split_chunks fuel size (drop size s) h (ground (arith, length-drop size s)))
        (take-append-drop size s))
]

split_chunks-le :
    (fuel size : ℕ) (s : Bytes) → All (λ c. length c ≤ size) (split_chunks fuel size s)
unfolding split_chunks
split_chunks-le zero size s = tt
split_chunks-le (suc fuel) size s =
    ground (arith, split_chunks-le fuel size (drop size s), length-take size s)

concat-chunks : (text : Bytes) → concat (chunks text) ≡ text
unfolding chunks
concat-chunks text = elim (Bool-cases (ltb msg_chunk_size (length text))) [
  | inl long ↦
      rw long
        (concat-split_chunks (suc (length text)) msg_chunk_size text (omega arith) (omega arith))
  | inr short ↦ rw short (append-nil text)
]

chunks-le : (text : Bytes) → All (λ c. length c ≤ msg_chunk_size) (chunks text)
unfolding chunks
chunks-le text = elim (Bool-cases (ltb msg_chunk_size (length text))) [
  | inl long ↦ rw long (split_chunks-le (suc (length text)) msg_chunk_size text)
  | inr short ↦ rw short (ltb→le msg_chunk_size (length text) short, tt)
]

-- The count of the bytes written is the length of the contents, in a uint64.
abbrev pub IsCounted : Message → Type 0
IsCounted msg = msg.bytes_written ≡ length (bytes msg) % two_64

-- `WriteJSON` of a text adds data packets of at most 128 KiB each, and the message's bytes are
-- those from before and then the text.
pub bytes-write_json :
    (msg : Message) (text : Bytes)
    → (bytes (write_json msg (ok text)).0 ≡ bytes msg ++ text)
      × ((cs : List Bytes) × ((write_json msg (ok text)).0.packets
            ≡ msg.packets ++ map data_packet cs)
          × All (λ c. length c ≤ msg_chunk_size) cs)
unfolding write_json
bytes-write_json msg text = (
  bodies-append msg.packets (map data_packet (chunks text))
      ∙ ap (◌++◌ (bytes msg)) (bodies-data_packet (chunks text) ∙ concat-chunks text),
  (chunks text, refl, chunks-le text),
)

pub bytes-write : (msg : Message) (blob : Bytes) → bytes (write msg blob).0 ≡ bytes msg ++ blob
unfolding write
bytes-write msg blob =
    bodies-append msg.packets (data_packet blob ∷ []) ∙ ap (λ b. bytes msg ++ b) (append-nil blob)

-- When a message's count of bytes is that of its packets, modulo 2^64, it still is after `Write`
-- and after a successful `WriteJSON`.
pub write-IsCounted :
    (msg : Message) (blob : Bytes)
    → IsCounted msg
    → IsCounted (write msg blob).0 × IsCounted (write_json msg (ok blob)).0
write-IsCounted msg blob h = (
  unfold write in omega (arith, ap length (bytes-write msg blob), length-append (bytes msg) blob),
  unfold write_json in
      omega (arith, ap length (bytes-write_json msg blob).0, length-append (bytes msg) blob),
)
