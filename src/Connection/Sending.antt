-- ===== src/Connection/Sending.antt =====
-- scamp/connection.go: what `Send` puts on the wire, and what it reports.
use scamp_go.Base.{
  ℕ, zero, suc, ◌+◌, ◌%◌, ◌≡◌, ◌≢◌, refl, ap, sym, ◌∙◌, false, List, [], ◌∷◌, ◌++◌, map, Option,
  none, some, some_eq, arith, ◌==◌, Bytes, codes, length, append_assoc, append-nil, if◌then◌else◌,
}
use scamp_go.Base.Decimal.{two_64}
use scamp_go.Header.{Json}
use scamp_go.Packet.Output.{Writer, Outcome, fails}
use scamp_go.Packet.{
  Packet, packet_bytes, write_packet, write_frame, Written, header_line, the_rest_bytes,
}
use scamp_go.Packet.RoundTrip.{packet_bytes-eq-some}
use scamp_go.Packet.Written.{write_packet-write_frame}
use scamp_go.Message.{Message, to_packets}
use scamp_go.Connection.{
  Connection, SendError, connection_closed, write_retrying, send_packets, send, retry_limit,
}
use scamp_go.Connection.Reading.{wire, wire_cons}

-- A writer whose calls all succeed.
abbrev pub working : Bytes → Writer
working sent = record { sent = sent; outcomes = [] }

write_frame-working :
    (word : Bytes) (n : ℕ) (body sent : Bytes)
    → write_frame word n body (working sent) ≡ (
      working (sent ++ (header_line word n (length body) ++ (body ++ the_rest_bytes))),
      0 + length (header_line word n (length body)) + length body + length the_rest_bytes,
      none,
    )
unfolding write_frame
write_frame-working word n body sent = simp append_assoc

abbrev no_error : Writer → Writer × Option SendError
no_error w = (w, none)

module _ (j : Json) where
  write_packet-working :
      (p : Packet) (bs sent : Bytes)
      → packet_bytes j p ≡ some bs
      → (n : ℕ) × (write_packet j p (working sent) ≡ (working (sent ++ bs), n, none))
  write_packet-working p bs sent e =
      let (word, body, t, b, same) = packet_bytes-eq-some j p bs e in
      (
        _,
        write_packet-write_frame j p (working sent) word body t b
            ∙ write_frame-working word p.msg_no body sent
            ∙ ap
                (λ x. (
                  working (sent ++ x),
                  0
                      + length (header_line word p.msg_no (length body))
                      + length body
                      + length the_rest_bytes,
                  none,
                ))
                (sym same),
      )

  write_retrying-working :
      (left : ℕ) (p : Packet) (bs sent : Bytes)
      → packet_bytes j p ≡ some bs
      → write_retrying j left p (working sent) ≡ (working (sent ++ bs), none)
  unfolding write_retrying
  write_retrying-working zero p bs sent e =
      let (n, w) = write_packet-working p bs sent e in
      rw (w, write_retrying) (ap (λ (x : Written). no_error x.0) w)
  write_retrying-working (suc left) p bs sent e =
      let (n, w) = write_packet-working p bs sent e in
      rw (w, write_retrying) (ap (λ (x : Written). no_error x.0) w)

  send_packets_step :
      (p : Packet) (ps : List Packet) (w w' : Writer)
      → write_retrying j (suc retry_limit) p w ≡ (w', none)
      → send_packets j (p ∷ ps) w ≡ send_packets j ps w'
  unfolding send_packets
  send_packets_step p ps w w' e =
      rw (e, send_packets) (ap (λ (x : Writer × Option SendError). send_packets j ps x.0) e)

  send_packets-working :
      (ps : List Packet) (bytes sent : Bytes)
      → wire j ps ≡ some bytes
      → send_packets j ps (working sent) ≡ (working (sent ++ bytes), none)
  unfolding send_packets
  send_packets-working [] bytes sent w = rw (← some_eq w, append-nil)
  send_packets-working (p ∷ ps) bytes sent w =
      let (bs, more, e1, e2, same) = wire_cons j p ps w in
      send_packets_step p ps (working sent) (working (sent ++ bs))
        (write_retrying-working (suc retry_limit) p bs sent e1)
      ∙ send_packets-working ps more (sent ++ bs) e2
      ∙ rw (same, append_assoc)

  -- A message with a request id, sent on a connection whose writer works, closed or not: the wire
  -- text of its packets is added to what was written, the outgoing number goes up by one, the
  -- message comes back with its packets numbered, and the error is that of a closed connection if
  -- it is closed, else none.
  pub send-wire :
      (conn : Connection) (msg : Message) (bytes : Bytes)
      → msg.request_id ≢ 0
      → conn.writer.outcomes ≡ []
      → wire j (to_packets msg conn.outgoingmsgno).1 ≡ some bytes
      → send j conn msg ≡ (
        record conn {
          outgoingmsgno = (conn.outgoingmsgno + 1) % two_64;
          writer = working (conn.writer.sent ++ bytes);
        },
        (to_packets msg conn.outgoingmsgno).0,
        if conn.is_closed then some connection_closed else none,
      )
  unfolding send
  send-wire conn msg bytes h o w =
      let pkts = (to_packets msg conn.outgoingmsgno).1 in
      let test : (msg.request_id == 0) ≡ false = ground arith in
      let sent : send_packets j pkts conn.writer ≡ (working (conn.writer.sent ++ bytes), none) =
        (λ i. send_packets j pkts (record { sent = conn.writer.sent; outcomes = o i }))
        ∙ send_packets-working pkts bytes conn.writer.sent w in
      rw (test, sent, send)

-- The error of a connection whose peer is gone, before any byte went out.
abbrev pub broken_pipe : Outcome
broken_pipe = fails 0 (codes "write: broken pipe")

-- A writer that fails so once for each packet.
abbrev pub broken : Bytes → List Packet → Writer
broken sent ps = record { sent = sent; outcomes = map (λ p. broken_pipe) ps }

module _ (j : Json) where
  write_retrying-broken :
      (p : Packet) (ps : List Packet) (bs sent : Bytes)
      → packet_bytes j p ≡ some bs
      → write_retrying j (suc retry_limit) p (broken sent (p ∷ ps)) ≡ (broken sent ps, none)
  unfolding write_retrying write_frame
  write_retrying-broken p ps bs sent e =
      let (word, body, t, b, same) = packet_bytes-eq-some j p bs e in
      let failed = write_packet-write_frame j p (broken sent (p ∷ ps)) word body t b in
      rw (failed, write_retrying)
        (ap (λ (x : Written). no_error x.0) failed ∙ (λ i.
          no_error (record { sent = append-nil sent i; outcomes = map (λ p. broken_pipe) ps })))

  send_packets-broken :
      (ps : List Packet) (bytes sent : Bytes)
      → wire j ps ≡ some bytes
      → send_packets j ps (broken sent ps) ≡ (broken sent [], none)
  unfolding send_packets
  send_packets-broken [] bytes sent w = refl
  send_packets-broken (p ∷ ps) bytes sent w =
      let (bs, more, e1, e2, same) = wire_cons j p ps w in
      send_packets_step j p ps (broken sent (p ∷ ps)) (broken sent ps)
        (write_retrying-broken p ps bs sent e1)
      ∙ send_packets-broken ps more sent e2

  -- A message with a request id, sent on an open connection whose writer fails with a broken pipe,
  -- before any byte, for each of its packets: `Send` reports no error, nothing has been written,
  -- and the outgoing number goes up by one.
  pub send-broken :
      (conn : Connection) (msg : Message) (bytes : Bytes)
      → msg.request_id ≢ 0
      → conn.is_closed ≡ false
      → wire j (to_packets msg conn.outgoingmsgno).1 ≡ some bytes
      → conn.writer.outcomes ≡ map (λ p. broken_pipe) (to_packets msg conn.outgoingmsgno).1
      → ((send j conn msg).2 ≡ none)
        × ((send j conn msg).0.writer.sent ≡ conn.writer.sent)
        × ((send j conn msg).0.outgoingmsgno ≡ (conn.outgoingmsgno + 1) % two_64)
  unfolding send
  send-broken conn msg bytes h c w b =
      let pkts = (to_packets msg conn.outgoingmsgno).1 in
      let test : (msg.request_id == 0) ≡ false = ground arith in
      let sent : send_packets j pkts conn.writer ≡ (broken conn.writer.sent [], none) =
        (λ i. send_packets j pkts (record { sent = conn.writer.sent; outcomes = b i }))
        ∙ send_packets-broken pkts bytes conn.writer.sent w in
      ground arith
