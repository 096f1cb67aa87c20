-- ===== src/Tests/Clients.antt =====
-- Clients at concrete inputs.
use scamp_go.Base.{
  All, true, ◌==◌, if◌then◌else◌, ℕ, ◌≡◌, ◌≢◌, refl, [], ◌∷◌, ◌++◌, none, some, arith, nat_eq,
}
use scamp_go.Base.Dict.{lookup}
use scamp_go.Header.{reply}
use scamp_go.Header.{write_header}
use scamp_go.Connection as Conn
use scamp_go.Packet.{write_packet, write_frame, header_line, bytes_of_type, body_bytes}
use scamp_go.Base.Decimal.{format_uint, format_int}
use scamp_go.Message.{to_packets, Message, new_message}
use scamp_go.Client.{after_send, conn_send, Client, new_client, dispatch, send, send_on_wire}
use scamp_go.Client.{arrive, close, panics}
use scamp_go.Client.Late.{arrive-close}
use scamp_go.Client.Replies.{dispatch_all, dispatch-send, register-dispatch}
use scamp_go.Client.Numbering.{IsNumbered, send-IsNumbered}
use scamp_go.Client.Waiting.{
  taking, giving_reply, takes, sends, Runs, stopped, goes, message_taken, message_sent,
  take_message, take_as, take_reply,
}
use scamp_go.Client.Waiting.Stuck.{IsStuck, is_send, Runs_late}
use scamp_go.Tests.Codec.{codec}
use scamp_go.Tests.Connections.{fresh, sample}

abbrev pub client : Client
client = record (new_client fresh) {
  open_replies = (3, 0) ∷ [];
  next_request_id = 4;
  channels_made = 2;
}

abbrev pub reply_to : ℕ → Message
reply_to id = record new_message { message_type = reply; request_id = id }

pub client-IsNumbered : IsNumbered client
client-IsNumbered = ((omega arith, omega arith), tt)

sends_ok : (send codec client sample).3 ≡ none
unfolding send after_send send_on_wire conn_send Conn.send Conn.send_packets Conn.write_retrying
    write_packet write_frame header_line bytes_of_type body_bytes format_uint format_int
    write_header to_packets
sends_ok = refl

pub three-ne-five : ◌≢◌ {A = ℕ} 3 5
three-ne-five e = omega arith

dispatch-send_example :
    ((dispatch (dispatch_all (reply_to 3 ∷ []) (send codec client sample).0) (reply_to 5)).delivered
      ≡ (dispatch_all (reply_to 3 ∷ []) (send codec client sample).0).delivered
        ++ (2, reply_to 5) ∷ [])
    × (dispatch
          (dispatch (dispatch_all (reply_to 3 ∷ []) (send codec client sample).0) (reply_to 5))
          (reply_to 5)
        ≡ dispatch (dispatch_all (reply_to 3 ∷ []) (send codec client sample).0) (reply_to 5))
dispatch-send_example =
    dispatch-send codec client sample (reply_to 3 ∷ []) (reply_to 5) refl sends_ok
      ((λ is. absurd (three-ne-five is.1)), tt) (refl, refl)

goes_out : (send_on_wire codec client sample).2 ≡ none
unfolding send_on_wire conn_send Conn.send Conn.send_packets Conn.write_retrying write_packet
    write_frame header_line bytes_of_type body_bytes format_uint format_int write_header to_packets
goes_out = refl

register-dispatch_example :
    let (client', msg', e) = send_on_wire codec client sample in
    ((after_send e (dispatch client' (reply_to 5)) msg').0.delivered ≡ client.delivered)
    × ((after_send e (dispatch client' (reply_to 5)) msg').2 ≡ some 2)
    × (lookup 5 (after_send e (dispatch client' (reply_to 5)) msg').0.open_replies ≡ some 2)
    × ((dispatch (after_send e client' msg').0 (reply_to 5)).delivered
        ≡ client.delivered ++ (2, reply_to 5) ∷ [])
unfolding lookup
register-dispatch_example =
    register-dispatch codec client sample (reply_to 5) refl goes_out (refl, refl) refl

send-IsNumbered_example :
    IsNumbered (send codec client sample).0
    × (lookup 5 (send codec client sample).0.open_replies
        ≡ (if ◌==◌ 5 5 then (send codec client sample).2 else lookup 5 client.open_replies))
send-IsNumbered_example = send-IsNumbered codec client sample 5 (omega arith) client-IsNumbered

arrive-close_example :
    arrive (close client).0 (reply_to 3) ≡ panics (dispatch (close client).0 (reply_to 3))
arrive-close_example = arrive-close client (reply_to 3) refl

-- The client when the loop has taken the reply and waits at the send of it.
abbrev half_way : Client
unfolding take_message take_as take_reply lookup
half_way = (take_message client (reply_to 3)).0

abbrev later : Client
later = (send codec half_way sample).0

waits_and_sends :
    Runs codec
      (client, taking)
      (takes (reply_to 3) ∷ sends sample ∷ [])
      (later, giving_reply 0 (reply_to 3))
unfolding take_message take_as take_reply lookup
waits_and_sends =
    goes (message_taken client (reply_to 3))
      (goes (message_sent half_way (giving_reply 0 (reply_to 3)) sample) stopped)

Runs_late_example :
    IsStuck 0 (reply_to 3) client (later, giving_reply 0 (reply_to 3))
    × All (λ e. is_send e ≡ true) (sends sample ∷ [])
unfolding lookup
Runs_late_example =
    Runs_late codec client 3 0 (reply_to 3) (refl, refl) refl waits_and_sends (refl, tt)
