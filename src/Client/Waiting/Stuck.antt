-- ===== src/Client/Waiting/Stuck.antt =====
-- scamp/client.go: a reply for which nobody receives, at the loop of `splitReqsAndReps`.
use scamp_go.Base.{
  ℕ, ◌≡◌, refl, subst, ◌∙◌, Bool, true, false, true-ne-false, List, ◌∷◌, Option, none, some, All,
  nat_eq,
}
use scamp_go.Base.Dict.{lookup, delete}
use scamp_go.Header.{Json, MessageType, request, reply, unknown_type}
use scamp_go.Message.{Message}
use scamp_go.Connection.{SendError}
use scamp_go.Client.{Client, send_on_wire, register, after_send, send}
use scamp_go.Client.Replies.{IsReply}
use scamp_go.Client.Waiting.{
  Loop, taking, giving_reply, Event, takes, receives, sends, reply_received, message_sent,
  message_taken, Runs, stopped, goes, take_message, take_as, take_reply,
}

abbrev pub is_receive : Event → Bool
is_receive (takes msg) = false
is_receive receives = true
is_receive (sends msg) = false

abbrev pub is_send : Event → Bool
is_send (takes msg) = false
is_send receives = false
is_send (sends msg) = true

-- The loop is where it was, and nothing has been delivered, as a request or as a reply.
pub record IsStuck (channel : ℕ) (msg : Message) (client : Client) (s : Client × Loop)
    : Type 0 where
  pub still : s.1 ≡ giving_reply channel msg
  pub undelivered : s.0.delivered ≡ client.delivered
  pub unasked : s.0.requests ≡ client.requests

register-IsStuck :
    (t : MessageType) (channel : ℕ) (msg sent : Message) (client : Client)
    → IsStuck channel msg client ((register t client sent).0, giving_reply channel msg)
unfolding register
register-IsStuck request channel msg sent client = record {
  still = refl;
  undelivered = refl;
  unasked = refl;
}
register-IsStuck reply channel msg sent client = record {
  still = refl;
  undelivered = refl;
  unasked = refl;
}
register-IsStuck (unknown_type n) channel msg sent client = record {
  still = refl;
  undelivered = refl;
  unasked = refl;
}

after_send-IsStuck :
    (e : Option SendError) (channel : ℕ) (msg sent : Message) (client : Client)
    → IsStuck channel msg client ((after_send e client sent).0, giving_reply channel msg)
unfolding after_send
after_send-IsStuck none channel msg sent client =
    register-IsStuck sent.message_type channel msg sent client
after_send-IsStuck (some failed) channel msg sent client = record {
  still = refl;
  undelivered = refl;
  unasked = refl;
}

send-IsStuck :
    (j : Json) (channel : ℕ) (msg sent : Message) (client : Client)
    → IsStuck channel msg client ((send j client sent).0, giving_reply channel msg)
unfolding send send_on_wire
send-IsStuck j channel msg sent client =
    let gone = send_on_wire j client sent in
    let now = after_send-IsStuck gone.2 channel msg gone.1 gone.0 in
    record { still = now.still; undelivered = now.undelivered; unasked = now.unasked }

Runs-IsStuck :
    (j : Json) (channel : ℕ) (msg : Message) (client : Client) {t : Client × Loop} {es : List Event}
    → Runs j (client, giving_reply channel msg) es t
    → All (λ e. is_receive e ≡ false) es
    → IsStuck channel msg client t × All (λ e. is_send e ≡ true) es
Runs-IsStuck j channel msg client stopped none_receives =
    (record { still = refl; undelivered = refl; unasked = refl }, tt)
Runs-IsStuck j channel msg client (goes (reply_received _ _ _) run) (here, none_receives) =
    absurd (true-ne-false here)
Runs-IsStuck j channel msg client (goes (message_sent _ _ sent) run) (here, none_receives) =
    let (stuck, all_sends) = Runs-IsStuck j channel msg (send j client sent).0 run none_receives in
    let now = send-IsStuck j channel msg sent client in
    (
      record {
        still = stuck.still;
        undelivered = stuck.undelivered ∙ now.undelivered;
        unasked = stuck.unasked ∙ now.unasked;
      },
      (refl, all_sends),
    )

take_message-reply :
    (client : Client) (id channel : ℕ) (rep : Message)
    → IsReply id rep
    → lookup id client.open_replies ≡ some channel
    → take_message client rep
      ≡ (record client { open_replies = delete id client.open_replies }, giving_reply channel rep)
unfolding take_message take_as take_reply
take_message-reply client id channel rep (t, number) found = rw (t, number, found) refl

-- The loop of `splitReqsAndReps` takes a reply whose number is open, and nobody receives from then
-- on. Then the loop stays at the send of that reply: the run has no step but calls of `Send`, no
-- other message is taken, and no reply and no request is delivered.
pub Runs_late :
    (j : Json) (client : Client) (id channel : ℕ) (rep : Message) {t : Client × Loop}
    {es : List Event}
    → IsReply id rep
    → lookup id client.open_replies ≡ some channel
    → Runs j (client, taking) (takes rep ∷ es) t
    → All (λ e. is_receive e ≡ false) es
    → IsStuck channel rep client t × All (λ e. is_send e ≡ true) es
Runs_late j client id channel rep {t} {es} is found (goes (message_taken _ _) run) none_receives =
    let run' = subst (λ s. Runs j s es t) (take_message-reply client id channel rep is found) run in
    let (stuck, all_sends) = Runs-IsStuck j channel rep _ run' none_receives in
    (
      record { still = stuck.still; undelivered = stuck.undelivered; unasked = stuck.unasked },
      all_sends,
    )
