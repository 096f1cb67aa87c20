-- ===== src/Tests/Tickets.antt =====
-- Tickets and actions at concrete inputs, with cryptography that accepts one signature.
use scamp_go.Base.{
  ◌≡◌, refl, true, false, [], ◌∷◌, Option, none, some, Bytes, codes, bytes_eq, All, nat_eq,
}
use scamp_go.Base.Decimal.{parse_int}
use scamp_go.Base.Dict.{lookup, insert}
use scamp_go.Base.Result.{ok}
use scamp_go.Base.Split.{split, join, trim_space}
use scamp_go.Message.{Message, set_ticket, set_request_id}
use scamp_go.Client.{Client, new_client}
use scamp_go.Ticket.{
  Ticket, Crypto, TicketError, unread, verify_ticket, read_key, verify_parts, parse_ticket,
  parse_privileges, expired, check_privs,
}
use scamp_go.Ticket.Sound.{IsSigned, verify_ticket-IsSigned}
use scamp_go.Action.{ActionOptions, called, reply_on_error, call}
use scamp_go.Action.Authorised.{IsGranted, reply_on_error-other, call-called, call-granted}
use scamp_go.Tests.Codec.{codec}
use scamp_go.Tests.Connections.{fresh, sample}

abbrev pub crypto : Crypto
crypto = record {
  Key = Bytes;
  read_file = λ path. some (codes "pem");
  pem_block = λ text. some text;
  public_key = λ block. some block;
  base64_decode = λ s. some s;
  sha256 = λ s. s;
  verifies = λ key hash signature. bytes_eq signature (codes "sig");
}

abbrev text : Bytes
text = codes " 1,5,6,100,50,1+2,sig"

abbrev ticket : Ticket
ticket = record {
  version = 1;
  user_id = 5;
  client_id = 6;
  timestamp = 100;
  ttl = 50;
  privileges = (1, true) ∷ (2, true) ∷ [];
}

verifies : (verify_ticket crypto unread 120 text []).1 ≡ ok ticket
unfolding verify_ticket trim_space split read_key verify_parts parse_ticket parse_privileges
    parse_int join expired insert
verifies = refl

verify_ticket-IsSigned_example :
    IsSigned crypto text 120 (verify_ticket crypto unread 120 text []).0 ticket
verify_ticket-IsSigned_example = verify_ticket-IsSigned crypto unread 120 text [] ticket verifies

abbrev options : ActionOptions
options = record { verify = false; privs = 2 ∷ []; ticket_verify_public_key = [] }

abbrev asked : Message
asked = set_ticket sample text

abbrev pub error_text : TicketError → Bytes
error_text e = codes "no"

abbrev callback : Message → Option Client → Option Client
callback msg client = client

granted : All (IsGranted ticket) options.privs
unfolding lookup
granted = (refl, tt)

call-granted_example :
    (call codec crypto error_text callback options unread 120 asked none).1 ≡ called none
call-granted_example =
    call-granted codec crypto error_text callback options unread 120 asked none ticket refl verifies
      granted

runs : (call codec crypto error_text callback options unread 120 asked none).1 ≡ called none
unfolding call check_privs lookup verify_ticket trim_space split read_key verify_parts parse_ticket
    parse_privileges parse_int join expired insert
runs = refl

call-called_example :
    (ticket : Ticket) × ((verify_ticket crypto unread 120 text []).1 ≡ ok ticket)
    × All (IsGranted ticket) (2 ∷ [])
call-called_example =
    call-called codec crypto error_text callback options unread 120 asked none none refl runs

reply_on_error-other_example :
    reply_on_error codec sample (some (new_client fresh)) (codes "verification") (codes "no")
    ≡ reply_on_error codec
        (set_request_id sample 8)
        (some (new_client fresh))
        (codes "verification")
        (codes "no")
reply_on_error-other_example =
    reply_on_error-other codec sample (set_request_id sample 8) (some (new_client fresh))
      (codes "verification") (codes "no")
