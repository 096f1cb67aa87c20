-- ===== src/Action.antt =====
-- scamp/action_options.go: an action that is registered with options, and its call under them.
-- The callback is an argument: what it does to the client. So is the text of an error, which
-- `err.Error()` gives.
pub mod Authorised
use scamp_go.Base.{
  ℕ, Bool, true, false, ◌||◌, not, List, [], ◌∷◌, Option, none, some, if◌then◌else◌, Bytes, codes,
}
use scamp_go.Base.Result.{Result, ok, err, ◌>>=◌}
use scamp_go.Header.{Json}
use scamp_go.Message.{Message, new_response_message, set_request_id, set_error, set_error_code}
use scamp_go.Client.{Client}
use scamp_go.Client as Sender
use scamp_go.Ticket.{Ticket, Crypto, TicketError, key_panic, KeyState, verify_ticket, check_privs}

pub record ActionOptions : Type 0 where
  pub verify : Bool
  pub privs : List ℕ
  pub ticket_verify_public_key : Bytes

-- `DefaultActionOptions`.
abbrev pub default_action_options : ActionOptions
default_action_options = record { verify = false; privs = []; ticket_verify_public_key = [] }

-- `ReplyOnError`, for a message and an error that are there.
unfoldable pub reply_on_error : Json → Message → Option Client → Bytes → Bytes → Option Client
reply_on_error j msg none code text = none
reply_on_error j msg (some client) code text =
    let reply_msg =
      set_error (set_error_code (set_request_id new_response_message msg.request_id) code) text in
    some (Sender.send j client reply_msg).0

abbrev pub is_empty : List ℕ → Bool
is_empty [] = true
is_empty (p ∷ ps) = false

-- The guard of `Call`.
abbrev pub needs_ticket : ActionOptions → Bool
needs_ticket options = options.verify || not (is_empty options.privs)

pub data Called : Type 0 where
  -- The callback has run, and has left the client so.
  called : Option Client → Called
  -- A reply has been sent with the error instead.
  replied : Option Client → Called
  panicked : Called

abbrev pub is_panic : TicketError → Bool
is_panic key_panic = true
is_panic _ = false

abbrev pub refuse : Json → (TicketError → Bytes) → Message → Option Client → TicketError → Called
refuse j text msg client e =
    if is_panic e
    then panicked
    else replied (reply_on_error j msg client (codes "verification") (text e))

-- What `Call` checks of a ticket that has been verified.
abbrev pub with_privs : List ℕ → Ticket → Result TicketError Ticket
with_privs privs ticket = elim (check_privs ticket privs) [ none ↦ ok ticket | some e ↦ err e ]

abbrev pub conclude :
    Json
    → (TicketError → Bytes)
    → (Message → Option Client → Option Client)
    → Message
    → Option Client
    → Result TicketError Ticket
    → Called
conclude j text callback msg client (ok ticket) = called (callback msg client)
conclude j text callback msg client (err e) = refuse j text msg client e

-- `ServiceOptionsFunc.Call`, at a given time.
unfoldable pub call :
    Json
    → (c : Crypto) → (TicketError → Bytes)
    → (Message → Option Client → Option Client)
    → ActionOptions
    → KeyState c.Key
    → ℕ
    → Message
    → Option Client
    → KeyState c.Key × Called
call j c text callback options state now msg client =
    let (state', verified) =
      verify_ticket c state now msg.ticket options.ticket_verify_public_key in
    if needs_ticket options
    then (state', conclude j text callback msg client (verified >>= with_privs options.privs))
    else (state, called (callback msg client))
