-- ===== src/Action/Authorised.antt =====
-- scamp/action_options.go: which calls run the callback, and what the others are answered.
use scamp_go.Base.{
  ℕ, ◌≡◌, refl, ap, sym, ◌∙◌, Bool, true, false, List, [], ◌∷◌, Option, none, some, if◌then◌else◌,
  Bytes, codes, Bool-cases, Option-cases, inl, inr, All, nat_eq, ◌↔◌,
}
use scamp_go.Base.Dict.{lookup}
use scamp_go.Base.Result.{Result, ok, err, ◌>>=◌, bind-ok, err-ne-ok}
use scamp_go.Header.{Json}
use scamp_go.Message.{Message, new_response_message, set_error, set_error_code}
use scamp_go.Client.{Client}
use scamp_go.Client.Numbering.{send-set_request_id}
use scamp_go.Ticket.{
  Ticket, Crypto, TicketError, missing_privileges, KeyState, has_privilege, missing, check_privs,
  verify_ticket,
}
use scamp_go.Action.{
  ActionOptions, Called, called, replied, panicked, reply_on_error, needs_ticket, is_panic,
  with_privs, conclude, call,
}

-- The ticket has a privilege.
abbrev pub IsGranted : Ticket → ℕ → Type 0
IsGranted ticket priv = lookup priv ticket.privileges ≡ some true

found_true : (o : Option Bool) → (elim o [ none ↦ false | some f ↦ f ]) ≡ true → o ≡ some true
found_true none e = cc
found_true (some f) e = ap (λ b. some b) e

missing-cons :
    (ticket : Ticket) (priv : ℕ) (privs : List ℕ) (b : Bool)
    → has_privilege ticket priv ≡ b
    → missing ticket (priv ∷ privs)
      ≡ (if b then missing ticket privs else priv ∷ missing ticket privs)
missing-cons ticket priv privs b e =
    ap (λ b. if b then missing ticket privs else priv ∷ missing ticket privs) e

missing-none :
    (ticket : Ticket) (privs : List ℕ) → missing ticket privs ≡ [] → All (IsGranted ticket) privs
missing-none ticket [] e = tt
missing-none ticket (priv ∷ privs) e = elim (Bool-cases (has_privilege ticket priv)) [
  | inl has ↦ (
    found_true (lookup priv ticket.privileges) has,
    missing-none ticket privs (sym (missing-cons ticket priv privs true has) ∙ e),
  )
  | inr lacks ↦
      let no : priv ∷ missing ticket privs ≡ [] =
        sym (missing-cons ticket priv privs false lacks) ∙ e in
      cc
]

granted-missing :
    (ticket : Ticket) (privs : List ℕ) → All (IsGranted ticket) privs → missing ticket privs ≡ []
granted-missing ticket [] g = refl
granted-missing ticket (priv ∷ privs) (g, gs) =
    missing-cons ticket priv privs true
      (ap (λ (o : Option Bool). elim o [ none ↦ false | some f ↦ f ]) g)
    ∙ granted-missing ticket privs gs

none_missing : List ℕ → Option TicketError
none_missing [] = none
none_missing (p ∷ ps) = some (missing_privileges (p ∷ ps))

none_missing-none : (ps : List ℕ) → none_missing ps ≡ none → ps ≡ []
unfolding none_missing
none_missing-none [] e = refl
none_missing-none (p ∷ ps) e = cc

-- `CheckPrivs` returns no error exactly when the ticket's map holds true for each of the
-- privileges.
pub check_privs-IsGranted :
    (ticket : Ticket) (privs : List ℕ)
    → (check_privs ticket privs ≡ none) ↔ All (IsGranted ticket) privs
unfolding check_privs none_missing
check_privs-IsGranted ticket privs = (
  λ e. missing-none ticket privs (none_missing-none (missing ticket privs) e),
  λ g. ap none_missing (granted-missing ticket privs g),
)

-- The reply that `ReplyOnError` sends does not depend on the message that it answers: it is the
-- same for any other message.
pub reply_on_error-other :
    (j : Json) (msg msg' : Message) (client : Option Client) (code text : Bytes)
    → reply_on_error j msg client code text ≡ reply_on_error j msg' client code text
unfolding reply_on_error
reply_on_error-other j msg msg' none code text = refl
reply_on_error-other j msg msg' (some client) code text =
    let bare = set_error (set_error_code new_response_message code) text in
    ap (λ s. some s.0)
      (send-set_request_id j client bare msg.request_id
        ∙ sym (send-set_request_id j client bare msg'.request_id))

with_privs-ok :
    (privs : List ℕ) (ticket ticket' : Ticket)
    → with_privs privs ticket ≡ ok ticket'
    → All (IsGranted ticket) privs
with_privs-ok privs ticket ticket' e = elim (Option-cases (check_privs ticket privs)) [
  | inl granted ↦ (check_privs-IsGranted ticket privs).0 granted
  | inr (x, refused) ↦ absurd (err-ne-ok (sym (ap after refused) ∙ e))
]
  where
    after : Option TicketError → Result TicketError Ticket
    after o = elim o [ none ↦ ok ticket | some e ↦ err e ]

with_privs-granted :
    (privs : List ℕ) (ticket : Ticket)
    → All (IsGranted ticket) privs
    → with_privs privs ticket ≡ ok ticket
with_privs-granted privs ticket g =
    ap
      (λ (o : Option TicketError). elim o as (λ _. Result TicketError Ticket) [
        | none ↦ ok ticket
        | some e ↦ err e
      ])
      ((check_privs-IsGranted ticket privs).1 g)

module _ (j : Json) (c : Crypto) (text : TicketError → Bytes)
    (callback : Message → Option Client → Option Client) (options : ActionOptions)
    (state : KeyState c.Key) (now : ℕ) (msg : Message) (client : Option Client) where
  refuse-called :
      (e : TicketError) (b : Bool) {x : Option Client}
      → ¬ Path Called
          (if b
            then panicked
            else replied (reply_on_error j msg client (codes "verification") (text e)))
          (called x)
  refuse-called e true p = cc
  refuse-called e false p = cc

  conclude-called :
      (r : Result TicketError Ticket) {x : Option Client}
      → conclude j text callback msg client r ≡ called x
      → (ticket : Ticket) × (r ≡ ok ticket)
  conclude-called (ok ticket) e = (ticket, refl)
  conclude-called (err e) p = absurd (refuse-called e (is_panic e) p)

  call-needs :
      needs_ticket options ≡ true
      → (call j c text callback options state now msg client).1
        ≡ conclude j text callback msg client (
            (verify_ticket c state now msg.ticket options.ticket_verify_public_key).1
            >>= with_privs options.privs)
  unfolding call
  call-needs needs = rw (needs, call) refl

  -- For an action whose options ask for a ticket, by the flag or by a privilege: when `Call` runs
  -- the callback, the message's ticket has been verified and holds every privilege of the options.
  pub call-called :
      (x : Option Client)
      → needs_ticket options ≡ true
      → (call j c text callback options state now msg client).1 ≡ called x
      → (ticket : Ticket) × ((verify_ticket c state now msg.ticket
            options.ticket_verify_public_key).1
          ≡ ok ticket)
        × All (IsGranted ticket) options.privs
  call-called x needs ran =
      let verified = (verify_ticket c state now msg.ticket options.ticket_verify_public_key).1 in
      let (t, e) =
        conclude-called (verified >>= with_privs options.privs) (sym (call-needs needs) ∙ ran) in
      let (ticket, v, w) = bind-ok verified (with_privs options.privs) e in
      (ticket, v, with_privs-ok options.privs ticket t w)

  -- For an action whose options ask for a ticket: when the message's ticket is verified and holds
  -- every privilege of the options, `Call` runs the callback on the message and the client.
  pub call-granted :
      (ticket : Ticket)
      → needs_ticket options ≡ true
      → (verify_ticket c state now msg.ticket options.ticket_verify_public_key).1 ≡ ok ticket
      → All (IsGranted ticket) options.privs
      → (call j c text callback options state now msg client).1 ≡ called (callback msg client)
  call-granted ticket needs verified granted =
      call-needs needs
      ∙ ap (λ r. conclude j text callback msg client (r >>= with_privs options.privs)) verified
      ∙ ap (conclude j text callback msg client) (with_privs-granted options.privs ticket granted)
