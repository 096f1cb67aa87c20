-- ===== src/Client/Numbering.antt =====
-- scamp/client.go: the numbers that a client gives to its messages.
use scamp_go.Base.{
  ◌==◌, if◌then◌else◌, Bool-cases, inl, inr, ap, ◌∙◌, ℕ, ◌+◌, ◌%◌, ◌≤◌, ◌<◌, ◌≡◌, refl, List, [],
  ◌∷◌, Option, none, some, arith, nat_eq, All,
}
use scamp_go.Base.Decimal.{two_64}
use scamp_go.Base.Dict.{lookup, lookup-insert, lookup-All, insert-All}
use scamp_go.Header.{Json, MessageType, request, reply, unknown_type}
use scamp_go.Message.{Message, set_request_id}
use scamp_go.Connection.{SendError}
use scamp_go.Client.{Client, send_on_wire, register, after_send, send}
use scamp_go.Client.Replies.{conn_send-keep}

-- An open reply: its number has been given out, and its channel has been made.
abbrev pub IsGiven : Client → ℕ × ℕ → Type 0
IsGiven client (id, channel) = (id ≤ client.next_request_id) × (channel < client.channels_made)

abbrev pub IsNumbered : Client → Type 0
IsNumbered client = All (IsGiven client) client.open_replies

pub send-set_request_id :
    (j : Json) (client : Client) (msg : Message) (id : ℕ)
    → send j client (set_request_id msg id) ≡ send j client msg
unfolding send send_on_wire
send-set_request_id j client msg id = refl

-- The open replies of a client whose counter has just been raised above `old`.
abbrev IsBelow : ℕ → Client → Type 0
IsBelow old client = All (λ x. (x.0 ≤ old) × (x.1 < client.channels_made)) client.open_replies

-- The second client is numbered, and the open replies of the first are open in it.
abbrev IsKept : Client → Client → Type 0
IsKept client client' =
    IsNumbered client'
    × ((id channel : ℕ)
        → lookup id client.open_replies ≡ some channel
        → lookup id client'.open_replies ≡ some channel)

raise :
    (old n c c' : ℕ) (m : List (ℕ × ℕ))
    → old ≤ n
    → c ≤ c'
    → All (λ x. (x.0 ≤ old) × (x.1 < c)) m
    → All (λ x. (x.0 ≤ n) × (x.1 < c')) m
raise old n c c' [] h k g = tt
raise old n c c' (e ∷ m) h k ((g, l), gs) = ((omega arith, omega arith), raise old n c c' m h k gs)

module _ (client : Client) (msg : Message) (old : ℕ) (above : old < client.next_request_id)
    (below : IsBelow old client) where
  unchanged : IsKept client client
  unchanged = (
    raise old client.next_request_id client.channels_made client.channels_made client.open_replies
        (omega arith) (omega arith) below,
    λ id channel found. found,
  )

  register-IsKept :
      (t : MessageType)
      → msg.request_id ≡ client.next_request_id
      → IsKept client (register t client msg).0
  unfolding register
  register-IsKept request same = (
    insert-All (λ x. (x.0 ≤ client.next_request_id) × (x.1 < client.channels_made + 1))
        msg.request_id client.channels_made client.open_replies (omega arith, omega arith)
        (raise old client.next_request_id client.channels_made (client.channels_made + 1)
          client.open_replies (omega arith) (omega arith) below),
    λ id channel found.
        let known : id ≤ old =
          (lookup-All (λ x. (x.0 ≤ old) × (x.1 < client.channels_made)) id client.open_replies below
            found).0 in
        ground (arith, lookup-insert msg.request_id id client.channels_made client.open_replies),
  )
  register-IsKept reply same = unchanged
  register-IsKept (unknown_type n) same = unchanged

  after_send-IsKept :
      (e : Option SendError)
      → msg.request_id ≡ client.next_request_id
      → IsKept client (after_send e client msg).0
  unfolding after_send
  after_send-IsKept none same = register-IsKept msg.message_type same
  after_send-IsKept (some failed) same = unchanged

send-IsKept :
    (j : Json) (client : Client) (msg : Message)
    → client.next_request_id + 1 < two_64
    → IsNumbered client
    → IsKept client (send j client msg).0
unfolding send send_on_wire
send-IsKept j client msg small given =
    let id = (client.next_request_id + 1) % two_64 in
    let sent = send_on_wire j client msg in
    after_send-IsKept sent.0 sent.1 client.next_request_id (omega arith) given sent.2
      (conn_send-keep j client.conn (set_request_id msg id)).1

-- The number above those that have been given out is not open.
next_missing :
    (next old c : ℕ) (m : List (ℕ × ℕ))
    → old < next
    → All (λ x. (x.0 ≤ old) × (x.1 < c)) m
    → lookup next m ≡ none
unfolding lookup
next_missing next old c [] above h = refl
next_missing next old c ((id, channel) ∷ m) above (h, hs) =
    ground (arith, h, next_missing next old c m above hs)

missed :
    (client : Client) (next id : ℕ)
    → lookup next client.open_replies ≡ none
    → lookup id client.open_replies ≡ (if id == next then none else lookup id client.open_replies)
missed client next id missing = elim (Bool-cases (id == next)) [
  | inl hit ↦
      let same : id ≡ next = ground (arith, hit) in
      rw hit (ap (λ n. lookup n client.open_replies) same ∙ missing)
  | inr miss ↦ rw miss refl
]

register-lookup :
    (t : MessageType) (client : Client) (msg : Message) (next id : ℕ)
    → msg.request_id ≡ next
    → lookup next client.open_replies ≡ none
    → lookup id (register t client msg).0.open_replies
      ≡ (if id == next then (register t client msg).1 else lookup id client.open_replies)
unfolding register
register-lookup request client msg next id same missing =
    ground (arith, same, lookup-insert msg.request_id id client.channels_made client.open_replies)
register-lookup reply client msg next id same missing = missed client next id missing
register-lookup (unknown_type n) client msg next id same missing = missed client next id missing

after_send-lookup :
    (e : Option SendError) (client : Client) (msg : Message) (next id : ℕ)
    → msg.request_id ≡ next
    → lookup next client.open_replies ≡ none
    → lookup id (after_send e client msg).0.open_replies
      ≡ (if id == next then (after_send e client msg).2 else lookup id client.open_replies)
unfolding after_send
after_send-lookup none client msg next id same missing =
    register-lookup msg.message_type client msg next id same missing
after_send-lookup (some failed) client msg next id same missing = missed client next id missing

-- A client whose open replies have numbers and channels that it has given out, and whose counter
-- does not wrap, sends a message, with or without an error: its open replies are still so. Under
-- the number that it has just given out it has the channel that `Send` returns, or nothing where
-- `Send` returns none, and under any other number what it had before.
pub send-IsNumbered :
    (j : Json) (client : Client) (msg : Message) (id : ℕ)
    → client.next_request_id + 1 < two_64
    → IsNumbered client
    → IsNumbered (send j client msg).0
      × (lookup id (send j client msg).0.open_replies ≡ (
          if id == client.next_request_id + 1
          then (send j client msg).2
          else lookup id client.open_replies))
unfolding send send_on_wire
send-IsNumbered j client msg id small given =
    let next = (client.next_request_id + 1) % two_64 in
    let sent = send_on_wire j client msg in
    let same : next ≡ client.next_request_id + 1 = omega (arith, small) in
    (
      (send-IsKept j client msg small given).0,
      after_send-lookup sent.2 sent.0 sent.1 next id
            (conn_send-keep j client.conn (set_request_id msg next)).1
            (next_missing next client.next_request_id client.channels_made client.open_replies
              (omega arith) given)
          ∙ ap (λ n. if id == n then (send j client msg).2 else lookup id client.open_replies) same,
    )
