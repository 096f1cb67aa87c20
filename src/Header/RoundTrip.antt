-- ===== src/Header/RoundTrip.antt =====
-- scamp/packetheader.go: a header as JSON and back, over what `encoding/json` documents.
use scamp_go.Base.{
  ℕ, ◌<◌, ◌≤◌, ◌≡◌, refl, subst, ◌∙◌, Option-cases, inl, inr, ◌⊎◌, true, List, [], ◌∷◌, ◌++◌, none,
  some, some_eq, arith, Bytes, codes, All,
}
use scamp_go.Base.Decimal.{two_64, format_int}
use scamp_go.Header.{
  Json, PacketHeader, EnvelopeFormat, json, jsonstore, unknown_format, MessageType, request, reply,
  unknown_type, empty_header, marshal_envelope, marshal_message_type, unmarshal_envelope,
  unmarshal_message_type, member_list, last_members, omit_empty, write_header, parse_header,
  store_members, store_field, field_of_key, flex_int,
}

-- A byte of a key or of a format's name.
abbrev pub IsKeyByte : ℕ → Type 0
IsKeyByte c = (c ≡ b'_') ⊎ ((b'a' ≤ c) × (c ≤ b'z'))

-- The texts that the header's members have.
pub data IsValue (j : Json) : Bytes → Type 0 where
  string_value : (s : Bytes) → IsValue j (j.quote s)
  number_value : (n : ℕ) → n < two_64 → IsValue j (format_int n)
  word_value : (s : Bytes) → All IsKeyByte s → IsValue j (b'"' ∷ (s ++ b'"' ∷ []))

-- What the code relies on: a value that was written is read back, and a number is no string.
pub record Laws (j : Json) : Type 0 where
  pub string_quote : (old s : Bytes) → j.valid s ≡ true → j.string_into old (j.quote s) ≡ some s
  pub int_number : (old n : ℕ) → n < two_64 → j.int_into old (format_int n) ≡ some n
  pub string_number : (old : Bytes) (n : ℕ) → n < two_64 → j.string_into old (format_int n) ≡ none
  pub members_object :
      (ms : List (Bytes × Bytes))
      → All (λ m. All IsKeyByte m.0 × IsValue j m.1) ms
      → j.members (j.object ms ++ b'\n' ∷ []) ≡ some ms

-- Texts that are valid UTF-8, and numbers that are 64-bit patterns.
pub record IsPlain (j : Json) (h : PacketHeader) : Type 0 where
  pub action_valid : j.valid h.action ≡ true
  pub error_valid : j.valid h.error ≡ true
  pub error_code_valid : j.valid h.error_code ≡ true
  pub ticket_valid : j.valid h.ticket ≡ true
  pub token_valid : j.valid h.identifying_token ≡ true
  pub request_id_fits : h.request_id < two_64
  pub client_id_fits : h.client_id < two_64
  pub version_fits : h.version < two_64

envelope_back :
    (e : EnvelopeFormat) (raw : Bytes)
    → marshal_envelope e ≡ some raw
    → (unmarshal_envelope raw ≡ some e)
unfolding marshal_envelope unmarshal_envelope
envelope_back json raw e = rw (← some_eq e)
envelope_back jsonstore raw e = rw (← some_eq e)
envelope_back (unknown_format n) raw e = cc

type_back :
    (t : MessageType) (raw : Bytes)
    → marshal_message_type t ≡ some raw
    → unmarshal_message_type raw ≡ some t
unfolding marshal_message_type unmarshal_message_type
type_back request raw e = rw (← some_eq e)
type_back reply raw e = rw (← some_eq e)
type_back (unknown_type n) raw e = cc

envelope_IsValue :
    (j : Json) (e : EnvelopeFormat) (raw : Bytes) → marshal_envelope e ≡ some raw → IsValue j raw
unfolding marshal_envelope
envelope_IsValue j json raw e =
    subst (IsValue j) (some_eq e) (word_value (codes "json") (omega arith))
envelope_IsValue j jsonstore raw e =
    subst (IsValue j) (some_eq e) (word_value (codes "jsonstore") (omega arith))
envelope_IsValue j (unknown_format n) raw e = cc

type_IsValue :
    (j : Json) (e : MessageType) (raw : Bytes) → marshal_message_type e ≡ some raw → IsValue j raw
unfolding marshal_message_type
type_IsValue j request raw e =
    subst (IsValue j) (some_eq e) (word_value (codes "request") (omega arith))
type_IsValue j reply raw e =
    subst (IsValue j) (some_eq e) (word_value (codes "reply") (omega arith))
type_IsValue j (unknown_type n) raw e = cc

module _ (j : Json) (laws : Laws j) where
  abbrev IsMember : Bytes × Bytes → Type 0
  IsMember m = All IsKeyByte m.0 × IsValue j m.1

  omit_empty-IsMember :
      (s : Bytes) (m : Bytes × Bytes) (ms : List (Bytes × Bytes))
      → IsMember m
      → All IsMember ms
      → All IsMember (omit_empty s m ++ ms)
  unfolding omit_empty
  omit_empty-IsMember [] m ms hm hs = hs
  omit_empty-IsMember (c ∷ s) m ms hm hs = (hm, hs)

  -- Each member is stored in its field.
  store_error :
      (e : Bytes) (ms : List (Bytes × Bytes)) (h : PacketHeader)
      → j.valid e ≡ true
      → h.error ≡ []
      → store_members j (omit_empty e (codes "error", j.quote e) ++ ms) h
        ≡ store_members j ms (record h { error = e })
  unfolding omit_empty store_members store_field field_of_key
  store_error [] ms h v z = λ i. store_members j ms (record h { error = z i })
  store_error (c ∷ s) ms h v z = rw (laws.string_quote h.error (c ∷ s) v)

  store_error_code :
      (e : Bytes) (ms : List (Bytes × Bytes)) (h : PacketHeader)
      → j.valid e ≡ true
      → h.error_code ≡ []
      → store_members j (omit_empty e (codes "error_code", j.quote e) ++ ms) h
        ≡ store_members j ms (record h { error_code = e })
  unfolding omit_empty store_members store_field field_of_key
  store_error_code [] ms h v z = λ i. store_members j ms (record h { error_code = z i })
  store_error_code (c ∷ s) ms h v z = rw (laws.string_quote h.error_code (c ∷ s) v)

  flex_int_number : (n : ℕ) → n < two_64 → flex_int j (format_int n) ≡ some n
  unfolding flex_int
  flex_int_number n b = ground (arith, laws.string_number [] n b, laws.int_number 0 n b)

  store_last_members :
      (h h' : PacketHeader) (type : Bytes)
      → IsPlain j h
      → unmarshal_message_type type ≡ some h.message_type
      → h'.ticket ≡ []
      → h'.identifying_token ≡ []
      → store_members j (last_members j h type) h'
        ≡ some (record h {
          action = h'.action;
          envelope = h'.envelope;
          error = h'.error;
          error_code = h'.error_code;
        })
  unfolding store_members store_field field_of_key last_members
  store_last_members h h' type p t _ _ = rw (
    laws.int_number h'.request_id h.request_id p.request_id_fits,
    flex_int_number h.client_id p.client_id_fits,
    laws.string_quote h'.ticket h.ticket p.ticket_valid,
    laws.string_quote h'.identifying_token h.identifying_token p.token_valid,
    t,
    laws.int_number h'.version h.version p.version_fits,
  )

  store_first_members :
      (h : PacketHeader) (envelope : Bytes) (ms : List (Bytes × Bytes))
      → IsPlain j h
      → unmarshal_envelope envelope ≡ some h.envelope
      → store_members j
          ((codes "action", j.quote h.action) ∷ (codes "envelope", envelope) ∷ ms)
          empty_header
        ≡ store_members j ms (record empty_header { action = h.action; envelope = h.envelope })
  unfolding store_members store_field field_of_key
  store_first_members h envelope ms p e = rw (laws.string_quote [] h.action p.action_valid, e)

  -- Together they store the whole header.
  store_member_list :
      (h : PacketHeader) (envelope type : Bytes)
      → IsPlain j h
      → unmarshal_envelope envelope ≡ some h.envelope
      → unmarshal_message_type type ≡ some h.message_type
      → store_members j (member_list j h envelope type) empty_header ≡ some h
  unfolding member_list
  store_member_list h envelope type p e t =
      let h1 : PacketHeader = record empty_header { action = h.action; envelope = h.envelope } in
      let h2 : PacketHeader = record h1 { error = h.error } in
      store_first_members h envelope _ p e
      ∙ store_error h.error
          (omit_empty h.error_code (codes "error_code", j.quote h.error_code)
            ++ last_members j h type)
          h1 p.error_valid refl
      ∙ store_error_code h.error_code (last_members j h type) h2 p.error_code_valid refl
      ∙ store_last_members h (record h2 { error_code = h.error_code }) type p t refl refl

  last_members-IsMember :
      (h : PacketHeader) (type : Bytes)
      → IsPlain j h
      → IsValue j type
      → All IsMember (last_members j h type)
  unfolding last_members
  last_members-IsMember h type p t = (
    (omega arith, number_value h.request_id p.request_id_fits),
    (
      (omega arith, number_value h.client_id p.client_id_fits),
      (
        (omega arith, string_value h.ticket),
        (
          (omega arith, string_value h.identifying_token),
          ((omega arith, t), ((omega arith, number_value h.version p.version_fits), tt)),
        ),
      ),
    ),
  )

  member_list-IsMember :
      (h : PacketHeader) (envelope type : Bytes)
      → IsPlain j h
      → IsValue j envelope
      → IsValue j type
      → All IsMember (member_list j h envelope type)
  unfolding member_list
  member_list-IsMember h envelope type p e t = (
    (omega arith, string_value h.action),
    (
      (omega arith, e),
      omit_empty-IsMember h.error _ _ (omega arith, string_value h.error)
          (omit_empty-IsMember h.error_code _ _ (omega arith, string_value h.error_code)
            (last_members-IsMember h type p t)),
    ),
  )

  write_header-eq-some :
      (h : PacketHeader) (text : Bytes)
      → write_header j h ≡ some text
      → (envelope : Bytes) × (type : Bytes) × (marshal_envelope h.envelope ≡ some envelope)
        × (marshal_message_type h.message_type ≡ some type)
        × (text ≡ j.object (member_list j h envelope type) ++ b'\n' ∷ [])
  unfolding write_header
  write_header-eq-some h text e = elim (Option-cases (marshal_envelope h.envelope)) [
    | inl none_e ↦ absurd (ground arith)
    | inr (envelope, some_e) ↦ elim (Option-cases (marshal_message_type h.message_type)) [
      | inl none_t ↦ absurd (ground arith)
      | inr (type, some_t) ↦ (envelope, type, some_e, some_t, ground arith)
    ]
  ]

  -- A header whose texts are valid and whose numbers are below 2^64 is what parsing gives back of
  -- the JSON text that `Write` makes of it, where it makes one. The JSON codec has the laws
  -- `Laws`.
  pub parse_header-write_header :
      (h : PacketHeader) (text : Bytes)
      → IsPlain j h
      → write_header j h ≡ some text
      → parse_header j text ≡ some h
  unfolding parse_header
  parse_header-write_header h text p w =
      let (envelope, type, e, t, same) = write_header-eq-some h text w in
      rw
        (
          same,
          laws.members_object _ (
              member_list-IsMember h envelope type p (envelope_IsValue j h.envelope envelope e)
                (type_IsValue j h.message_type type t)),
        )
        (store_member_list h envelope type p (envelope_back h.envelope envelope e)
          (type_back h.message_type type t))
