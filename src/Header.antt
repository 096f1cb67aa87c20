-- ===== src/Header.antt =====
-- scamp/packetheader.go: the header of a packet and its JSON form.
-- The text of JSON values is read and written by `encoding/json`, an interface `Json` here; which
-- members are written, in which order, what a member's text is for the types with a marshaller of
-- their own, and where each member is stored are the program's, and are written out.
-- Keys are compared without case over ASCII letters.
pub mod RoundTrip
use scamp_go.Base.{
  ℕ, ◌+◌, ◌<◌, ◌≡◌, Bool, true, false, ◌&&◌, List, [], ◌∷◌, ◌++◌, map, Option, none, some, leb,
  if◌then◌else◌, Bytes, codes, bytes_eq, All,
}
use scamp_go.Base.Decimal.{two_64, format_int, parse_int}

-- The two formats have the values 0 and 1; `unknown_format n` is any other int.
pub data EnvelopeFormat : Type 0 where
  json jsonstore : EnvelopeFormat
  unknown_format : ℕ → EnvelopeFormat

-- The two types have the values 1 and 2; `unknown_type n` is any other int, 0 in a new message.
pub data MessageType : Type 0 where
  request reply : MessageType
  unknown_type : ℕ → MessageType

pub record PacketHeader : Type 0 where
  pub action : Bytes
  pub envelope : EnvelopeFormat
  pub error : Bytes
  pub error_code : Bytes
  pub request_id : ℕ
  pub client_id : ℕ
  pub ticket : Bytes
  pub identifying_token : Bytes
  pub message_type : MessageType
  pub version : ℕ

-- `encoding/json` as the code uses it. `string_into old raw` is `json.Unmarshal(raw, &v)` for a
-- string v that holds `old`, `int_into` the same for an int; `members` splits an object into its
-- keys and raw values, in order (`null` has none). `quote` replaces what is not `valid` UTF-8.
pub record Json : Type 0 where
  pub valid : Bytes → Bool
  pub quote : Bytes → Bytes
  pub object : List (Bytes × Bytes) → Bytes
  pub string_into : Bytes → Bytes → Option Bytes
  pub int_into : ℕ → Bytes → Option ℕ
  pub members : Bytes → Option (List (Bytes × Bytes))

infixl 5 ◌>>=◌
abbrev ◌>>=◌ {ℓ κ} : {A : Type ℓ} {B : Type κ} → Option A → (A → Option B) → Option B
none >>= f = none
some a >>= f = f a

abbrev pub envelope_json_bytes : Bytes
envelope_json_bytes = codes "\"json\""

abbrev pub envelope_jsonstore_bytes : Bytes
envelope_jsonstore_bytes = codes "\"jsonstore\""

abbrev pub request_bytes : Bytes
request_bytes = codes "\"request\""

abbrev pub reply_bytes : Bytes
reply_bytes = codes "\"reply\""

-- `envelopeFormat.MarshalJSON`; an unknown format is an error.
marshal_envelope : EnvelopeFormat → Option Bytes
marshal_envelope json = some envelope_json_bytes
marshal_envelope jsonstore = some envelope_jsonstore_bytes
marshal_envelope (unknown_format n) = none

-- `envelopeFormat.UnmarshalJSON`, on the raw text.
unmarshal_envelope : Bytes → Option EnvelopeFormat
unmarshal_envelope incoming =
    if bytes_eq envelope_json_bytes incoming
    then some json
    else if bytes_eq envelope_jsonstore_bytes incoming
    then some jsonstore
    else none

-- `messageType.MarshalJSON`.
marshal_message_type : MessageType → Option Bytes
marshal_message_type request = some request_bytes
marshal_message_type reply = some reply_bytes
marshal_message_type (unknown_type n) = none

-- `messageType.UnmarshalJSON`.
unmarshal_message_type : Bytes → Option MessageType
unmarshal_message_type incoming =
    if bytes_eq request_bytes incoming
    then some request
    else if bytes_eq reply_bytes incoming
    then some reply
    else none

-- `omitempty`.
omit_empty : Bytes → Bytes × Bytes → List (Bytes × Bytes)
omit_empty [] member = []
omit_empty (c ∷ s) member = member ∷ []

abbrev pub empty_header : PacketHeader
empty_header = record {
  action = [];
  envelope = json;
  error = [];
  error_code = [];
  request_id = 0;
  client_id = 0;
  ticket = [];
  identifying_token = [];
  message_type = unknown_type 0;
  version = 0;
}

abbrev lower : ℕ → ℕ
lower c = if leb b'A' c && leb c b'Z' then c + 32 else c

-- The members' keys.
pub data Field : Type 0 where
  action_key envelope_key error_key error_code_key request_id_key client_id_key ticket_key : Field
  identifying_token_key type_key version_key unknown_key : Field

-- The field that a key names.
field_of_key : Bytes → Field
field_of_key key =
    let k = map lower key in
    if bytes_eq k (codes "action")
    then action_key
    else if bytes_eq k (codes "envelope")
    then envelope_key
    else if bytes_eq k (codes "error")
    then error_key
    else if bytes_eq k (codes "error_code")
    then error_code_key
    else if bytes_eq k (codes "request_id")
    then request_id_key
    else if bytes_eq k (codes "client_id")
    then client_id_key
    else if bytes_eq k (codes "ticket")
    then ticket_key
    else if bytes_eq k (codes "identifying_token")
    then identifying_token_key
    else if bytes_eq k (codes "type")
    then type_key
    else if bytes_eq k (codes "version")
    then version_key
    else unknown_key

module _ (j : Json) where
  -- `flexInt.UnmarshalJSON`: a string that holds a number, or else a number.
  flex_int : Bytes → Option ℕ
  flex_int raw = elim (j.string_into [] raw) [ some s ↦ parse_int s | none ↦ j.int_into 0 raw ]

  -- The members that are always written behind the errors.
  last_members : PacketHeader → Bytes → List (Bytes × Bytes)
  last_members h type =
      (codes "request_id", format_int h.request_id)
      ∷ (codes "client_id", format_int h.client_id)
      ∷ (codes "ticket", j.quote h.ticket)
      ∷ (codes "identifying_token", j.quote h.identifying_token)
      ∷ (codes "type", type)
      ∷ (codes "version", format_int h.version)
      ∷ []

  -- The members that are written, in the order of the struct, around two marshalled values.
  member_list : PacketHeader → Bytes → Bytes → List (Bytes × Bytes)
  member_list h envelope type =
      (codes "action", j.quote h.action)
      ∷ (codes "envelope", envelope)
      ∷ (omit_empty h.error (codes "error", j.quote h.error)
          ++ (omit_empty h.error_code (codes "error_code", j.quote h.error_code)
              ++ last_members h type))

  -- `PacketHeader.Write`: `Encode` ends the text with a newline.
  unfoldable pub write_header : PacketHeader → Option Bytes
  unfolding member_list last_members omit_empty marshal_envelope marshal_message_type
  write_header h = do
    envelope ← marshal_envelope h.envelope
    type ← marshal_message_type h.message_type
    some (j.object (member_list h envelope type) ++ b'\n' ∷ [])

  store_field : Field → Bytes → PacketHeader → Option PacketHeader
  store_field action_key raw h = do v ← j.string_into h.action raw; some (record h { action = v })
  store_field envelope_key raw h = do v ← unmarshal_envelope raw; some (record h { envelope = v })
  store_field error_key raw h = do v ← j.string_into h.error raw; some (record h { error = v })
  store_field error_code_key raw h = do
    v ← j.string_into h.error_code raw
    some (record h { error_code = v })
  store_field request_id_key raw h = do
    v ← j.int_into h.request_id raw
    some (record h { request_id = v })
  store_field client_id_key raw h = do v ← flex_int raw; some (record h { client_id = v })
  store_field ticket_key raw h = do v ← j.string_into h.ticket raw; some (record h { ticket = v })
  store_field identifying_token_key raw h = do
    v ← j.string_into h.identifying_token raw
    some (record h { identifying_token = v })
  store_field type_key raw h = do
    v ← unmarshal_message_type raw
    some (record h { message_type = v })
  store_field version_key raw h = do v ← j.int_into h.version raw; some (record h { version = v })
  store_field unknown_key raw h = some h

  store_members : List (Bytes × Bytes) → PacketHeader → Option PacketHeader
  store_members [] h = some h
  store_members ((key, raw) ∷ ms) h = do
    h' ← store_field (field_of_key key) raw h
    store_members ms h'

  -- `json.Unmarshal` into the header of a new packet.
  unfoldable pub parse_header : Bytes → Option PacketHeader
  unfolding store_members store_field field_of_key flex_int unmarshal_envelope
      unmarshal_message_type
  parse_header text = do members ← j.members text; store_members members empty_header
