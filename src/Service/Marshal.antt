-- ===== src/Service/Marshal.antt =====
-- scamp/service.go and scamp/serviceproxy.go: the announcement of a service as text.
pub mod Text
use scamp_go.Base.{
  ℕ, zero, suc, ◌+◌, ◌*◌, ◌%◌, Bool, true, false, List, [], ◌∷◌, ◌++◌, map, Option, none, some, leb,
  ltb, ◌==◌, if◌then◌else◌, Bytes, codes, bytes_Eq, length, take, drop,
}
use scamp_go.Base.Decimal.{two_64, format_int}
use scamp_go.Base.Dict.{lookup, insert}
use scamp_go.Base.Split.{trim_space}
use scamp_go.Header.{Json, json, reply}
use scamp_go.Message.{Message, new_message, set_message_type, set_envelope, set_request_id, write}
use scamp_go.Client.{Client}
use scamp_go.Client as Sender
use scamp_go.Connection.{SendError}
use scamp_go.Ticket.{Crypto, KeyState, TicketError}
use scamp_go.Action.{ActionOptions, default_action_options, Called, called, replied, panicked, call}
use scamp_go.Proxy.{Proxy, ProxyClass, ProxyAction, Arrays, marshal_json}
use scamp_go.Signature.{Certificates, sign_sha256}
use scamp_go.Service.{Service, ServiceAction}

-- `strings.LastIndex(s, ".")`: what stands before and behind the last dot.
abbrev pub last_dot : Bytes → Option (Bytes × Bytes)
last_dot [] = none
last_dot (c ∷ s) = elim (last_dot s) [
  | some (class, action) ↦ some (c ∷ class, action)
  | none ↦ if c == b'.' then some ([], s) else none
]

abbrev pub class_of : Bytes → ServiceAction → Option ProxyClass
class_of name action = elim (last_dot name) [
  | none ↦ none
  | some (class_name, action_name) ↦ some (record {
    class_name = class_name;
    actions =
        record { action_name = action_name; crud_tags = action.crud_tags; version = action.version }
        ∷ [];
  })
]

-- A class for each registered name: `none` is the panic at a name with no dot. Go ranges over the map
-- in any order.
unfoldable pub classes_of : List (Bytes × ServiceAction) → Option (List ProxyClass)
classes_of [] = some []
classes_of ((name, action) ∷ actions) = elim (class_of name action) [
  | none ↦ none
  | some class ↦ elim (classes_of actions) [ none ↦ none | some classes ↦ some (class ∷ classes) ]
]

abbrev pub default_announce_interval : ℕ
default_announce_interval = 5

-- `String` of an address, which may be nil.
abbrev pub ip_string : Option Bytes → Bytes
ip_string none = codes "<nil>"
ip_string (some text) = text

-- `serviceAsServiceProxy`, at a given time.
unfoldable pub service_as_service_proxy : Service → Bytes → Option Proxy
service_as_service_proxy serv timestamp = elim (classes_of serv.actions) [
  | none ↦ none
  | some classes ↦ some (record {
    version = 3;
    ident = serv.name;
    sector = serv.sector;
    weight = 1;
    announce_interval = default_announce_interval * 500;
    connspec =
        codes "beepish+tls://"
        ++ ip_string serv.listener_ip
        ++ b':' ∷ format_int serv.listener_port;
    protocols = codes "json" ∷ [];
    classes = classes;
    extension = none;
    raw_class_records = codes "rawClassRecords";
    raw_cert = codes "rawCert";
    raw_sig = codes "rawSig";
    timestamp = timestamp;
  })
]

-- The loop of `stringToRows`, by the row's size. The fuel is one more than the length.
unfoldable pub rows : ℕ → ℕ → Bytes → List Bytes
rows zero size substr = []
rows (suc fuel) size substr =
    let more = take size substr ∷ rows fuel size (drop size substr) in
    if ltb size (length substr) then more else substr ∷ []

-- `stringToRows`, of a text and a row length, for which the code takes 76 in any case.
unfoldable pub string_to_rows : Bytes → ℕ → List Bytes
unfolding rows
string_to_rows input rowlen =
    if leb (length input) 76 then input ∷ [] else rows (suc (length input)) 76 input

-- Each row with a newline.
abbrev pub rows_text : List Bytes → Bytes
rows_text [] = []
rows_text (row ∷ rest) = row ++ b'\n' ∷ rows_text rest

-- The text of an announcement, of its class record and its signature.
abbrev pub announcement : Bytes → Bytes → Bytes → Bytes
announcement class_record pem_cert sig =
    class_record
    ++ (b'\n'
        ∷ b'\n'
        ∷ (pem_cert ++ (b'\n' ∷ b'\n' ∷ (rows_text (string_to_rows sig 76) ++ b'\n' ∷ []))))

-- What `MarshalText` ends with: a panic at a name with no dot or at a key that is not an RSA key, the
-- error of the signing, or the text.
pub data Marshalled : Type 0 where
  marshal_panics cannot_sign : Marshalled
  marshalled : Bytes → Marshalled

-- The signing, and the text. The key is `none` where the service's key pair has one that is not an RSA
-- key: the assertion of its type panics.
abbrev pub sign_text :
    (c : Crypto) → (x : Certificates c) → Option x.PrivateKey → Bytes → Bytes → Marshalled
sign_text c x none class_record pem_cert = marshal_panics
sign_text c x (some priv) class_record pem_cert = elim (sign_sha256 c x class_record priv) [
  | none ↦ cannot_sign
  | some sig ↦ marshalled (announcement class_record pem_cert sig)
]

-- `MarshalText`.
unfoldable pub marshal_text :
    Json
    → Arrays
    → (c : Crypto) → (x : Certificates c) → Option x.PrivateKey
    → Service
    → Bytes
    → Marshalled
marshal_text j a c x priv serv timestamp = elim (service_as_service_proxy serv timestamp) [
  | none ↦ marshal_panics
  | some proxy ↦ sign_text c x priv (marshal_json j a proxy) serv.pem_cert
]
