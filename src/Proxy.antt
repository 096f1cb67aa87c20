-- ===== src/Proxy.antt =====
-- scamp/serviceproxy.go: the record that a service announces, as JSON and back.
-- `encoding/json` on arrays is an interface `Arrays` beside `Json`. A timestamp is the text that `%f`
-- gives, and an extension is the text that it was read from. The client of a proxy is not part of it.
pub mod RoundTrip
use scamp_go.Base.{
  ℕ, zero, suc, ◌+◌, ◌%◌, Bool, true, false, not, List, [], ◌∷◌, ◌++◌, map, Option, none, some, ltb,
  ◌==◌, if◌then◌else◌, Bytes, codes, bytes_eq, length,
}
use scamp_go.Base.Decimal.{format_int, parse_int}
use scamp_go.Base.Result.{Result, ok, err, ◌>>=◌, ◌>>◌, guard}
use scamp_go.Header.{Json}

-- `actionDescription`.
pub record ProxyAction : Type 0 where
  pub action_name : Bytes
  pub crud_tags : Bytes
  pub version : ℕ

-- `serviceProxyClass`.
pub record ProxyClass : Type 0 where
  pub class_name : Bytes
  pub actions : List ProxyAction

-- `serviceProxy`.
pub record Proxy : Type 0 where
  pub version : ℕ
  pub ident : Bytes
  pub sector : Bytes
  pub weight : ℕ
  pub announce_interval : ℕ
  pub connspec : Bytes
  pub protocols : List Bytes
  pub classes : List ProxyClass
  pub extension : Option Bytes
  pub raw_class_records : Bytes
  pub raw_cert : Bytes
  pub raw_sig : Bytes
  pub timestamp : Bytes

-- `encoding/json` on arrays: the text of an array of marshalled values, `json.Unmarshal` into a
-- slice of raw messages (`null` has none), and whether a text can be read as a
-- `ServiceProxyDiscoveryExtension`.
pub record Arrays : Type 0 where
  pub array : List Bytes → Bytes
  pub elements : Bytes → Option (List Bytes)
  pub is_extension : Bytes → Bool

pub data ProxyError : Type 0 where
  -- `json.Unmarshal` fails.
  bad_json bad_version : ProxyError
  few_entries : ProxyError
  -- The code indexes a slice out of range, or follows a nil pointer.
  index_panic nil_panic : ProxyError

abbrev pub parse {ℓ} : {A : Type ℓ} → Option A → ProxyError → Result ProxyError A
parse none e = err e
parse (some a) e = ok a

-- `messages[i]`.
abbrev pub entry : List Bytes → ℕ → Result ProxyError Bytes
entry [] i = err index_panic
entry (x ∷ xs) zero = ok x
entry (x ∷ xs) (suc i) = entry xs i

-- `strings.SplitN(ident, ":", 2)`: the part before the first colon, if there is one.
abbrev before_colon : Bytes → Bytes × Bool
before_colon [] = ([], false)
before_colon (c ∷ s) = let r = before_colon s in if c == b':' then ([], true) else (c ∷ r.0, r.1)

-- `baseIdent`.
abbrev pub base_ident : Proxy → Bytes
base_ident sp = let r = before_colon sp.ident in if r.1 then r.0 else sp.ident

module _ (j : Json) (a : Arrays) where
  -- The text of an action, of a class, and of a proxy: `MarshalJSON`.
  unfoldable pub action_text : ProxyAction → Bytes
  action_text action =
      a.array
        (j.quote action.action_name ∷ j.quote action.crud_tags ∷ format_int action.version ∷ [])

  unfoldable pub class_text : ProxyClass → Bytes
  class_text class = a.array (j.quote class.class_name ∷ map action_text class.actions)

  unfoldable pub marshal_json : Proxy → Bytes
  marshal_json sp = a.array (
      format_int sp.version
      ∷ j.quote sp.ident
      ∷ j.quote sp.sector
      ∷ format_int sp.weight
      ∷ format_int sp.announce_interval
      ∷ j.quote sp.connspec
      ∷ a.array (map j.quote sp.protocols)
      ∷ a.array (map class_text sp.classes)
      ∷ sp.timestamp
      ∷ [])

  abbrev pub string_at : List Bytes → ℕ → Result ProxyError Bytes
  string_at messages i = entry messages i >>= λ raw. parse (j.string_into [] raw) bad_json

  abbrev pub int_at : List Bytes → ℕ → Result ProxyError ℕ
  int_at messages i = entry messages i >>= λ raw. parse (j.int_into 0 raw) bad_json

  abbrev pub elements_at : List Bytes → ℕ → Result ProxyError (List Bytes)
  elements_at messages i = entry messages i >>= λ raw. parse (a.elements raw) bad_json

  -- The protocols that are strings, and the last extension: a text that is neither is passed over, and
  -- `null` is a nil pointer.
  unfoldable pub parse_protocols :
      List Bytes → List Bytes → Option Bytes → Result ProxyError (List Bytes × Option Bytes)
  parse_protocols [] protocols extension = ok (protocols, extension)
  parse_protocols (raw ∷ raws) protocols extension = elim (bytes_eq raw (codes "null")) [
    | true ↦ err nil_panic
    | false ↦ elim (j.string_into [] raw) [
      | some s ↦ parse_protocols raws (protocols ++ s ∷ []) extension
      | none ↦ parse_protocols raws protocols (if a.is_extension raw then some raw else extension)
    ]
  ]

  -- A version that is a number, or a string that holds one.
  abbrev pub version_of : Bytes → Result ProxyError ℕ
  version_of raw = elim (j.int_into 0 raw) [
    | some n ↦ ok n
    | none ↦ parse (j.string_into [] raw) bad_json >>= λ s. parse (parse_int s) bad_version
  ]

  abbrev pub action_version : List Bytes → Result ProxyError ℕ
  action_version messages =
      if ltb (length messages) 3 then ok 1 else entry messages 2 >>= λ raw. version_of raw

  -- One action. A spec that has not 2 or 3 entries sets an error which is overwritten.
  unfoldable pub parse_action : Bytes → Result ProxyError ProxyAction
  parse_action raw = do
    messages ← parse (a.elements raw) bad_json
    action_name ← string_at messages 0
    crud_tags ← string_at messages 1
    version ← action_version messages
    ok (record { action_name = action_name; crud_tags = crud_tags; version = version })

  unfoldable pub parse_actions : List Bytes → Result ProxyError (List ProxyAction)
  parse_actions [] = ok []
  parse_actions (raw ∷ raws) = do
    action ← parse_action raw
    actions ← parse_actions raws
    ok (action ∷ actions)

  unfoldable pub parse_class : List Bytes → Result ProxyError ProxyClass
  parse_class [] = err few_entries
  parse_class (name ∷ []) = err few_entries
  parse_class (name ∷ raw ∷ raws) = do
    class_name ← parse (j.string_into [] name) bad_json
    actions ← parse_actions (raw ∷ raws)
    ok (record { class_name = class_name; actions = actions })

  unfoldable pub parse_classes : List (List Bytes) → Result ProxyError (List ProxyClass)
  parse_classes [] = ok []
  parse_classes (raw ∷ raws) = do
    class ← parse_class raw
    classes ← parse_classes raws
    ok (class ∷ classes)

  -- `json.Unmarshal` into a slice of slices.
  unfoldable pub all_elements : List Bytes → Result ProxyError (List (List Bytes))
  all_elements [] = ok []
  all_elements (raw ∷ raws) = do
    xs ← parse (a.elements raw) bad_json
    xss ← all_elements raws
    ok (xs ∷ xss)

  -- `newServiceProxy`. That there are 9 entries is not asked for: the error is overwritten.
  unfoldable pub new_service_proxy : Bytes → Bytes → Bytes → Result ProxyError Proxy
  new_service_proxy class_records_raw cert_raw sig_raw = do
    records ← parse (a.elements class_records_raw) bad_json
    version ← int_at records 0
    ident ← string_at records 1
    sector ← string_at records 2
    weight ← int_at records 3
    announce_interval ← int_at records 4
    connspec ← string_at records 5
    raw_protocols ← elements_at records 6
    (protocols, extension) ← parse_protocols raw_protocols [] none
    raw_classes ← elements_at records 7
    class_entries ← all_elements raw_classes
    classes ← parse_classes class_entries
    ok (record {
      version = version;
      ident = ident;
      sector = sector;
      weight = weight;
      announce_interval = announce_interval;
      connspec = connspec;
      protocols = protocols;
      classes = classes;
      extension = extension;
      raw_class_records = class_records_raw;
      raw_cert = cert_raw;
      raw_sig = sig_raw;
      timestamp = [];
    })
