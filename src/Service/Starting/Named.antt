-- ===== src/Service/Starting/Named.antt =====
-- scamp/service.go and scamp/serviceproxy.go: a service that is started, registers actions and is announced.
use scamp_go.Base.{
  ◌≡◌, refl, ap, ◌∙◌, subst, Bool, true, false, not, ◌&&◌, ◌||◌, ◌==◌, List, [], ◌∷◌, Option, none,
  some, if◌then◌else◌, Bytes, bytes_Eq, Bool-cases, inl, inr, arith,
}
use scamp_go.Base.Result.{ok}
use scamp_go.Base.Dict.{insert}
use scamp_go.Header.{Json}
use scamp_go.Ticket.{Crypto}
use scamp_go.Proxy.{Arrays, ProxyClass}
use scamp_go.Signature.{Certificates, sign_sha256}
use scamp_go.Message.{Message}
use scamp_go.Client.{Client}
use scamp_go.Action.{ActionOptions}
use scamp_go.Config.{Config, Net}
use scamp_go.Multicast.{Addresses}
use scamp_go.Service.{Service, ServiceAction, register}
use scamp_go.Service.Marshal.{
  last_dot, class_of, classes_of, service_as_service_proxy, marshal_text, sign_text, Marshalled,
  marshal_panics, cannot_sign, marshalled, announcement,
}
use scamp_go.Service.Starting.{Host, start_service}
use scamp_go.Service.Starting.Fresh.{IsFresh, start_service-IsFresh}

-- What `Register` is called with.
pub record Registration : Type 0 where
  pub action_name : Bytes
  pub callback : Message → Option Client → Option Client
  pub options : Option ActionOptions

abbrev pub register_all : Service → List Registration → Service
register_all serv [] = serv
register_all serv (r ∷ rs) = register_all (register serv r.action_name r.callback r.options).0 rs

abbrev pub has_dot : Bytes → Bool
has_dot [] = false
has_dot (c ∷ s) = has_dot s || c == b'.'

abbrev pub all_have_dots : List Registration → Bool
all_have_dots [] = true
all_have_dots (r ∷ rs) = has_dot r.action_name && all_have_dots rs

abbrev pub is_marshal_panic : Marshalled → Bool
is_marshal_panic marshal_panics = true
is_marshal_panic cannot_sign = false
is_marshal_panic (marshalled text) = false

abbrev pub is_none {ℓ} : {A : Type ℓ} → Option A → Bool
is_none none = true
is_none (some a) = false

last_dot-has_dot : (s : Bytes) → is_none (last_dot s) ≡ not (has_dot s)
last_dot-has_dot [] = refl
last_dot-has_dot (c ∷ s) = split (last_dot s) (last_dot-has_dot s)
  where
    split :
        (behind : Option (Bytes × Bytes))
        → is_none behind ≡ not (has_dot s)
        → is_none {A = Bytes × Bytes} (elim behind [
          | some (class, action) ↦ some (c ∷ class, action)
          | none ↦ if c == b'.' then some ([], s) else none
        ])
          ≡ not (has_dot s || c == b'.')
    split none e = ground (arith, e)
    split (some (class, action)) e = ground (arith, e)

class_of-has_dot :
    (name : Bytes) (action : ServiceAction) → is_none (class_of name action) ≡ not (has_dot name)
class_of-has_dot name action = split (last_dot name) (last_dot-has_dot name)
  where
    split :
        (dot : Option (Bytes × Bytes))
        → is_none dot ≡ not (has_dot name)
        → is_none {A = ProxyClass} (elim dot [
          | none ↦ none
          | some (class_name, action_name) ↦ some (record {
            class_name = class_name;
            actions =
                record {
                  action_name = action_name;
                  crud_tags = action.crud_tags;
                  version = action.version;
                }
                ∷ [];
          })
        ])
          ≡ not (has_dot name)
    split none e = e
    split (some (class, act)) e = e

abbrev dotted : List (Bytes × ServiceAction) → Bool
dotted [] = true
dotted ((name, action) ∷ actions) = has_dot name && dotted actions

dotted-insert :
    (name : Bytes) (action : ServiceAction) (actions : List (Bytes × ServiceAction))
    → dotted (insert name action actions) ≡ (has_dot name && dotted actions)
unfolding insert
dotted-insert name action [] = refl
dotted-insert name action ((other, old) ∷ actions) = elim (Bool-cases (bytes_Eq.beq other name)) [
  | inl hit ↦
      let same : other ≡ name = (bytes_Eq.beq_iff other name).0 hit in
      rw (hit, ap has_dot same) (ground arith)
  | inr miss ↦ rw (miss, dotted-insert name action actions) (ground arith)
]

classes_of-dotted :
    (actions : List (Bytes × ServiceAction)) → is_none (classes_of actions) ≡ not (dotted actions)
unfolding classes_of
classes_of-dotted [] = refl
classes_of-dotted ((name, action) ∷ actions) =
    split (class_of name action) (classes_of actions) (class_of-has_dot name action)
      (classes_of-dotted actions)
  where
    split :
        (first : Option ProxyClass) (rest : Option (List ProxyClass))
        → is_none first ≡ not (has_dot name)
        → is_none rest ≡ not (dotted actions)
        → is_none {A = List ProxyClass} (elim first [
          | none ↦ none
          | some class ↦ elim rest [ none ↦ none | some classes ↦ some (class ∷ classes) ]
        ])
          ≡ not (has_dot name && dotted actions)
    split none rest d r = ground (arith, d)
    split (some class) none d r = ground (arith, d, r)
    split (some class) (some classes) d r = ground (arith, d, r)

register_idle :
    (serv : Service) (r : Registration)
    → serv.is_running ≡ false
    → ((register serv r.action_name r.callback r.options).0.is_running ≡ false)
      × (dotted (register serv r.action_name r.callback r.options).0.actions
          ≡ (has_dot r.action_name && dotted serv.actions))
unfolding register
register_idle serv r idle = rw (register, idle) (refl, dotted-insert r.action_name _ serv.actions)

register_all-dotted :
    (serv : Service) (rs : List Registration)
    → serv.is_running ≡ false
    → dotted (register_all serv rs).actions ≡ (all_have_dots rs && dotted serv.actions)
register_all-dotted serv [] idle = refl
register_all-dotted serv (r ∷ rs) idle =
    let registered = register_idle serv r idle in
    register_all-dotted (register serv r.action_name r.callback r.options).0 rs registered.0
    ∙ ap (λ b. all_have_dots rs && b) registered.1
    ∙ and_swap (all_have_dots rs) (has_dot r.action_name) (dotted serv.actions)
  where
    and_swap : (a b c : Bool) → (a && (b && c)) ≡ ((b && a) && c)
    and_swap a b c = ground arith

-- The text of a signed announcement, and of an announcement that a key signs.
sign_text_lem :
    (c : Crypto) (x : Certificates c) (priv : Option x.PrivateKey) (class_record pem : Bytes)
    → is_marshal_panic (sign_text c x priv class_record pem) ≡ is_none priv
sign_text_lem c x none class_record pem = refl
sign_text_lem c x (some priv) class_record pem = signed (sign_sha256 c x class_record priv)
  where
    signed :
        (sig : Option Bytes)
        → is_marshal_panic (elim sig [
          | none ↦ cannot_sign
          | some s ↦ marshalled (announcement class_record pem s)
        ])
          ≡ false
    signed none = refl
    signed (some s) = refl

module _ (j : Json) (a : Arrays) (c : Crypto) (x : Certificates c) where
  marshal_text-dotted :
      (serv : Service) (priv : Option x.PrivateKey) (timestamp : Bytes)
      → is_marshal_panic (marshal_text j a c x priv serv timestamp)
        ≡ (is_none (classes_of serv.actions) || is_none priv)
  unfolding marshal_text service_as_service_proxy
  marshal_text-dotted serv priv timestamp = split (classes_of serv.actions) refl
    where
      split :
          (classes : Option (List ProxyClass))
          → classes_of serv.actions ≡ classes
          → is_marshal_panic (marshal_text j a c x priv serv timestamp)
            ≡ (is_none (classes_of serv.actions) || is_none priv)
      split none e = rw (marshal_text, service_as_service_proxy, e) refl
      split (some classes) e =
          rw (marshal_text, service_as_service_proxy, e) (sign_text_lem c x priv _ serv.pem_cert)

  -- A service that `NewService` returned registers actions, of any names. Its announcement panics
  -- exactly when one of the names that it was registered with has no dot or its private key is not
  -- an RSA key, at any time.
  pub marshal_text-register_all {ℓ κ} :
      {K : Type κ} (n : Net {ℓ}) (addresses : Addresses n) (host : Host K) (conf : Config)
      (sector spec human : Bytes) (serv : Service) (rs : List Registration)
      (priv : Option x.PrivateKey) (timestamp : Bytes)
      → start_service n addresses host conf sector spec human ≡ ok serv
      → is_marshal_panic (marshal_text j a c x priv (register_all serv rs) timestamp)
        ≡ (not (all_have_dots rs) || is_none priv)
  marshal_text-register_all n addresses host conf sector spec human serv rs priv timestamp started =
      let fresh =
        subst IsFresh started (start_service-IsFresh n addresses host conf sector spec human) in
      marshal_text-dotted (register_all serv rs) priv timestamp
      ∙ ap (λ b. b || is_none priv)
          (classes_of-dotted (register_all serv rs).actions
            ∙ ap not (register_all-dotted serv rs fresh.0)
            ∙ ap (λ actions. not (all_have_dots rs && dotted actions)) fresh.1
            ∙ and_true (all_have_dots rs))
    where
      and_true : (b : Bool) → not (b && true) ≡ not b
      and_true b = ground arith
