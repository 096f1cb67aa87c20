-- ===== src/Service/Found.antt =====
-- scamp/service.go, scamp/serviceproxy.go and scamp/servicecache.go: a service that announces itself is
-- found by the actions that it has registered.
pub mod Scanned
use scamp_go.Base.{
  ℕ, ◌<◌, ◌≡◌, refl, ap, sym, ◌∙◌, subst, some_eq, Bool, true, false, List, [], ◌∷◌, ◌++◌, Option,
  none, some, if◌then◌else◌, Bytes, bytes_Eq, bytes_eq, bytes_eq_refl, codes, length, Bool-cases,
  inl, inr, append_assoc, append-nil, ◌==◌, arith,
}
use scamp_go.Base.Dict.{lookup}
use scamp_go.Base.Result.{ok}
use scamp_go.Cache.Scan.Marshalled.{announced_back}
use scamp_go.Base.Decimal.{format_int}
use scamp_go.Proxy.{Proxy, ProxyClass, ProxyAction}
use scamp_go.Cache.{
  ServiceCache, munged_name, store, clear, search_by_action, searched_name, or_not_found, to_lower,
}
use scamp_go.Cache.Search.{
  class_names, protocol_names, copies, offering, store_all, search_by_action-store_all,
}
use scamp_go.Service.{Service, ServiceAction}
use scamp_go.Service.Marshal.{last_dot, class_of, classes_of, service_as_service_proxy}

-- The class that a registered name is announced as.
abbrev class_named : Bytes → Bytes → ServiceAction → ProxyClass
class_named class_name action_name action = record {
  class_name = class_name;
  actions =
      record { action_name = action_name; crud_tags = action.crud_tags; version = action.version }
      ∷ [];
}

last_dot_parts :
    (s class action : Bytes) → last_dot s ≡ some (class, action) → s ≡ class ++ b'.' ∷ action
last_dot_parts [] class action e = absurd cc
last_dot_parts (c ∷ s) class action e = split (last_dot s) refl (last_dot_parts s) e
  where
    split :
        (behind : Option (Bytes × Bytes))
        → last_dot s ≡ behind
        → ((cl act : Bytes) → last_dot s ≡ some (cl, act) → s ≡ cl ++ b'.' ∷ act)
        → elim behind as (λ _. Option (Bytes × Bytes)) [
          | some (cl, act) ↦ some (c ∷ cl, act)
          | none ↦ if c == b'.' then some ([], s) else none
        ]
          ≡ some (class, action)
        → c ∷ s ≡ class ++ b'.' ∷ action
    split none b again e = elim (Bool-cases (c == b'.')) [
      | inl hit ↦
          let parts : ◌≡◌ {A = Bytes × Bytes} ([], s) (class, action) = some_eq (rw hit at e) in
          let dot : c ≡ b'.' = ground (arith, hit) in
          ap (λ d. d ∷ s) dot ∙ ap (λ (p : Bytes × Bytes). p.0 ++ b'.' ∷ p.1) parts
      | inr miss ↦ absurd (ground (arith, rw miss at e))
    ]
    split (some (cl, act)) b again e =
        let parts : (c ∷ cl, act) ≡ (class, action) = some_eq e in
        ap (λ t. c ∷ t) (again cl act b) ∙ ap (λ (p : Bytes × Bytes). p.0 ++ b'.' ∷ p.1) parts

classes_of_parts :
    (name : Bytes) (action : ServiceAction) (actions : List (Bytes × ServiceAction))
    (classes : List ProxyClass)
    → classes_of ((name, action) ∷ actions) ≡ some classes
    → (class_name : Bytes) × (action_name : Bytes) × (rest : List ProxyClass) × (name
        ≡ class_name ++ b'.' ∷ action_name)
      × (classes_of actions ≡ some rest)
      × (classes ≡ class_named class_name action_name action ∷ rest)
unfolding classes_of
classes_of_parts name action actions classes e =
    split (last_dot name) (classes_of actions) refl refl e
  where
    split :
        (dot : Option (Bytes × Bytes)) (behind : Option (List ProxyClass))
        → last_dot name ≡ dot
        → classes_of actions ≡ behind
        → elim (elim dot as (λ _. Option ProxyClass) [
          | none ↦ none
          | some (class_name, action_name) ↦ some (class_named class_name action_name action)
        ])
            as (λ _. Option (List ProxyClass)) [
              | none ↦ none
              | some class ↦ elim behind [ none ↦ none | some classes ↦ some (class ∷ classes) ]
            ]
          ≡ some classes
        → (class_name : Bytes) × (action_name : Bytes) × (rest : List ProxyClass) × (name
            ≡ class_name ++ b'.' ∷ action_name)
          × (classes_of actions ≡ some rest)
          × (classes ≡ class_named class_name action_name action ∷ rest)
    split none behind d b e = absurd cc
    split (some (cn, an)) none d b e = absurd cc
    split (some (cn, an)) (some rest) d b e =
        (cn, an, rest, last_dot_parts name cn an d, b, sym (some_eq e))

munged_name-searched_name :
    (sector class_name action_name : Bytes) (action : ServiceAction) (protocol : Bytes)
    → munged_name sector class_name
        (record {
          action_name = action_name;
          crud_tags = action.crud_tags;
          version = action.version;
        })
        protocol
      ≡ searched_name sector (class_name ++ b'.' ∷ action_name) action.version protocol
unfolding munged_name
munged_name-searched_name sector class_name action_name action protocol =
    simp (munged_name, append_assoc) refl

-- A proxy that offers an action is among those that a search for it finds.
copies_hit :
    (name n : Bytes) (proxy : Proxy) (names : List Bytes)
    → n ≡ name
    → copies name proxy (n ∷ names) ≡ proxy ∷ copies name proxy names
copies_hit name n proxy names e =
    ap (λ m. if bytes_eq m name then proxy ∷ copies name proxy names else copies name proxy names) e
    ∙ rw (bytes_eq_refl name) refl

-- Whatever names stand in front.
copies_behind :
    (name n : Bytes) (proxy : Proxy) (names : List Bytes)
    → ((others : List Proxy) × (copies name proxy names ≡ proxy ∷ others))
    → (others : List Proxy) × (copies name proxy (n ∷ names) ≡ proxy ∷ others)
copies_behind name n proxy names (others, e) = elim (Bool-cases (bytes_eq n name)) [
  | inl hit ↦ (copies name proxy names, rw hit refl)
  | inr miss ↦ (others, rw miss e)
]

pub registered_copies :
    (proxy : Proxy) (name : Bytes) (action : ServiceAction) (actions : List (Bytes × ServiceAction))
    (classes : List ProxyClass)
    → proxy.protocols ≡ codes "json" ∷ []
    → classes_of actions ≡ some classes
    → lookup name actions ≡ some action
    → (others : List Proxy) × (copies
          (searched_name proxy.sector name action.version (codes "json"))
          proxy
          (class_names proxy classes)
        ≡ proxy ∷ others)
unfolding lookup
registered_copies proxy name action [] classes only made known = absurd cc
registered_copies proxy name action ((n, act) ∷ actions) classes only made known =
    let (cn, an, rest, parts, behind, shape) = classes_of_parts n act actions classes made in
    let wanted = searched_name proxy.sector name action.version (codes "json") in
    let offered =
      munged_name proxy.sector cn
        (record { action_name = an; crud_tags = act.crud_tags; version = act.version })
        (codes "json") in
    let names : class_names proxy classes ≡ offered ∷ class_names proxy rest =
      ap (class_names proxy) shape
      ∙ ap
          (λ protocols.
            protocol_names proxy cn
              (record { action_name = an; crud_tags = act.crud_tags; version = act.version })
              protocols
            ++ []
            ++ class_names proxy rest)
          only in
    elim (Bool-cases (bytes_Eq.beq n name)) [
      | inl hit ↦
          let same : n ≡ name = (bytes_Eq.beq_iff n name).0 hit in
          let is_it : act ≡ action = some_eq (rw hit at known) in
          (
            _,
            ap (copies wanted proxy) names
                ∙ copies_hit wanted offered proxy (class_names proxy rest) (
                    munged_name-searched_name proxy.sector cn an act (codes "json")
                    ∙ ap (λ t. searched_name proxy.sector t act.version (codes "json"))
                        (sym parts ∙ same)
                    ∙ ap
                        (λ (b : ServiceAction).
                          searched_name proxy.sector name b.version (codes "json"))
                        is_it),
          )
      | inr miss ↦
          let found =
            copies_behind wanted offered proxy (class_names proxy rest)
              (registered_copies proxy name action actions rest only behind (rw miss at known)) in
          (found.0, ap (copies wanted proxy) names ∙ found.1)
    ]
