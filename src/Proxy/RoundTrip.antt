-- ===== src/Proxy/RoundTrip.antt =====
-- scamp/serviceproxy.go: a proxy as JSON and back, over what `encoding/json` documents of arrays.
use scamp_go.Base.{
  ℕ, ◌<◌, ◌≡◌, ◌≢◌, refl, ◌∙◌, true, false, List, [], ◌∷◌, ◌++◌, map, Option, none, some, Bytes,
  codes, bytes_eq, All, append_assoc, append-nil,
}
use scamp_go.Base.Decimal.{two_64, format_int, format_uint, IsDigit}
use scamp_go.Base.Result.{ok}
use scamp_go.Header.{Json}
use scamp_go.Header.RoundTrip.{Laws}
use scamp_go.Proxy.{
  ProxyAction, ProxyClass, Proxy, Arrays, action_text, class_text, marshal_json, parse_protocols,
  version_of, parse_action, parse_actions, parse_class, parse_classes, all_elements,
  new_service_proxy,
}

-- A number with a fraction, as `%f` writes it.
pub data IsDecimal : Bytes → Type 0 where
  decimal :
      (n : ℕ) (fraction : Bytes)
      → All IsDigit fraction
      → IsDecimal (format_uint n ++ b'.' ∷ fraction)

-- The texts that are put in arrays.
mutual
  pub data IsText (j : Json) (a : Arrays) : Bytes → Type 0 where
    quoted : (s : Bytes) → IsText j a (j.quote s)
    number : (n : ℕ) → n < two_64 → IsText j a (format_int n)
    fraction : (s : Bytes) → IsDecimal s → IsText j a s
    array_text : (xs : List Bytes) → AreTexts j a xs → IsText j a (a.array xs)

  pub data AreTexts (j : Json) (a : Arrays) : List Bytes → Type 0 where
    no_texts : AreTexts j a []
    more_texts :
        {x : Bytes} {xs : List Bytes} → IsText j a x → AreTexts j a xs → AreTexts j a (x ∷ xs)

-- What the code relies on: an array gives back the texts that it was made of, and is one line in
-- brackets; a quoted text is not the literal `null`.
pub record ArrayLaws (j : Json) (a : Arrays) : Type 0 where
  pub elements_array : (xs : List Bytes) → AreTexts j a xs → a.elements (a.array xs) ≡ some xs
  pub array_line :
      (xs : List Bytes)
      → (inner : Bytes) × (a.array xs ≡ b'[' ∷ (inner ++ b']' ∷ [])) × All (λ c. c ≢ b'\n') inner
  pub quote_ne_null : (s : Bytes) → bytes_eq (j.quote s) (codes "null") ≡ false

-- Valid texts and 64-bit numbers, and a class with one action or more.
pub record IsPlainAction (j : Json) (action : ProxyAction) : Type 0 where
  pub name_valid : j.valid action.action_name ≡ true
  pub tags_valid : j.valid action.crud_tags ≡ true
  pub version_fits : action.version < two_64

pub record IsPlainClass (j : Json) (class : ProxyClass) : Type 0 where
  pub name_valid : j.valid class.class_name ≡ true
  pub actions_plain : All (IsPlainAction j) class.actions
  pub has_action : class.actions ≢ []

pub record IsPlainProxy (j : Json) (sp : Proxy) : Type 0 where
  pub version_fits : sp.version < two_64
  pub ident_valid : j.valid sp.ident ≡ true
  pub sector_valid : j.valid sp.sector ≡ true
  pub weight_fits : sp.weight < two_64
  pub interval_fits : sp.announce_interval < two_64
  pub connspec_valid : j.valid sp.connspec ≡ true
  pub protocols_valid : All (λ s. j.valid s ≡ true) sp.protocols
  pub classes_plain : All (IsPlainClass j) sp.classes
  pub timestamp_decimal : IsDecimal sp.timestamp

module _ (j : Json) (a : Arrays) (laws : Laws j) (array_laws : ArrayLaws j a) where
  AreTexts-map-quote : (ss : List Bytes) → AreTexts j a (map j.quote ss)
  AreTexts-map-quote [] = no_texts
  AreTexts-map-quote (s ∷ ss) = more_texts (quoted s) (AreTexts-map-quote ss)

  action_entries :
      (x : ProxyAction)
      → IsPlainAction j x
      → AreTexts j a (j.quote x.action_name ∷ j.quote x.crud_tags ∷ format_int x.version ∷ [])
  action_entries x p =
      more_texts (quoted x.action_name)
        (more_texts (quoted x.crud_tags) (more_texts (number x.version p.version_fits) no_texts))

  action_text-IsText : (x : ProxyAction) → IsPlainAction j x → IsText j a (action_text j a x)
  unfolding action_text
  action_text-IsText x p = array_text _ (action_entries x p)

  AreTexts-map-action_text :
      (xs : List ProxyAction) → All (IsPlainAction j) xs → AreTexts j a (map (action_text j a) xs)
  AreTexts-map-action_text [] p = no_texts
  AreTexts-map-action_text (x ∷ xs) (p, ps) =
      more_texts (action_text-IsText x p) (AreTexts-map-action_text xs ps)

  class_entries :
      (x : ProxyClass)
      → IsPlainClass j x
      → AreTexts j a (j.quote x.class_name ∷ map (action_text j a) x.actions)
  class_entries x p =
      more_texts (quoted x.class_name) (AreTexts-map-action_text x.actions p.actions_plain)

  AreTexts-map-class_text :
      (xs : List ProxyClass) → All (IsPlainClass j) xs → AreTexts j a (map (class_text j a) xs)
  unfolding class_text
  AreTexts-map-class_text [] p = no_texts
  AreTexts-map-class_text (x ∷ xs) (p, ps) =
      more_texts (array_text _ (class_entries x p)) (AreTexts-map-class_text xs ps)

  parse_protocols-map-quote :
      (ss acc : List Bytes) (e : Option Bytes)
      → All (λ s. j.valid s ≡ true) ss
      → parse_protocols j a (map j.quote ss) acc e ≡ ok (acc ++ ss, e)
  unfolding parse_protocols
  parse_protocols-map-quote [] acc e v = rw append-nil
  parse_protocols-map-quote (s ∷ ss) acc e (v, vs) =
      rw (array_laws.quote_ne_null s, laws.string_quote [] s v, parse_protocols)
        (parse_protocols-map-quote ss (acc ++ s ∷ []) e vs ∙ rw append_assoc)

  version_of-format_int : (n : ℕ) → n < two_64 → version_of j a (format_int n) ≡ ok n
  version_of-format_int n b = rw (laws.int_number 0 n b, version_of)

  parse_action-action_text :
      (x : ProxyAction) → IsPlainAction j x → parse_action j a (action_text j a x) ≡ ok x
  unfolding parse_action action_text
  parse_action-action_text x p = rw (
    array_laws.elements_array _ (action_entries x p),
    laws.string_quote [] x.action_name p.name_valid,
    laws.string_quote [] x.crud_tags p.tags_valid,
    version_of-format_int x.version p.version_fits,
  )

  parse_actions-map :
      (xs : List ProxyAction)
      → All (IsPlainAction j) xs
      → parse_actions j a (map (action_text j a) xs) ≡ ok xs
  unfolding parse_actions
  parse_actions-map [] p = refl
  parse_actions-map (x ∷ xs) (p, ps) = rw (parse_action-action_text x p, parse_actions-map xs ps)

  parse_class-entries :
      (name : Bytes) (xs : List ProxyAction)
      → j.valid name ≡ true
      → All (IsPlainAction j) xs
      → xs ≢ []
      → parse_class j a (j.quote name ∷ map (action_text j a) xs)
        ≡ ok (record { class_name = name; actions = xs })
  unfolding parse_class
  parse_class-entries name [] v p h = absurd (h refl)
  parse_class-entries name (x ∷ xs) v p h =
      rw (laws.string_quote [] name v, parse_actions-map (x ∷ xs) p)

  abbrev entries_of : List ProxyClass → List (List Bytes)
  entries_of [] = []
  entries_of (x ∷ xs) = (j.quote x.class_name ∷ map (action_text j a) x.actions) ∷ entries_of xs

  all_elements-map :
      (xs : List ProxyClass)
      → All (IsPlainClass j) xs
      → all_elements j a (map (class_text j a) xs) ≡ ok (entries_of xs)
  unfolding all_elements class_text
  all_elements-map [] p = refl
  all_elements-map (x ∷ xs) (p, ps) =
      rw (array_laws.elements_array _ (class_entries x p), all_elements-map xs ps)

  parse_classes-entries_of :
      (xs : List ProxyClass) → All (IsPlainClass j) xs → parse_classes j a (entries_of xs) ≡ ok xs
  unfolding parse_classes
  parse_classes-entries_of [] p = refl
  parse_classes-entries_of (x ∷ xs) (p, ps) = rw (
    parse_class-entries x.class_name x.actions p.name_valid p.actions_plain p.has_action,
    parse_classes-entries_of xs ps,
  )

  proxy_entries :
      (sp : Proxy)
      → IsPlainProxy j sp
      → AreTexts j a (
          format_int sp.version
          ∷ j.quote sp.ident
          ∷ j.quote sp.sector
          ∷ format_int sp.weight
          ∷ format_int sp.announce_interval
          ∷ j.quote sp.connspec
          ∷ a.array (map j.quote sp.protocols)
          ∷ a.array (map (class_text j a) sp.classes)
          ∷ sp.timestamp
          ∷ [])
  proxy_entries sp p = more_texts (number sp.version p.version_fits) (
      more_texts (quoted sp.ident) (
        more_texts (quoted sp.sector) (
          more_texts (number sp.weight p.weight_fits) (
            more_texts (number sp.announce_interval p.interval_fits) (
              more_texts (quoted sp.connspec) (
                more_texts (array_text _ (AreTexts-map-quote sp.protocols)) (
                  more_texts (array_text _ (AreTexts-map-class_text sp.classes p.classes_plain))
                    (more_texts (fraction sp.timestamp p.timestamp_decimal) no_texts))))))))

  -- For a codec with the laws `Laws` and `ArrayLaws`, a proxy whose texts are valid, whose numbers
  -- fit a machine word, whose classes each have an action, and whose timestamp is a decimal number
  -- is marshalled and read again: the proxy comes back, with the text and the given certificate
  -- and signature as its raw parts, without extension and timestamp.
  pub new_service_proxy-marshal_json :
      (sp : Proxy) (cert sig : Bytes)
      → IsPlainProxy j sp
      → new_service_proxy j a (marshal_json j a sp) cert sig
        ≡ ok (record sp {
          extension = none;
          raw_class_records = marshal_json j a sp;
          raw_cert = cert;
          raw_sig = sig;
          timestamp = [];
        })
  unfolding new_service_proxy marshal_json
  new_service_proxy-marshal_json sp cert sig p = rw (
    array_laws.elements_array _ (proxy_entries sp p),
    laws.int_number 0 sp.version p.version_fits,
    laws.string_quote [] sp.ident p.ident_valid,
    laws.string_quote [] sp.sector p.sector_valid,
    laws.int_number 0 sp.weight p.weight_fits,
    laws.int_number 0 sp.announce_interval p.interval_fits,
    laws.string_quote [] sp.connspec p.connspec_valid,
    array_laws.elements_array _ (AreTexts-map-quote sp.protocols),
    parse_protocols-map-quote sp.protocols [] none p.protocols_valid,
    array_laws.elements_array _ (AreTexts-map-class_text sp.classes p.classes_plain),
    all_elements-map sp.classes p.classes_plain,
    parse_classes-entries_of sp.classes p.classes_plain,
  )
