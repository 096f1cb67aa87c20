-- ===== src/Tests/Codec.antt =====
-- A codec with the laws that are asked of `encoding/json`, simple enough to run: a string is its
-- bytes behind a quote, and an object is its keys and values, each byte one up, ended by zeros.
use scamp_go.Base.{
  zero, suc, ◌≡◌, ◌≢◌, refl, ap, ◌∙◌, true, List, [], ◌∷◌, ◌++◌, map, Option, none, some, arith,
  ◌==◌, if◌then◌else◌, Bytes, append_assoc, append-nil,
}
use scamp_go.Base.Decimal.{format_int, parse_int}
use scamp_go.Base.Decimal.RoundTrip.{parse_int-format_int, format_int-ne-cons}
use scamp_go.Header.{Json}
use scamp_go.Header.RoundTrip.{Laws}

abbrev unquote : Bytes → Option Bytes
unquote [] = none
unquote (c ∷ s) = if c == b'"' then some s else none

abbrev field : Bytes → Bytes → Bytes
field s rest = map suc s ++ (zero ∷ rest)

abbrev fields : List (Bytes × Bytes) → Bytes
fields [] = []
fields ((k, v) ∷ ms) = field k (field v (fields ms))

abbrev cut : Bytes → Bytes → List Bytes
cut [] cur = []
cut (zero ∷ s) cur = cur ∷ cut s []
cut (suc c ∷ s) cur = cut s (cur ++ c ∷ [])

abbrev pairs : List Bytes → List (Bytes × Bytes)
pairs (k ∷ v ∷ r) = (k, v) ∷ pairs r
pairs _ = []

abbrev pub codec : Json
codec = record {
  valid = λ s. true;
  quote = λ s. b'"' ∷ s;
  object = fields;
  string_into = λ old raw. unquote raw;
  int_into = λ old raw. parse_int raw;
  members = λ text. some (pairs (cut text []));
}

cut-field : (s rest cur : Bytes) → cut (field s rest) cur ≡ (cur ++ s) ∷ cut rest []
cut-field [] rest cur = rw append-nil
cut-field (c ∷ s) rest cur = cut-field s rest (cur ++ c ∷ []) ∙ rw append_assoc

members_fields : (ms : List (Bytes × Bytes)) → pairs (cut (fields ms ++ b'\n' ∷ []) []) ≡ ms
members_fields [] = refl
members_fields ((k, v) ∷ ms) =
    rw
      (
        append_assoc (map suc k) (zero ∷ field v (fields ms)) (b'\n' ∷ []),
        cut-field k (field v (fields ms) ++ b'\n' ∷ []) [],
        append_assoc (map suc v) (zero ∷ fields ms) (b'\n' ∷ []),
        cut-field v (fields ms ++ b'\n' ∷ []) [],
      )
      (ap (◌∷◌ (k, v)) (members_fields ms))

unquote-eq-none : (raw : Bytes) → ((s : Bytes) → raw ≢ b'"' ∷ s) → unquote raw ≡ none
unquote-eq-none [] h = refl
unquote-eq-none (c ∷ s) h = ground (arith, h s)

pub codec-Laws : Laws codec
codec-Laws = record {
  string_quote = λ old s v. refl;
  int_number = λ old n b. parse_int-format_int n b;
  string_number = λ old n b.
      unquote-eq-none (format_int n) (λ s. format_int-ne-cons n b'"' s refl (omega arith));
  members_object = λ ms h. ap some (members_fields ms);
}
