-- ===== src/Tests/Arrays.antt =====
-- Arrays for the codec, with the laws that are asked of `encoding/json`: in brackets, the bytes of each
-- element, eleven up, and a zero.
use scamp_go.Base.{
  ℕ, ◌+◌, ◌-◌, ◌≡◌, ◌≢◌, refl, ap, ◌∙◌, false, List, [], ◌∷◌, ◌++◌, map, Option, none, some, arith,
  ◌==◌, if◌then◌else◌, Bytes, codes, All, All-append, append_assoc, append-nil,
}
use scamp_go.Base.Decimal.{format_uint}
use scamp_go.Proxy.{Proxy, Arrays, marshal_json, new_service_proxy}
use scamp_go.Base.Result.{ok}
use scamp_go.Proxy.RoundTrip.{
  ArrayLaws, IsDecimal, decimal, IsPlainProxy, new_service_proxy-marshal_json,
}
use scamp_go.Tests.Codec.{codec, codec-Laws}

abbrev up : ℕ → ℕ
up c = c + 11

abbrev element : Bytes → Bytes → Bytes
element s rest = map up s ++ (0 ∷ rest)

abbrev inner : List Bytes → Bytes
inner [] = []
inner (x ∷ xs) = element x (inner xs)

abbrev cut : Bytes → Bytes → List Bytes
cut [] cur = []
cut (c ∷ s) cur = if c == 0 then cur ∷ cut s [] else cut s (cur ++ (c - 11) ∷ [])

abbrev elements : Bytes → Option (List Bytes)
elements [] = none
elements (c ∷ s) = if c == b'[' then some (cut s []) else none

abbrev pub arrays : Arrays
arrays = record {
  array = λ xs. b'[' ∷ (inner xs ++ b']' ∷ []);
  elements = elements;
  is_extension = λ raw. false;
}

cut-element : (s rest cur : Bytes) → cut (element s rest) cur ≡ (cur ++ s) ∷ cut rest []
cut-element [] rest cur = rw append-nil
cut-element (c ∷ s) rest cur =
    let above : (up c == 0) ≡ false = ground arith in
    let back : up c - 11 ≡ c = omega arith in
    rw (above, back) (cut-element s rest (cur ++ c ∷ []) ∙ rw append_assoc)

cut-inner : (xs : List Bytes) → cut (inner xs ++ b']' ∷ []) [] ≡ xs
cut-inner [] = refl
cut-inner (x ∷ xs) =
    rw
      (append_assoc (map up x) (0 ∷ inner xs) (b']' ∷ []), cut-element x (inner xs ++ b']' ∷ []) [])
      (ap (◌∷◌ x) (cut-inner xs))

up-line : (s : Bytes) → All (λ c. c ≢ b'\n') (map up s)
up-line [] = tt
up-line (c ∷ s) = (omega arith, up-line s)

inner-line : (xs : List Bytes) → All (λ c. c ≢ b'\n') (inner xs)
inner-line [] = tt
inner-line (x ∷ xs) =
    All-append (λ c. c ≢ b'\n') (map up x) (0 ∷ inner xs) (up-line x) (omega arith, inner-line xs)

pub arrays-ArrayLaws : ArrayLaws codec arrays
arrays-ArrayLaws = record {
  elements_array = λ xs h. ap some (cut-inner xs);
  array_line = λ xs. (inner xs, refl, inner-line xs);
  quote_ne_null = λ s. refl;
}

abbrev pub announced : Proxy
announced = record {
  version = 3;
  ident = codes "srv:1";
  sector = codes "main";
  weight = 1;
  announce_interval = 2500;
  connspec = codes "beepish+tls://10.0.0.1:30100";
  protocols = codes "json" ∷ [];
  classes =
      record {
        class_name = codes "Auth";
        actions = record { action_name = codes "login"; crud_tags = []; version = 1 } ∷ [];
      }
      ∷ [];
  extension = none;
  raw_class_records = [];
  raw_cert = [];
  raw_sig = [];
  timestamp = codes "1440001142.000000";
}

timestamp-IsDecimal : IsDecimal (codes "1440001142.000000")
unfolding format_uint
timestamp-IsDecimal = decimal 1440001142 (codes "000000") (omega arith)

pub announced-IsPlainProxy : IsPlainProxy codec announced
announced-IsPlainProxy = record {
  version_fits = omega arith;
  ident_valid = refl;
  sector_valid = refl;
  weight_fits = omega arith;
  interval_fits = omega arith;
  connspec_valid = refl;
  protocols_valid = (refl, tt);
  classes_plain = (
    record {
      name_valid = refl;
      actions_plain =
          (record { name_valid = refl; tags_valid = refl; version_fits = omega arith }, tt);
      has_action = λ e. cc;
    },
    tt,
  );
  timestamp_decimal = timestamp-IsDecimal;
}

new_service_proxy-marshal_json_example :
    new_service_proxy codec arrays
      (marshal_json codec arrays announced)
      (codes "cert")
      (codes "sig")
    ≡ ok (record announced {
      extension = none;
      raw_class_records = marshal_json codec arrays announced;
      raw_cert = codes "cert";
      raw_sig = codes "sig";
      timestamp = [];
    })
new_service_proxy-marshal_json_example =
    new_service_proxy-marshal_json codec arrays codec-Laws arrays-ArrayLaws announced (codes "cert")
      (codes "sig") announced-IsPlainProxy
