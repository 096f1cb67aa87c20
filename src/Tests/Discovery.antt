-- ===== src/Tests/Discovery.antt =====
-- Signatures and scans at concrete inputs, with a key pair that makes one signature.
use scamp_go.Base.{
  ap, sym, ◌∙◌, ◌+◌, ◌-◌, ◌==◌, ◌++◌, List, append-nil, arith, if◌then◌else◌, Bool-cases, inl, inr,
  ◌≡◌, refl, [], ◌∷◌, none, some, Bytes, codes, drop, subst, some_eq, bytes_eq, true,
}
use scamp_go.Base.Result.{err}
use scamp_go.Base.Split.{join, join_all}
use scamp_go.Message.Chunks.{concat}
use scamp_go.Base.Decimal.{format_int, format_uint}
use scamp_go.Proxy.{Proxy, marshal_json}
use scamp_go.Proxy.RoundTrip.{new_service_proxy-marshal_json}
use scamp_go.Signature.{Certificates, decode_panic, sign_sha256, validate}
use scamp_go.Signature.Signed.{IsCertificateOf, SigningLaws, validate-sign_sha256}
use scamp_go.Cache.Scan.Records.{Entry, Holds, class_records}
use scamp_go.Tests.Codec.{codec, codec-Laws}
use scamp_go.Tests.Arrays.{arrays, arrays-ArrayLaws, announced, announced-IsPlainProxy}
use scamp_go.Tests.Tickets.{crypto}

-- An encoding that gives no line end, and a decoder that passes over them.
abbrev shift : Bytes → Bytes
shift [] = []
shift (c ∷ s) = (c + 20) ∷ shift s

abbrev unshift : Bytes → Bytes
unshift [] = []
unshift (c ∷ s) = if c == b'\n' then unshift s else (c - 20) ∷ unshift s

unshift-shift : (s : Bytes) → unshift (shift s) ≡ s
unshift-shift [] = refl
unshift-shift (c ∷ s) = ground (arith, unshift-shift s)

unshift-append : (s t : Bytes) → unshift (s ++ t) ≡ unshift s ++ unshift t
unshift-append [] t = refl
unshift-append (c ∷ s) t = elim (Bool-cases (c == b'\n')) [
  | inl hit ↦ rw (hit, unshift-append s t) refl
  | inr miss ↦ rw (miss, unshift-append s t) refl
]

unshift-join :
    (line : Bytes) (lines : List Bytes)
    → unshift (join b'\n' line lines) ≡ unshift (line ++ concat lines)
unfolding join
unshift-join line [] = rw (append-nil line) refl
unshift-join line (next ∷ lines) =
    unshift-append line (b'\n' ∷ join b'\n' next lines)
    ∙ ap (λ s. unshift line ++ s) (unshift-join next lines)
    ∙ sym (unshift-append line (next ++ concat lines))

decodes :
    (s : Bytes) (lines : List Bytes)
    → concat lines ≡ shift s
    → some (unshift (join_all b'\n' lines)) ≡ some s
decodes s [] e = ap (λ t. some (unshift t)) e ∙ ap some (unshift-shift s)
decodes s (line ∷ lines) e = ap some (unshift-join line lines ∙ ap unshift e ∙ unshift-shift s)

abbrev pub certificates : Certificates crypto
certificates = record {
  Certificate = Bytes;
  parse_certificate = λ block. some block;
  rsa_key = λ cert. some cert;
  raw = λ cert. cert;
  sha1 = λ s. 171 ∷ [];
  std_encode = shift;
  std_decode = λ s. some (unshift s);
  url_decode_nil = λ s. err decode_panic;
  PrivateKey = Unit {0};
  sign = λ priv hash. some (codes "sig");
}

pub certificates-SigningLaws : SigningLaws crypto certificates tt (codes "cert")
certificates-SigningLaws = record {
  decode_encode = decodes;
  verifies_sign = λ hash sig e. subst (λ s. bytes_eq s (codes "sig") ≡ true) (some_eq e) refl;
}

abbrev signed : Proxy
signed = record announced {
  raw_class_records = codes "[3]";
  raw_cert = codes "cert";
  raw_sig = 135 ∷ 125 ∷ b'\n' ∷ 123 ∷ [];
}

pub cert-IsCertificateOf : IsCertificateOf crypto certificates (codes "cert") (codes "cert")
cert-IsCertificateOf = record {
  block = codes "cert";
  cert = codes "cert";
  is_pem = refl;
  is_certificate = refl;
  has_key = refl;
}

validate-sign_sha256_example : validate crypto certificates signed ≡ none
unfolding sign_sha256 join
validate-sign_sha256_example =
    validate-sign_sha256 crypto certificates tt (codes "cert") certificates-SigningLaws signed
      (135 ∷ 125 ∷ 123 ∷ []) ((135 ∷ 125 ∷ []) ∷ (123 ∷ []) ∷ []) refl refl refl
      cert-IsCertificateOf

abbrev pub entry : Entry
entry = record {
  first = b'[';
  others = drop 1 (marshal_json codec arrays announced);
  cert_line = codes "cert";
  cert_lines = [];
  sig_line = codes "sig";
  sig_lines = [];
}

abbrev pub read_back : Proxy
read_back = record announced {
  extension = none;
  raw_class_records = class_records entry;
  raw_cert = codes "cert";
  raw_sig = codes "sig";
  timestamp = [];
}

pub entry-Holds : Holds codec arrays crypto certificates entry read_back
unfolding marshal_json join format_int format_uint
entry-Holds = record {
  cert_block = (((λ e. cc), refl), tt);
  sig_block = (((λ e. cc), refl), tt);
  reads =
      new_service_proxy-marshal_json codec arrays codec-Laws arrays-ArrayLaws announced
        (codes "cert") (codes "sig") announced-IsPlainProxy;
}
