-- ===== src/Signature.antt =====
-- scamp/verify.go: signatures over SHA-256, and scamp/serviceproxy.go: the check of a proxy's signature.
-- `crypto/x509`, `encoding/base64` with the standard alphabet, and signing are a record `Certificates`
-- beside `Crypto`.
pub mod Signed
use scamp_go.Base.{
  ℕ, zero, suc, ◌-◌, ◌%◌, Bool, true, false, List, [], ◌∷◌, ◌++◌, Option, none, some, ◌==◌,
  if◌then◌else◌, Bytes, codes, length,
}
use scamp_go.Base.Result.{Result, ok, err, ◌>>=◌, ◌>>◌, guard}
use scamp_go.Ticket.{Crypto}
use scamp_go.Proxy.{Proxy}
use scamp_go.Cert.{sha1_finger_print}

pub data SignatureError : Type 0 where
  bad_encoding no_certificate bad_certificate not_rsa bad_signature decode_panic : SignatureError

pub record Certificates (c : Crypto) : Type 1 where
  -- `x509.ParseCertificate` of a PEM block, the RSA key in a certificate, and its raw bytes.
  pub Certificate : Type 0
  pub parse_certificate : Bytes → Option Certificate
  pub rsa_key : Certificate → Option c.Key
  pub raw : Certificate → Bytes
  pub sha1 : Bytes → Bytes
  -- `base64.StdEncoding`, whose decoder passes over line ends.
  pub std_encode : Bytes → Bytes
  pub std_decode : Bytes → Option Bytes
  -- `base64.URLEncoding.Decode` into a nil slice: an error, or nothing written, or a panic.
  pub url_decode_nil : Bytes → Result SignatureError (Unit {0})
  -- `rsa.SignPKCS1v15` of a hash.
  pub PrivateKey : Type 0
  pub sign : PrivateKey → Bytes → Option Bytes

abbrev pub parse {ℓ} : {A : Type ℓ} → Option A → SignatureError → Result SignatureError A
parse none e = err e
parse (some a) e = ok a

abbrev repeat : ℕ → Bytes → Bytes
repeat zero s = []
repeat (suc n) s = s ++ repeat n s

abbrev pub padded : Bytes → Bytes
padded incoming =
    let m = length incoming % 4 in
    if m == 0 then incoming else incoming ++ repeat (4 - m) (b'=' ∷ [])

module _ (c : Crypto) (x : Certificates c) where
  -- `decodeUnpaddedBase64`. The slice that the URL branch decodes into is nil, and stays so.
  unfoldable pub decode_unpadded_base64 : Bytes → Bool → Result SignatureError Bytes
  decode_unpadded_base64 incoming true = x.url_decode_nil (padded incoming) >> ok []
  decode_unpadded_base64 incoming false = parse (x.std_decode incoming) bad_encoding

  -- `verifySHA256`.
  unfoldable pub verify_sha256 : Bytes → c.Key → Bytes → Bool → Result SignatureError (Unit {0})
  verify_sha256 raw_payload key encoded_signature is_url_encoded = do
    expected_sig ← decode_unpadded_base64 encoded_signature is_url_encoded
    guard (c.verifies key (c.sha256 raw_payload) expected_sig) bad_signature

  -- `signSHA256`.
  unfoldable pub sign_sha256 : Bytes → x.PrivateKey → Option Bytes
  sign_sha256 raw_payload priv = elim (x.sign priv (c.sha256 raw_payload)) [
    | none ↦ none
    | some sig ↦ some (x.std_encode sig)
  ]

  -- `validateSignature`: the certificate's fingerprint.
  unfoldable pub validate_signature : Proxy → Result SignatureError Bytes
  validate_signature sp = do
    decoded ← parse (c.pem_block sp.raw_cert) no_certificate
    cert ← parse (x.parse_certificate decoded) bad_certificate
    rsa_pub_key ← parse (x.rsa_key cert) not_rsa
    verify_sha256 sp.raw_class_records rsa_pub_key sp.raw_sig false
    ok (sha1_finger_print x.sha1 (x.raw cert))

  -- `Validate`.
  unfoldable pub validate : Proxy → Option SignatureError
  validate sp = elim (validate_signature sp) [ ok hex ↦ none | err e ↦ some e ]
