-- ===== src/Signature/Signed.antt =====
-- scamp/verify.go: a signature that is made and then checked.
use scamp_go.Base.{◌≡◌, refl, sym, ◌∙◌, true, false, List, Option, none, some, some_eq, Bytes}
use scamp_go.Base.Split.{join_all}
use scamp_go.Message.Chunks.{concat}
use scamp_go.Base.Result.{ok}
use scamp_go.Ticket.{Crypto}
use scamp_go.Proxy.{Proxy}
use scamp_go.Signature.{
  Certificates, decode_unpadded_base64, verify_sha256, sign_sha256, validate_signature, validate,
}

-- What the code relies on: base64 gives back the bytes, also from lines that the text has been cut into,
-- and the public key that belongs to a private key verifies what that one has signed.
pub record SigningLaws (c : Crypto) (x : Certificates c) (priv : x.PrivateKey) (key : c.Key)
    : Type 0 where
  pub decode_encode :
      (s : Bytes) (lines : List Bytes)
      → concat lines ≡ x.std_encode s
      → x.std_decode (join_all b'\n' lines) ≡ some s
  pub verifies_sign :
      (hash sig : Bytes) → x.sign priv hash ≡ some sig → c.verifies key hash sig ≡ true

-- A PEM text of a certificate with an RSA key.
pub record IsCertificateOf (c : Crypto) (x : Certificates c) (raw_cert : Bytes) (key : c.Key)
    : Type 0 where
  pub block : Bytes
  pub cert : x.Certificate
  pub is_pem : c.pem_block raw_cert ≡ some block
  pub is_certificate : x.parse_certificate block ≡ some cert
  pub has_key : x.rsa_key cert ≡ some key

module _ (c : Crypto) (x : Certificates c) (priv : x.PrivateKey) (key : c.Key)
    (laws : SigningLaws c x priv key) where
  encoded : Option Bytes → Option Bytes
  encoded o = elim o [ none ↦ none | some s ↦ some (x.std_encode s) ]

  verify_encoded :
      (payload sig : Bytes) (lines : List Bytes) (o : Option Bytes)
      → x.sign priv (c.sha256 payload) ≡ o
      → encoded o ≡ some sig
      → concat lines ≡ sig
      → verify_sha256 c x payload key (join_all b'\n' lines) false ≡ ok tt
  unfolding verify_sha256 decode_unpadded_base64 encoded
  verify_encoded payload sig lines none e h cut = cc
  verify_encoded payload sig lines (some s) e h cut = rw (
    laws.decode_encode s lines (cut ∙ sym (some_eq h)),
    laws.verifies_sign (c.sha256 payload) s e,
  )

  verify_sha256-sign_sha256 :
      (payload sig : Bytes) (lines : List Bytes)
      → sign_sha256 c x payload priv ≡ some sig
      → concat lines ≡ sig
      → verify_sha256 c x payload key (join_all b'\n' lines) false ≡ ok tt
  unfolding sign_sha256 encoded
  verify_sha256-sign_sha256 payload sig lines signed cut =
      verify_encoded payload sig lines (x.sign priv (c.sha256 payload)) refl signed cut

  -- When the signature of a proxy is the lines into which what `signSHA256` makes of its class
  -- records with a private key has been cut, joined by line ends, and its certificate is a PEM
  -- certificate with the RSA key that belongs to that private key, `Validate` finds no fault,
  -- given that base64 gives back the bytes, from such lines too, and that the RSA key verifies
  -- what the private key signs.
  pub validate-sign_sha256 :
      (sp : Proxy) (sig : Bytes) (lines : List Bytes)
      → sign_sha256 c x sp.raw_class_records priv ≡ some sig
      → concat lines ≡ sig
      → sp.raw_sig ≡ join_all b'\n' lines
      → IsCertificateOf c x sp.raw_cert key
      → validate c x sp ≡ none
  unfolding validate validate_signature
  validate-sign_sha256 sp sig lines signed cut same is = rw (
    is.is_pem,
    is.is_certificate,
    is.has_key,
    same,
    verify_sha256-sign_sha256 sp.raw_class_records sig lines signed cut,
    validate,
  )
