-- ===== src/Tool/Scanned.antt =====
-- scamp/scamp.go and scamp/servicecache.go: an announcement that is signed by hand, and the cache that
-- reads it.
use scamp_go.Base.{
  ◌<◌, ◌≡◌, refl, ap, sym, subst, ◌∙◌, List, [], ◌∷◌, ◌++◌, none, some, Bytes, codes, All,
  All-append, length, append-nil,
}
use scamp_go.Base.Split.{join, trim_space}
use scamp_go.Header.{Json}
use scamp_go.Header.RoundTrip.{Laws}
use scamp_go.Ticket.{Crypto}
use scamp_go.Proxy.{Proxy, Arrays, marshal_json}
use scamp_go.Proxy.RoundTrip.{ArrayLaws, IsPlainProxy}
use scamp_go.Signature.{Certificates, sign_sha256, validate}
use scamp_go.Signature.Signed.{SigningLaws, IsCertificateOf, validate-sign_sha256}
use scamp_go.Cache.{ServiceCache, store, clear}
use scamp_go.Cache.Scan.{max_line, tokens, do_scan, sep, admit}
use scamp_go.Cache.Scan.Lines.{
  IsLine, lines_text, lines_text-append, tokens-lines_text, join-newline,
}
use scamp_go.Cache.Scan.Records.{IsBlockLine, Holds, do_scan-last}
use scamp_go.Cache.Scan.Marshalled.{announced_back, admit_valid, entry_of, marshal_json-Holds}
use scamp_go.Service.Announced.{AreBlockLines}
use scamp_go.Service.Marshal.Text.{
  empty-IsLine, sep-IsLine, IsClassRecord, IsClassRecord-IsLine, marshal_json-IsClassRecord,
}
use scamp_go.Tool.{KeyFiles, prints, fake_text, do_fake_discovery_cache}

-- The files that the program is given hold a private key, an announcement and a certificate.
pub record Given (c : Crypto) (x : Certificates c) (files : KeyFiles c x)
    (key_path cert_path announce_path : Bytes) (priv : x.PrivateKey)
    (announce_data cert_data : Bytes) : Type 0 where
  pub key_raw : Bytes
  pub block : Bytes
  pub key_read : files.read_file key_path ≡ some key_raw
  pub key_decoded : files.key_block key_raw ≡ some (codes "RSA PRIVATE KEY", block)
  pub key_parsed : files.parse_private_key block ≡ some priv
  pub announce_read : files.read_file announce_path ≡ some announce_data
  pub cert_read : files.read_file cert_path ≡ some cert_data

pub do_fake_discovery_cache_lem :
    (c : Crypto) (x : Certificates c) (files : KeyFiles c x)
    (key_path cert_path announce_path : Bytes) (priv : x.PrivateKey)
    (announce_data cert_data sig : Bytes)
    → Given c x files key_path cert_path announce_path priv announce_data cert_data
    → sign_sha256 c x announce_data priv ≡ some sig
    → do_fake_discovery_cache c x files key_path cert_path announce_path
      ≡ prints (fake_text announce_data cert_data sig)
unfolding do_fake_discovery_cache
do_fake_discovery_cache_lem c x files key_path cert_path announce_path priv announce_data cert_data
      sig h signed =
    rw
      (
        do_fake_discovery_cache, h.key_read, h.key_decoded, h.key_parsed, h.announce_read, signed,
        h.cert_read,
      )
      refl

-- The lines of the text that the program prints.
abbrev pub fake_lines : Bytes → List Bytes → Bytes → List Bytes
fake_lines announce_data cert sig = [] ∷ sep ∷ announce_data ∷ [] ∷ (cert ++ [] ∷ sig ∷ [])

pub fake_text-lines_text :
    (announce_data cert_data cert_line : Bytes) (cert_lines : List Bytes) (sig : Bytes)
    → trim_space cert_data ≡ join b'\n' cert_line cert_lines
    → fake_text announce_data cert_data sig
      ≡ lines_text (fake_lines announce_data (cert_line ∷ cert_lines) sig)
fake_text-lines_text announce_data cert_data cert_line cert_lines sig cert =
    ap (λ t. b'\n' ∷ (sep ++ b'\n' ∷ (announce_data ++ b'\n' ∷ b'\n' ∷ t)))
      (ap (λ t. t ++ b'\n' ∷ b'\n' ∷ (sig ++ b'\n' ∷ [])) cert
        ∙ join-newline cert_line cert_lines (b'\n' ∷ (sig ++ b'\n' ∷ []))
        ∙ sym (lines_text-append (cert_line ∷ cert_lines) ([] ∷ sig ∷ [])))

pub fake_lines-IsLine :
    (announce_data : Bytes) (cert : List Bytes) (sig : Bytes)
    → IsLine announce_data
    → All IsLine cert
    → IsLine sig
    → All IsLine (fake_lines announce_data cert sig)
fake_lines-IsLine announce_data cert sig first second third = (
  empty-IsLine,
  (
    sep-IsLine,
    (
      first,
      (empty-IsLine, All-append IsLine cert ([] ∷ sig ∷ []) second (empty-IsLine, (third, tt))),
    ),
  ),
)

module _ (j : Json) (a : Arrays) (laws : Laws j) (array_laws : ArrayLaws j a) (c : Crypto)
    (x : Certificates c) (files : KeyFiles c x) (priv : x.PrivateKey) (key : c.Key)
    (signing : SigningLaws c x priv key) where
  scan_fake :
      (sp : Proxy) (class_record cert_line : Bytes) (cert_lines : List Bytes) (sig : Bytes)
      (cache : ServiceCache)
      → marshal_json j a sp ≡ class_record
      → IsClassRecord j a array_laws class_record
      → IsPlainProxy j sp
      → All IsBlockLine (cert_line ∷ cert_lines)
      → IsBlockLine sig
      → do_scan j a c x cache (fake_lines class_record (cert_line ∷ cert_lines) sig)
        ≡ some (
          admit j a c x
              (clear cache)
              (announced_back sp class_record (join b'\n' cert_line cert_lines) sig),
          none,
        )
  unfolding IsClassRecord join
  scan_fake sp class_record cert_line cert_lines sig cache text (first, rest, shape, line) plain
        cert_ok sig_ok =
      let entry = entry_of first rest cert_line cert_lines sig [] in
      let holds : Holds j a c x entry
          (announced_back sp class_record (join b'\n' cert_line cert_lines) sig) =
        subst (λ r. Holds j a c x entry (announced_back sp r (join b'\n' cert_line cert_lines) sig))
          text
          (marshal_json-Holds j a laws array_laws c x sp first rest cert_line cert_lines sig []
            (text ∙ shape) plain cert_ok (sig_ok, tt)) in
      ap (λ r. do_scan j a c x cache (fake_lines r (cert_line ∷ cert_lines) sig)) shape
      ∙ do_scan-last j a c x cache entry
          (announced_back sp class_record (join b'\n' cert_line cert_lines) sig) holds refl

  -- The files given hold a private key, the announcement of a plain proxy as one line that is
  -- short enough for the scanner, and a certificate of that key. When the announcement can be
  -- signed, and the certificate and the signature are lines of blocks, `doFakeDiscoveryCache`
  -- prints a text, and a scan of that text ends with no error, in the cleared cache in which the
  -- proxy that is read back has been stored. The codec, the arrays and the signatures have their
  -- laws.
  pub do_scan-do_fake_discovery_cache :
      (key_path cert_path announce_path : Bytes) (sp : Proxy) (cert_data sig cert_line : Bytes)
      (cert_lines : List Bytes) (cache : ServiceCache)
      → Given c x files key_path cert_path announce_path priv (marshal_json j a sp) cert_data
      → IsPlainProxy j sp
      → length (marshal_json j a sp) < max_line
      → sign_sha256 c x (marshal_json j a sp) priv ≡ some sig
      → trim_space cert_data ≡ join b'\n' cert_line cert_lines
      → IsCertificateOf c x (trim_space cert_data) key
      → AreBlockLines (cert_line ∷ cert_lines)
      → AreBlockLines (sig ∷ [])
      → (text : Bytes) × (do_fake_discovery_cache c x files key_path cert_path announce_path
          ≡ prints text)
        × (do_scan j a c x cache (tokens text)
            ≡ some (
              store
                  (clear cache)
                  (announced_back sp (marshal_json j a sp) (trim_space cert_data) sig),
              none,
            ))
  unfolding join
  do_scan-do_fake_discovery_cache key_path cert_path announce_path sp cert_data sig cert_line
        cert_lines cache given plain short signed pem is cert_ok sig_ok =
      let class_record = marshal_json j a sp in
      let cert = join b'\n' cert_line cert_lines in
      let back = announced_back sp class_record cert sig in
      let record_line = marshal_json-IsClassRecord j a array_laws sp short in
      let lines = fake_lines class_record (cert_line ∷ cert_lines) sig in
      let valid : validate c x back ≡ none =
        validate-sign_sha256 c x priv key signing back sig (sig ∷ []) signed (append-nil sig) refl
          (subst (λ r. IsCertificateOf c x r key) pem is) in
      (
        fake_text class_record cert_data sig,
        do_fake_discovery_cache_lem c x files key_path cert_path announce_path priv class_record
            cert_data sig given signed,
        ap (λ t. do_scan j a c x cache (tokens t))
              (fake_text-lines_text class_record cert_data cert_line cert_lines sig pem)
            ∙ ap (do_scan j a c x cache) (
                tokens-lines_text lines (
                  fake_lines-IsLine class_record (cert_line ∷ cert_lines) sig
                    (IsClassRecord-IsLine j a array_laws record_line) cert_ok.1 (sig_ok.1.0)))
            ∙ scan_fake sp class_record cert_line cert_lines sig cache refl record_line plain
                cert_ok.0 (sig_ok.0.0)
            ∙ ap (λ kept. some (kept, none)) (admit_valid j a c x (clear cache) back valid)
            ∙ ap
                (λ cert. some (store (clear cache) (announced_back sp class_record cert sig), none))
                (sym pem),
      )
