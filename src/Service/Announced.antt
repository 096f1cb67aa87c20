-- ===== src/Service/Announced.antt =====
-- scamp/service.go, scamp/serviceproxy.go, scamp/verify.go and scamp/servicecache.go: the announcement of
-- a service, and the cache that reads it.
use scamp_go.Base.{
  ◌<◌, ◌≡◌, refl, ap, sym, subst, ◌∙◌, List, [], ◌∷◌, ◌++◌, none, some, Bytes, All, All-append,
  length,
}
use scamp_go.Base.Split.{join}
use scamp_go.Header.{Json}
use scamp_go.Header.RoundTrip.{Laws}
use scamp_go.Message.Chunks.{concat}
use scamp_go.Ticket.{Crypto}
use scamp_go.Proxy.{Proxy, Arrays, marshal_json}
use scamp_go.Proxy.RoundTrip.{ArrayLaws, IsPlainProxy}
use scamp_go.Signature.{Certificates, sign_sha256, validate}
use scamp_go.Signature.Signed.{SigningLaws, IsCertificateOf, validate-sign_sha256}
use scamp_go.Cache.{ServiceCache, store, clear}
use scamp_go.Cache.Scan.{max_line, tokens, do_scan, sep, admit}
use scamp_go.Cache.Scan.Lines.{IsLine, lines_text, tokens-lines_text}
use scamp_go.Cache.Scan.Records.{IsBlockLine, Holds, do_scan-all_lines}
use scamp_go.Service.{Service}
use scamp_go.Service.Marshal.{
  service_as_service_proxy, string_to_rows, announcement, marshal_text, sign_text, marshalled,
}
use scamp_go.Cache.Scan.Marshalled.{announced_back, entry_of, marshal_json-Holds, admit_valid}
use scamp_go.Service.Rows.{concat-string_to_rows}
use scamp_go.Service.Marshal.Text.{
  announcement-lines_text, empty-IsLine, sep-IsLine, IsClassRecord, IsClassRecord-IsLine,
  marshal_json-IsClassRecord,
}

-- Lines that a certificate or a signature can have in the cache's file.
abbrev pub AreBlockLines : List Bytes → Type 0
AreBlockLines lines = All IsBlockLine lines × All IsLine lines

module _ (j : Json) (a : Arrays) (laws : Laws j) (array_laws : ArrayLaws j a) (c : Crypto)
    (x : Certificates c) (priv : x.PrivateKey) (key : c.Key)
    (signing : SigningLaws c x priv key) where
  -- The lines of the file: the announcement behind a separator.
  file_lines : Bytes → List Bytes → Bytes → List Bytes
  file_lines class_record cert sig =
      sep ∷ class_record ∷ [] ∷ (cert ++ [] ∷ (string_to_rows sig 76 ++ [] ∷ []))

  file_lines-IsLine :
      (class_record : Bytes) (cert : List Bytes) (sig : Bytes)
      → IsLine class_record
      → All IsLine cert
      → All IsLine (string_to_rows sig 76)
      → All IsLine (file_lines class_record cert sig)
  unfolding file_lines
  file_lines-IsLine class_record cert sig first second third = (
    sep-IsLine,
    (
      first,
      (
        empty-IsLine,
        All-append IsLine cert ([] ∷ (string_to_rows sig 76 ++ [] ∷ [])) second (
          empty-IsLine,
          All-append IsLine (string_to_rows sig 76) ([] ∷ []) third (empty-IsLine, tt),
        ),
      ),
    ),
  )

  -- One record in the file, whose proxy has no fault.
  scan_one :
      (cache : ServiceCache) (sp : Proxy) (class_record cert_line : Bytes) (cert_lines : List Bytes)
      (sig sig_line : Bytes) (sig_lines : List Bytes)
      → marshal_json j a sp ≡ class_record
      → IsClassRecord j a array_laws class_record
      → IsPlainProxy j sp
      → string_to_rows sig 76 ≡ sig_line ∷ sig_lines
      → All IsBlockLine (cert_line ∷ cert_lines)
      → All IsBlockLine (sig_line ∷ sig_lines)
      → do_scan j a c x cache (file_lines class_record (cert_line ∷ cert_lines) sig)
        ≡ some (
          admit j a c x (clear cache) (
              announced_back sp class_record
                (join b'\n' cert_line cert_lines)
                (join b'\n' sig_line sig_lines)),
          none,
        )
  unfolding file_lines IsClassRecord
  scan_one cache sp class_record cert_line cert_lines sig sig_line sig_lines text
        (first, rest, shape, line) plain cut cert_ok sig_ok =
      let entry = entry_of first rest cert_line cert_lines sig_line sig_lines in
      let back =
        announced_back sp class_record (join b'\n' cert_line cert_lines)
          (join b'\n' sig_line sig_lines) in
      let holds : Holds j a c x entry back =
        subst
          (λ r.
            Holds j a c x entry (
              announced_back sp r (join b'\n' cert_line cert_lines)
                (join b'\n' sig_line sig_lines)))
          text
          (marshal_json-Holds j a laws array_laws c x sp first rest cert_line cert_lines sig_line
            sig_lines (text ∙ shape) plain cert_ok sig_ok) in
      ap
        (λ r.
          do_scan j a c x cache
            (sep ∷ r ∷ [] ∷ ((cert_line ∷ cert_lines) ++ [] ∷ (string_to_rows sig 76 ++ [] ∷ []))))
        shape
      ∙ ap
          (λ rows.
            do_scan j a c x cache
              (sep ∷ (first ∷ rest) ∷ [] ∷ ((cert_line ∷ cert_lines) ++ [] ∷ (rows ++ [] ∷ []))))
          cut
      ∙ do_scan-all_lines j a c x cache (entry ∷ []) (back ∷ []) (holds, tt)

  -- A service's proxy has valid texts, numbers that fit a word, classes with an action each, and a
  -- class record shorter than the longest line; it is signed; the service's certificate has the
  -- RSA key that belongs to the private key; and the lines of the certificate and the rows of the
  -- signature are not empty, are not the separator, and come through the scanner as they are. The
  -- service is then marshalled to a text, and a scan of a separator, a newline and that text ends
  -- with no error and leaves the cache with that proxy and no other, without extension and
  -- timestamp and with the text's class record, certificate and signature, whether or not the
  -- cache verifies records. The laws of the JSON codec, of base64 and of RSA are given.
  pub do_scan-marshal_text :
      (serv : Service) (timestamp : Bytes) (sp : Proxy) (sig cert_line : Bytes)
      (cert_lines : List Bytes) (sig_line : Bytes) (sig_lines : List Bytes) (cache : ServiceCache)
      → service_as_service_proxy serv timestamp ≡ some sp
      → IsPlainProxy j sp
      → length (marshal_json j a sp) < max_line
      → sign_sha256 c x (marshal_json j a sp) priv ≡ some sig
      → serv.pem_cert ≡ join b'\n' cert_line cert_lines
      → IsCertificateOf c x serv.pem_cert key
      → string_to_rows sig 76 ≡ sig_line ∷ sig_lines
      → AreBlockLines (cert_line ∷ cert_lines)
      → AreBlockLines (sig_line ∷ sig_lines)
      → (text : Bytes) × (marshal_text j a c x (some priv) serv timestamp ≡ marshalled text)
        × (do_scan j a c x cache (tokens (sep ++ b'\n' ∷ text))
            ≡ some (
              store (clear cache) (
                  announced_back sp
                    (marshal_json j a sp)
                    serv.pem_cert
                    (join b'\n' sig_line sig_lines)),
              none,
            ))
  unfolding marshal_text file_lines
  do_scan-marshal_text serv timestamp sp sig cert_line cert_lines sig_line sig_lines cache as_proxy
        plain short signed pem is cut cert_ok sig_ok =
      let class_record = marshal_json j a sp in
      let cert = join b'\n' cert_line cert_lines in
      let joined = join b'\n' sig_line sig_lines in
      let back = announced_back sp class_record cert joined in
      let record_line = marshal_json-IsClassRecord j a array_laws sp short in
      let lines = file_lines class_record (cert_line ∷ cert_lines) sig in
      let valid : validate c x back ≡ none =
        validate-sign_sha256 c x priv key signing back sig (sig_line ∷ sig_lines) signed
          (ap concat (sym cut) ∙ (concat-string_to_rows sig 76).0) refl
          (subst (λ r. IsCertificateOf c x r key) pem is) in
      let in_lines : sep ++ b'\n' ∷ announcement class_record serv.pem_cert sig ≡ lines_text lines =
        ap (λ r. sep ++ b'\n' ∷ announcement class_record r sig) pem
        ∙ ap (λ t. sep ++ b'\n' ∷ t)
            (announcement-lines_text class_record cert_line cert_lines sig) in
      (
        announcement class_record serv.pem_cert sig,
        rw (marshal_text, as_proxy, sign_text, signed) refl,
        ap (λ t. do_scan j a c x cache (tokens t)) in_lines
            ∙ ap (do_scan j a c x cache) (
                tokens-lines_text lines (
                  file_lines-IsLine class_record (cert_line ∷ cert_lines) sig
                    (IsClassRecord-IsLine j a array_laws record_line) cert_ok.1
                    (subst (All IsLine) (sym cut) sig_ok.1)))
            ∙ scan_one cache sp class_record cert_line cert_lines sig sig_line sig_lines refl
                record_line plain cut cert_ok.0 sig_ok.0
            ∙ ap (λ kept. some (kept, none)) (admit_valid j a c x (clear cache) back valid)
            ∙ ap
                (λ cert.
                  some (store (clear cache) (announced_back sp class_record cert joined), none))
                (sym pem),
      )
