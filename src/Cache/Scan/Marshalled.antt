-- ===== src/Cache/Scan/Marshalled.antt =====
-- scamp/servicecache.go and scamp/serviceproxy.go: a record whose class record is a marshalled proxy.
use scamp_go.Base.{ℕ, ◌≡◌, refl, subst, List, [], ◌∷◌, none, Bytes, All, Bool-cases, inl, inr}
use scamp_go.Base.Split.{join}
use scamp_go.Base.Result.{ok}
use scamp_go.Header.{Json}
use scamp_go.Header.RoundTrip.{Laws}
use scamp_go.Ticket.{Crypto}
use scamp_go.Proxy.{Proxy, Arrays, marshal_json, new_service_proxy}
use scamp_go.Proxy.RoundTrip.{ArrayLaws, IsPlainProxy, new_service_proxy-marshal_json}
use scamp_go.Signature.{Certificates, validate}
use scamp_go.Cache.{ServiceCache, store}
use scamp_go.Cache.Scan.{admit}
use scamp_go.Cache.Scan.Records.{IsBlockLine, Entry, Holds}

-- The proxy that the cache reads from an announcement.
abbrev pub announced_back : Proxy → Bytes → Bytes → Bytes → Proxy
announced_back sp class_record cert sig = record sp {
  extension = none;
  raw_class_records = class_record;
  raw_cert = cert;
  raw_sig = sig;
  timestamp = [];
}

abbrev pub entry_of : ℕ → Bytes → Bytes → List Bytes → Bytes → List Bytes → Entry
entry_of first rest cert_line cert_lines sig_line sig_lines = record {
  first = first;
  others = rest;
  cert_line = cert_line;
  cert_lines = cert_lines;
  sig_line = sig_line;
  sig_lines = sig_lines;
}

module _ (j : Json) (a : Arrays) (laws : Laws j) (array_laws : ArrayLaws j a) (c : Crypto)
    (x : Certificates c) where
  pub marshal_json-Holds :
      (sp : Proxy) (first : ℕ) (rest cert_line : Bytes) (cert_lines : List Bytes) (sig_line : Bytes)
      (sig_lines : List Bytes)
      → marshal_json j a sp ≡ first ∷ rest
      → IsPlainProxy j sp
      → All IsBlockLine (cert_line ∷ cert_lines)
      → All IsBlockLine (sig_line ∷ sig_lines)
      → Holds j a c x (entry_of first rest cert_line cert_lines sig_line sig_lines) (
          announced_back sp
            (marshal_json j a sp)
            (join b'\n' cert_line cert_lines)
            (join b'\n' sig_line sig_lines))
  marshal_json-Holds sp first rest cert_line cert_lines sig_line sig_lines shape plain cert_ok
        sig_ok =
      let cert = join b'\n' cert_line cert_lines in
      let sig = join b'\n' sig_line sig_lines in
      record {
        cert_block = cert_ok;
        sig_block = sig_ok;
        reads =
            subst
              (λ r.
                new_service_proxy j a r cert sig
                ≡ ok (announced_back sp (marshal_json j a sp) cert sig))
              shape (new_service_proxy-marshal_json j a laws array_laws sp cert sig plain);
      }

module _ (j : Json) (a : Arrays) (c : Crypto) (x : Certificates c) where
  pub admit_valid :
      (cache : ServiceCache) (sp : Proxy)
      → validate c x sp ≡ none
      → admit j a c x cache sp ≡ store cache sp
  unfolding admit
  admit_valid cache sp valid = elim (Bool-cases cache.verify_records) [
    | inl checks ↦ simp (admit, checks, valid) refl
    | inr trusts ↦ simp (admit, trusts) refl
  ]
