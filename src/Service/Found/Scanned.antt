-- ===== src/Service/Found/Scanned.antt =====
-- scamp/service.go, scamp/serviceproxy.go and scamp/servicecache.go: a search of the cache that has read a
-- service's announcement.
use scamp_go.Base.{
  ◌<◌, ◌≡◌, refl, ap, sym, ◌∙◌, some_eq, List, [], ◌∷◌, ◌++◌, Option, none, some, Bytes, bytes_Eq,
  codes, length,
}
use scamp_go.Base.Dict.{lookup}
use scamp_go.Base.Result.{ok}
use scamp_go.Cache.Scan.Marshalled.{announced_back}
use scamp_go.Base.Decimal.{format_int}
use scamp_go.Proxy.{Proxy, ProxyClass}
use scamp_go.Cache.{ServiceCache, store, clear, search_by_action, searched_name, or_not_found}
use scamp_go.Cache.Search.{search_by_action-store_all}
use scamp_go.Service.{Service, ServiceAction}
use scamp_go.Service.Marshal.{classes_of, service_as_service_proxy, ip_string}
use scamp_go.Base.Split.{join}
use scamp_go.Header.{Json}
use scamp_go.Header.RoundTrip.{Laws}
use scamp_go.Ticket.{Crypto}
use scamp_go.Proxy.{Arrays, marshal_json}
use scamp_go.Proxy.RoundTrip.{ArrayLaws, IsPlainProxy}
use scamp_go.Signature.{Certificates, sign_sha256}
use scamp_go.Signature.Signed.{SigningLaws, IsCertificateOf}
use scamp_go.Cache.Scan.{max_line, tokens, do_scan, sep}
use scamp_go.Service.Marshal.{string_to_rows, marshal_text, marshalled}
use scamp_go.Service.Announced.{AreBlockLines, do_scan-marshal_text}
use scamp_go.Service.Found.{registered_copies}

-- What a service is announced as.
as_proxy_parts :
    (serv : Service) (timestamp : Bytes) (sp : Proxy)
    → service_as_service_proxy serv timestamp ≡ some sp
    → (classes_of serv.actions ≡ some sp.classes)
      × (sp.sector ≡ serv.sector)
      × (sp.protocols ≡ codes "json" ∷ [])
      × (sp.ident ≡ serv.name)
      × (sp.connspec
          ≡ codes "beepish+tls://"
            ++ ip_string serv.listener_ip
            ++ b':' ∷ format_int serv.listener_port)
unfolding service_as_service_proxy
as_proxy_parts serv timestamp sp e = split (classes_of serv.actions) refl e
  where
    split :
        (classes : Option (List ProxyClass))
        → classes_of serv.actions ≡ classes
        → service_as_service_proxy serv timestamp ≡ some sp
        → (classes_of serv.actions ≡ some sp.classes)
          × (sp.sector ≡ serv.sector)
          × (sp.protocols ≡ codes "json" ∷ [])
          × (sp.ident ≡ serv.name)
          × (sp.connspec
              ≡ codes "beepish+tls://"
                ++ ip_string serv.listener_ip
                ++ b':' ∷ format_int serv.listener_port)
    split none made e = absurd (cc (rw (service_as_service_proxy, made) at e))
    split (some classes) made e =
        let is = sym (some_eq (rw (service_as_service_proxy, made) at e)) in
        (
          made ∙ ap (λ (p : Proxy). some p.classes) (sym is),
          ap (λ (p : Proxy). p.sector) is,
          ap (λ (p : Proxy). p.protocols) is,
          ap (λ (p : Proxy). p.ident) is,
          ap (λ (p : Proxy). p.connspec) is,
        )

-- A service's proxy that a cache has stored is found by each action that the service has registered.
pub search_by_action-announced :
    (serv : Service) (timestamp : Bytes) (sp : Proxy) (cache : ServiceCache) (name : Bytes)
    (action : ServiceAction) (class_record cert sig : Bytes)
    → service_as_service_proxy serv timestamp ≡ some sp
    → lookup name serv.actions ≡ some action
    → (others : List Proxy) × (search_by_action
          (store (clear cache) (announced_back sp class_record cert sig))
          serv.sector
          name
          action.version
          (codes "json")
        ≡ ok (announced_back sp class_record cert sig ∷ others))
search_by_action-announced serv timestamp sp cache name action class_record cert sig as_proxy
      known =
    let (made, sector, only, ident, connspec) = as_proxy_parts serv timestamp sp as_proxy in
    let back = announced_back sp class_record cert sig in
    let (others, e) = registered_copies back name action serv.actions sp.classes only made known in
    (
      others ++ [],
      ap (λ s. search_by_action (store (clear cache) back) s name action.version (codes "json"))
            (sym sector)
          ∙ search_by_action-store_all cache (back ∷ []) sp.sector name action.version
              (codes "json")
          ∙ ap
              (λ found.
                or_not_found (found ++ [])
                  (searched_name sp.sector name action.version (codes "json")))
              e,
    )

module _ (j : Json) (a : Arrays) (laws : Laws j) (array_laws : ArrayLaws j a) (c : Crypto)
    (x : Certificates c) (priv : x.PrivateKey) (key : c.Key)
    (signing : SigningLaws c x priv key) where
  -- A service is announced as a plain proxy whose class record is shorter than the longest line
  -- and is signed; the service's certificate has the RSA key that belongs to the private key, and
  -- the lines of the certificate and the rows of the signature are lines of blocks. The service is
  -- then marshalled to a text, a scan of a separator, a newline and that text ends with no error,
  -- and in the cache that it leaves a search for any action that is registered with the service,
  -- in the service's sector, at the action's version and for JSON, finds first a proxy with the
  -- service's name, whose address is made of the listener's IPv4 address, or `<nil>` where it has
  -- none, and the listener's port. The laws of the JSON codec, of base64 and of RSA are given.
  pub search_by_action-marshal_text :
      (serv : Service) (timestamp : Bytes) (sp : Proxy) (sig cert_line : Bytes)
      (cert_lines : List Bytes) (sig_line : Bytes) (sig_lines : List Bytes) (cache : ServiceCache)
      (name : Bytes) (action : ServiceAction)
      → service_as_service_proxy serv timestamp ≡ some sp
      → IsPlainProxy j sp
      → length (marshal_json j a sp) < max_line
      → sign_sha256 c x (marshal_json j a sp) priv ≡ some sig
      → serv.pem_cert ≡ join b'\n' cert_line cert_lines
      → IsCertificateOf c x serv.pem_cert key
      → string_to_rows sig 76 ≡ sig_line ∷ sig_lines
      → AreBlockLines (cert_line ∷ cert_lines)
      → AreBlockLines (sig_line ∷ sig_lines)
      → lookup name serv.actions ≡ some action
      → (text : Bytes) × (cache' : ServiceCache) × (found : Proxy) × (others : List Proxy)
        × (marshal_text j a c x (some priv) serv timestamp ≡ marshalled text)
        × (do_scan j a c x cache (tokens (sep ++ b'\n' ∷ text)) ≡ some (cache', none))
        × (search_by_action cache' serv.sector name action.version (codes "json")
            ≡ ok (found ∷ others))
        × (found.ident ≡ serv.name)
        × (found.connspec
            ≡ codes "beepish+tls://"
              ++ ip_string serv.listener_ip
              ++ b':' ∷ format_int serv.listener_port)
  search_by_action-marshal_text serv timestamp sp sig cert_line cert_lines sig_line sig_lines cache
        name action as_proxy plain short signed pem is cut cert_ok sig_ok known =
      let (text, made, scanned) =
        do_scan-marshal_text j a laws array_laws c x priv key signing serv timestamp sp sig
          cert_line cert_lines sig_line sig_lines cache as_proxy plain short signed pem is cut
          cert_ok sig_ok in
      let (others, searched) =
        search_by_action-announced serv timestamp sp cache name action (marshal_json j a sp)
          serv.pem_cert (join b'\n' sig_line sig_lines) as_proxy known in
      let (_, _, _, ident, connspec) = as_proxy_parts serv timestamp sp as_proxy in
      (text, _, _, others, made, scanned, searched, ident, connspec)
