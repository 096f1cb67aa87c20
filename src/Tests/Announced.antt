-- ===== src/Tests/Announced.antt =====
-- An announcement that is read back, at a concrete input.
use scamp_go.Base.{length, ◌<◌, ◌++◌, arith, ◌≡◌, refl, [], ◌∷◌, none, some, Bytes, codes}
use scamp_go.Base.Split.{join}
use scamp_go.Base.Decimal.{format_int, format_uint}
use scamp_go.Proxy.{Proxy, marshal_json}
use scamp_go.Signature.{sign_sha256}
use scamp_go.Cache.{ServiceCache, clear}
use scamp_go.Cache as Cache
use scamp_go.Service.Marshal.{
  service_as_service_proxy, classes_of, string_to_rows, marshal_text, marshalled,
}
use scamp_go.Cache.Scan.Marshalled.{announced_back}
use scamp_go.Service.Announced.{AreBlockLines, do_scan-marshal_text}
use scamp_go.Tests.Services.{service, ping}
use scamp_go.Base.{List, bytes_Eq}
use scamp_go.Base.Dict.{lookup}
use scamp_go.Base.Result.{ok}
use scamp_go.Service.Found.Scanned.{search_by_action-marshal_text}
use scamp_go.Cache.Scan.{tokens, max_line, sep}
use scamp_go.Proxy.{class_text, action_text}
use scamp_go.Proxy.RoundTrip.{IsPlainProxy}
use scamp_go.Cache.Scan.{do_scan}
use scamp_go.Tests.Codec.{codec, codec-Laws}
use scamp_go.Tests.Arrays.{arrays, arrays-ArrayLaws, announced, announced-IsPlainProxy}
use scamp_go.Tests.Tickets.{crypto}
use scamp_go.Tests.Caches.{cache}
use scamp_go.Tests.Discovery.{certificates, certificates-SigningLaws, cert-IsCertificateOf}

-- The proxy that the service of the tests announces.
abbrev pub served : Proxy
served = record announced {
  classes =
      record {
        class_name = codes "Bus";
        actions = record { action_name = codes "ping"; crud_tags = []; version = 1 } ∷ [];
      }
      ∷ [];
  raw_class_records = codes "rawClassRecords";
  raw_cert = codes "rawCert";
  raw_sig = codes "rawSig";
}

pub served-IsPlainProxy : IsPlainProxy codec served
served-IsPlainProxy = record {
  version_fits = announced-IsPlainProxy.version_fits;
  ident_valid = announced-IsPlainProxy.ident_valid;
  sector_valid = announced-IsPlainProxy.sector_valid;
  weight_fits = announced-IsPlainProxy.weight_fits;
  interval_fits = announced-IsPlainProxy.interval_fits;
  connspec_valid = announced-IsPlainProxy.connspec_valid;
  protocols_valid = announced-IsPlainProxy.protocols_valid;
  classes_plain = (
    record {
      name_valid = refl;
      actions_plain =
          (record { name_valid = refl; tags_valid = refl; version_fits = omega arith }, tt);
      has_action = λ e. cc;
    },
    tt,
  );
  timestamp_decimal = announced-IsPlainProxy.timestamp_decimal;
}

pub announces : service_as_service_proxy service (codes "1440001142.000000") ≡ some served
unfolding service_as_service_proxy classes_of format_int format_uint
announces = refl

pub marshal_json_short : length (marshal_json codec arrays served) < max_line
unfolding marshal_json class_text action_text format_int format_uint
marshal_json_short = omega arith

pub signs :
    sign_sha256 crypto certificates (marshal_json codec arrays served) tt
    ≡ some (135 ∷ 125 ∷ 123 ∷ [])
unfolding sign_sha256
signs = refl

one_row : string_to_rows (135 ∷ 125 ∷ 123 ∷ []) 76 ≡ (135 ∷ 125 ∷ 123 ∷ []) ∷ []
unfolding string_to_rows
one_row = refl

pub cert-AreBlockLines : AreBlockLines (codes "cert" ∷ [])
cert-AreBlockLines = (
  (((λ e. cc), refl), tt),
  (
    record {
      no_newline = (
        (λ e. omega arith),
        ((λ e. omega arith), ((λ e. omega arith), ((λ e. omega arith), tt))),
      );
      no_cr = refl;
      short = omega arith;
    },
    tt,
  ),
)

pub sig-AreBlockLines : AreBlockLines ((135 ∷ 125 ∷ 123 ∷ []) ∷ [])
sig-AreBlockLines = (
  (((λ e. cc), refl), tt),
  (
    record {
      no_newline = ((λ e. omega arith), ((λ e. omega arith), ((λ e. omega arith), tt)));
      no_cr = refl;
      short = omega arith;
    },
    tt,
  ),
)

do_scan-marshal_text_example :
    (text : Bytes) × (marshal_text codec arrays crypto certificates
        (some tt)
        service
        (codes "1440001142.000000")
      ≡ marshalled text)
    × (do_scan codec arrays crypto certificates cache (tokens (sep ++ b'\n' ∷ text))
        ≡ some (
          Cache.store (clear cache) (
              announced_back served
                (marshal_json codec arrays served)
                (codes "cert")
                (135 ∷ 125 ∷ 123 ∷ [])),
          none,
        ))
unfolding join
do_scan-marshal_text_example =
    do_scan-marshal_text codec arrays codec-Laws arrays-ArrayLaws crypto certificates tt
      (codes "cert") certificates-SigningLaws service (codes "1440001142.000000") served
      (135 ∷ 125 ∷ 123 ∷ []) (codes "cert") [] (135 ∷ 125 ∷ 123 ∷ []) [] cache announces
      served-IsPlainProxy marshal_json_short signs refl cert-IsCertificateOf one_row
      cert-AreBlockLines sig-AreBlockLines

ping_known : lookup (codes "Bus.ping") service.actions ≡ some ping
unfolding lookup
ping_known = refl

search_by_action-marshal_text_example :
    (text : Bytes) × (cache' : ServiceCache) × (found : Proxy) × (others : List Proxy)
    × (marshal_text codec arrays crypto certificates (some tt) service (codes "1440001142.000000")
        ≡ marshalled text)
    × (do_scan codec arrays crypto certificates cache (tokens (sep ++ b'\n' ∷ text))
        ≡ some (cache', none))
    × (Cache.search_by_action cache' (codes "main") (codes "Bus.ping") 1 (codes "json")
        ≡ ok (found ∷ others))
    × (found.ident ≡ codes "srv:1")
    × (found.connspec ≡ codes "beepish+tls://" ++ codes "10.0.0.1" ++ b':' ∷ format_int 30100)
unfolding join
search_by_action-marshal_text_example =
    search_by_action-marshal_text codec arrays codec-Laws arrays-ArrayLaws crypto certificates tt
      (codes "cert") certificates-SigningLaws service (codes "1440001142.000000") served
      (135 ∷ 125 ∷ 123 ∷ []) (codes "cert") [] (135 ∷ 125 ∷ 123 ∷ []) [] cache (codes "Bus.ping")
      ping announces served-IsPlainProxy marshal_json_short signs refl cert-IsCertificateOf one_row
      cert-AreBlockLines sig-AreBlockLines ping_known
