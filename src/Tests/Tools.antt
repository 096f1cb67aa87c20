-- ===== src/Tests/Tools.antt =====
-- An announcement that is signed by hand, at concrete inputs.
use scamp_go.Base.{
  ◌≡◌, ◌++◌, refl, [], ◌∷◌, none, some, Bytes, codes, bytes_eq, if◌then◌else◌, arith,
}
use scamp_go.Base.Split.{join, trim_space}
use scamp_go.Proxy.{marshal_json}
use scamp_go.Signature.{sign_sha256}
use scamp_go.Cache.{clear, store}
use scamp_go.Cache.Scan.{do_scan, tokens}
use scamp_go.Cache.Scan.Lines.{IsLine}
use scamp_go.Cache.Scan.Marshalled.{announced_back}
use scamp_go.Tool.{KeyFiles, prints, do_fake_discovery_cache}
use scamp_go.Tool.Scanned.{Given, do_scan-do_fake_discovery_cache}
use scamp_go.Tool.Unread.{do_scan_newline}
use scamp_go.Tests.Codec.{codec, codec-Laws}
use scamp_go.Tests.Arrays.{arrays, arrays-ArrayLaws}
use scamp_go.Tests.Tickets.{crypto}
use scamp_go.Tests.Caches.{cache}
use scamp_go.Tests.Discovery.{certificates, certificates-SigningLaws, cert-IsCertificateOf}
use scamp_go.Tests.Announced.{
  served, served-IsPlainProxy, marshal_json_short, signs, cert-AreBlockLines, sig-AreBlockLines,
}

abbrev files_with : Bytes → KeyFiles crypto certificates
files_with announcement = record {
  read_file = λ path. if bytes_eq path (codes "a") then some announcement else some (codes "cert");
  key_block = λ raw. some (codes "RSA PRIVATE KEY", raw);
  parse_private_key = λ block. some tt;
}

given :
    (announcement : Bytes)
    → Given crypto certificates
        (files_with announcement)
        (codes "k")
        (codes "c")
        (codes "a")
        tt
        announcement
        (codes "cert")
given announcement = record {
  key_raw = codes "cert";
  block = codes "cert";
  key_read = refl;
  key_decoded = refl;
  key_parsed = refl;
  announce_read = refl;
  cert_read = refl;
}

do_scan-do_fake_discovery_cache_example :
    (text : Bytes) × (do_fake_discovery_cache crypto certificates
        (files_with (marshal_json codec arrays served))
        (codes "k")
        (codes "c")
        (codes "a")
      ≡ prints text)
    × (do_scan codec arrays crypto certificates cache (tokens text)
        ≡ some (
          store (clear cache) (
              announced_back served
                (marshal_json codec arrays served)
                (codes "cert")
                (135 ∷ 125 ∷ 123 ∷ [])),
          none,
        ))
unfolding join trim_space
do_scan-do_fake_discovery_cache_example =
    do_scan-do_fake_discovery_cache codec arrays codec-Laws arrays-ArrayLaws crypto certificates
      (files_with (marshal_json codec arrays served)) tt (codes "cert") certificates-SigningLaws
      (codes "k") (codes "c") (codes "a") served (codes "cert") (135 ∷ 125 ∷ 123 ∷ [])
      (codes "cert") [] cache (given (marshal_json codec arrays served)) served-IsPlainProxy
      marshal_json_short signs refl cert-IsCertificateOf cert-AreBlockLines sig-AreBlockLines

newline_signs :
    sign_sha256 crypto certificates (codes "[3]" ++ b'\n' ∷ []) tt ≡ some (135 ∷ 125 ∷ 123 ∷ [])
unfolding sign_sha256
newline_signs = refl

record-IsLine : IsLine (codes "[3]")
record-IsLine = record {
  no_newline = ((λ e. omega arith), ((λ e. omega arith), ((λ e. omega arith), tt)));
  no_cr = refl;
  short = omega arith;
}

do_scan_newline_example :
    (text : Bytes) × (do_fake_discovery_cache crypto certificates
        (files_with (codes "[3]" ++ b'\n' ∷ []))
        (codes "k")
        (codes "c")
        (codes "a")
      ≡ prints text)
    × (do_scan codec arrays crypto certificates cache (tokens text) ≡ some (clear cache, none))
unfolding join trim_space
do_scan_newline_example =
    do_scan_newline codec arrays crypto certificates (files_with (codes "[3]" ++ b'\n' ∷ [])) tt
      (codes "k") (codes "c") (codes "a") b'[' (codes "3]") (codes "cert") (135 ∷ 125 ∷ 123 ∷ [])
      (codes "cert") [] cache (given (codes "[3]" ++ b'\n' ∷ [])) record-IsLine newline_signs refl
      cert-AreBlockLines sig-AreBlockLines
