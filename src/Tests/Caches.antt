-- ===== src/Tests/Caches.antt =====
-- A cache of proxies at a concrete input.
use scamp_go.Base.{[], ◌∷◌, none, codes}
use scamp_go.Proxy.{Proxy}
use scamp_go.Cache.{ServiceCache, new_service_cache}

abbrev pub proxy : Proxy
proxy = record {
  version = 3;
  ident = codes "srv:1";
  sector = codes "Main";
  weight = 1;
  announce_interval = 5000;
  connspec = codes "beepish+tls://10.0.0.1:30100";
  protocols = codes "json" ∷ codes "jsonstore" ∷ [];
  classes =
      record {
        class_name = codes "Auth";
        actions = record { action_name = codes "login"; crud_tags = []; version = 1 } ∷ [];
      }
      ∷ [];
  raw_class_records = [];
  raw_cert = [];
  raw_sig = [];
  extension = none;
  timestamp = [];
}

abbrev pub cache : ServiceCache
cache = new_service_cache (codes "/tmp/cache")
