-- ===== src/Init.antt =====
-- scamp/init.go, and what config.go and servicecache.go do for it: `Initialize`, which sets up the
-- configuration and the cache that the process shares. What the files hold is given. The logger, and
-- the random text of the debugger, are not modelled.
pub mod Loaded
use scamp_go.Base.{ℕ, Bool, true, false, [], Option, none, some, Bytes, codes}
use scamp_go.Header.{Json}
use scamp_go.Ticket.{Crypto}
use scamp_go.Proxy.{Arrays}
use scamp_go.Signature.{Certificates}
use scamp_go.Config.{Config, new_config, load, get}
use scamp_go.Cache.{ServiceCache, new_service_cache}
use scamp_go.Cache.Scan.{CacheFile, RefreshError, refresh}
use scamp_go.Refresher.{CacheRefresher, new_cache_refresher}

-- `defaultConfig` and `DefaultCache`: `none` is nil.
pub record Globals : Type 0 where
  pub default_config : Option Config
  pub default_cache : Option CacheRefresher

pub record RefresherOptions : Type 0 where
  pub wait_duration : Option ℕ
  pub reactive : Bool

-- What is read from the configuration's file, if it can be opened, and what is at a cache's path.
pub record Files : Type 0 where
  -- What later reads leave of a value in a long file.
  pub later : Bytes → Bytes → Bytes
  pub config_file : Bytes → Option Bytes
  pub cache_file : Bytes → CacheFile

pub data InitError : Type 0 where
  -- "could not load config"
  no_config : InitError
  -- "no such config param `discovery.cache_path`"
  no_cache_path : InitError
  -- `Refresh` fails, or panics.
  no_cache : RefreshError → InitError

abbrev pub cache_path_key : Bytes
cache_path_key = codes "discovery.cache_path"

-- `SetDefaultConfig`.
unfoldable pub set_default_config : Globals → Config → Globals
set_default_config globals conf = record globals { default_config = some conf }

-- `initConfig`: the configuration is set before its file is read into it, and stays when that fails.
unfoldable pub init_config : Files → Bytes → Globals → Globals × Bool
init_config files config_path globals =
    let loaded = load files.later (files.config_file config_path) new_config in
    (record globals { default_config = some loaded.0 }, loaded.1)

module _ (j : Json) (a : Arrays) (c : Crypto) (x : Certificates c) where
  -- `NewServiceCache`, which reads the cache's file: `none` where its scan would run out of fuel.
  unfoldable pub opened_cache : Files → Bytes → Option (ServiceCache × Option RefreshError)
  opened_cache files path = refresh j a c x (new_service_cache path) (files.cache_file path)

  abbrev pub with_cache :
      Globals
      → RefresherOptions
      → Option (ServiceCache × Option RefreshError)
      → Option (Globals × Option InitError)
  with_cache globals options none = none
  with_cache globals options (some (cache, some e)) = some (globals, some (no_cache e))
  with_cache globals options (some (cache, none)) = some (
    record globals {
      default_cache = some (new_cache_refresher cache options.wait_duration options.reactive);
    },
    none,
  )

  abbrev pub at_cache_path :
      Files → RefresherOptions → Globals → Bytes × Bool → Option (Globals × Option InitError)
  at_cache_path files options globals (path, false) = some (globals, some no_cache_path)
  at_cache_path files options globals (path, true) =
      with_cache globals options (opened_cache files path)

  -- `DefaultConfig` panics where there is none, which `initConfig` excludes.
  abbrev pub cache_path : Option Config → Bytes × Bool
  cache_path none = ([], false)
  cache_path (some conf) = get conf cache_path_key

  abbrev pub configured :
      Files → RefresherOptions → Globals × Bool → Option (Globals × Option InitError)
  configured files options (globals, false) = some (globals, some no_config)
  configured files options (globals, true) =
      at_cache_path files options globals (cache_path globals.default_config)

  -- `Initialize`.
  unfoldable pub initialize :
      Files → Bytes → RefresherOptions → Globals → Option (Globals × Option InitError)
  initialize files config_path options globals =
      configured files options (init_config files config_path globals)
