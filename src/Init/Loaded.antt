-- ===== src/Init/Loaded.antt =====
-- scamp/init.go: what `Initialize` leaves in the process.
use scamp_go.Base.{length, ◌≤◌, true, false, List, [], map, some, Bytes, ◌≡◌, All}
use scamp_go.Header.{Json}
use scamp_go.Ticket.{Crypto}
use scamp_go.Proxy.{Proxy, Arrays}
use scamp_go.Signature.{Certificates}
use scamp_go.Config.{Config, new_config, do_load, half_buffer}
use scamp_go.Config.Lines.{AreWords, line_of, last_value}
use scamp_go.Cache.{ServiceCache, new_service_cache, clear}
use scamp_go.Cache.Scan.{contents}
use scamp_go.Cache.Scan.Lines.{IsLine, lines_text}
use scamp_go.Cache.Scan.Records.{Entry, all_lines, admit_all}
use scamp_go.Init.{Files, cache_path_key}

-- The files that a process is started with: the settings as lines, which name the path of a file with
-- the records of a cache.
pub record AreStartFiles (files : Files) (config_path path : Bytes)
    (settings : List (Bytes × Bytes)) (es : List Entry) : Type 0 where
  pub words : All AreWords settings
  pub config_lines : All IsLine (map line_of settings)
  pub config_text : files.config_file config_path ≡ some (lines_text (map line_of settings))
  pub fits : length (lines_text (map line_of settings)) ≤ half_buffer
  pub names_path : last_value cache_path_key settings ([], false) ≡ (path, true)
  pub cache_lines : All IsLine (all_lines es)
  pub cache_text : files.cache_file path ≡ contents (lines_text (all_lines es))

-- The configuration that the settings make.
abbrev pub loaded : List (Bytes × Bytes) → Config
loaded settings = do_load (map line_of settings) new_config

module _ (j : Json) (a : Arrays) (c : Crypto) (x : Certificates c) where
  -- The cache that the records make.
  abbrev pub filled : Bytes → List Proxy → ServiceCache
  filled path ps = admit_all j a c x (clear (new_service_cache path)) ps
