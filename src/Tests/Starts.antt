-- ===== src/Tests/Starts.antt =====
-- A process that is set up, at concrete inputs.
use scamp_go.Base.{
  List, Bool, ◌==◌, not, ◌&&◌, true, [], ◌∷◌, none, some, Bytes, codes, map, bytes_eq, bytes_Eq,
  if◌then◌else◌,
}
use scamp_go.Config.{is_blank}
use scamp_go.Config.Lines.{line_of}
use scamp_go.Cache.Scan.{contents, missing}
use scamp_go.Cache.Scan.Lines.{lines_text}
use scamp_go.Cache.Scan.Records.{all_lines}
use scamp_go.Init.{Globals, Files, RefresherOptions}
use scamp_go.Tests.Discovery.{entry}

abbrev conf_path : Bytes
conf_path = codes "/soa.conf"

abbrev settings : List (Bytes × Bytes)
settings = (codes "discovery.cache_path", codes "/c") ∷ []

abbrev files : Files
files = record {
  later = λ key value. value;
  config_file =
      λ path. if bytes_eq path conf_path then some (lines_text (map line_of settings)) else none;
  cache_file = λ path.
      if bytes_eq path (codes "/c")
      then contents (lines_text (all_lines (entry ∷ [])))
      else missing;
}

abbrev options : RefresherOptions
options = record { wait_duration = none; reactive = true }

abbrev unset : Globals
unset = record { default_config = none; default_cache = none }

abbrev has_no_newline : Bytes → Bool
has_no_newline [] = true
has_no_newline (c ∷ s) = not (c == b'\n') && has_no_newline s

abbrev is_word : Bytes → Bool
is_word [] = true
is_word (c ∷ s) = not (is_blank c) && is_word s
