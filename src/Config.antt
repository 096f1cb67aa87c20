-- ===== src/Config.antt =====
-- scamp/config.go: the configuration, its file, and the options that the library reads.
-- `configLine` is written out as the first match that Go's `regexp` takes: `[\S^=]` is any byte that is
-- no space, a key is as long as it can be. `net.ParseIP` and `net.IPv4` are given.
-- A value read from a file is a slice of the scanner's buffer. `do_load` gives the text that the slice has
-- when it is stored; `load` keeps it for a file of up to 2,048 bytes, where the buffer is never moved, and
-- takes what becomes of it in a longer file as given.
-- The configuration that the process shares is an argument, and messages in the log are not modelled.
pub mod Lines
use scamp_go.Base.{
  ℕ, Bool, true, false, not, ◌||◌, List, [], ◌∷◌, ◌++◌, Option, none, some, ◌==◌, if◌then◌else◌,
  Bytes, codes, bytes_Eq, leb, length,
}
use scamp_go.Base.Decimal.{parse_int}
use scamp_go.Base.Dict.{lookup, insert}
use scamp_go.Cache.Scan.{tokens}

pub record Config : Type 0 where
  pub values : List (Bytes × Bytes)

-- `NewConfig`.
abbrev pub new_config : Config
new_config = record { values = [] }

-- `\s`.
abbrev pub is_blank : ℕ → Bool
is_blank c = c == 9 || (c == 10 || (c == 12 || (c == 13 || c == b' ')))

abbrev pub skip_blanks : Bytes → Bytes
skip_blanks [] = []
skip_blanks (c ∷ s) = if is_blank c then skip_blanks s else c ∷ s

abbrev pub word : Bytes → Bytes
word [] = []
word (c ∷ s) = if is_blank c then [] else c ∷ word s

abbrev pub nonempty : Bytes → Option Bytes
nonempty [] = none
nonempty (c ∷ s) = some (c ∷ s)

-- `\s*=\s*([\S]+)`, at a text behind its spaces.
abbrev pub assigned_at : Bytes → Option Bytes
assigned_at [] = none
assigned_at (c ∷ s) = if c == b'=' then nonempty (word (skip_blanks s)) else none

abbrev pub assigned : Bytes → Option Bytes
assigned s = assigned_at (skip_blanks s)

abbrev pub longer_key : ℕ → Option (Bytes × Bytes) → Option Bytes → Option (Bytes × Bytes)
longer_key c (some (key, value)) here = some (c ∷ key, value)
longer_key c none (some value) = some (c ∷ [], value)
longer_key c none none = none

-- `([\S^=]+)\s*=\s*([\S]+)`: the longest key with a value behind it.
unfoldable pub setting : Bytes → Option (Bytes × Bytes)
setting [] = none
setting (c ∷ s) =
    let longer = setting s in if is_blank c then none else longer_key c longer (assigned s)

-- `configLine.FindSubmatch`.
abbrev pub config_line : Bytes → Option (Bytes × Bytes)
config_line line = setting (skip_blanks line)

abbrev pub assign : Option (Bytes × Bytes) → Config → Config
assign none conf = conf
assign (some (key, value)) conf = record conf { values = insert key value conf.values }

-- `doLoad`, over the scanner's lines.
unfoldable pub do_load : List Bytes → Config → Config
do_load [] conf = conf
do_load (line ∷ lines) conf = do_load lines (assign (config_line line) conf)

-- The length of a text that the scanner reads into its buffer at once and never moves there.
abbrev pub half_buffer : ℕ
half_buffer = 2048

-- What later reads into the buffer leave of the values, which are slices of it.
abbrev pub overwrite : (Bytes → Bytes → Bytes) → List (Bytes × Bytes) → List (Bytes × Bytes)
overwrite later [] = []
overwrite later ((key, value) ∷ values) = (key, later key value) ∷ overwrite later values

-- `Load`, of what is read from the file: false when it cannot be opened. In a text that is longer than half
-- of the buffer, what becomes of the value of a key is given.
unfoldable pub load : (Bytes → Bytes → Bytes) → Option Bytes → Config → Config × Bool
load later none conf = (conf, false)
load later (some text) conf =
    let read = do_load (tokens text) conf in
    if leb (length text) half_buffer
    then (read, true)
    else (record read { values = overwrite later read.values }, true)

-- `Get`.
unfoldable pub get : Config → Bytes → Bytes × Bool
get conf key = elim (lookup key conf.values) [ none ↦ ([], false) | some value ↦ (value, true) ]

-- `Set`.
unfoldable pub set : Config → Bytes → Bytes → Config
set conf key value = record conf { values = insert key value conf.values }

abbrev pub or_default {ℓ} : {A : Type ℓ} → Option A → A → A
or_default none default = default
or_default (some a) default = a

-- `LogLevel`, of the configuration that the process shares.
unfoldable pub log_level : Config → ℕ
log_level conf = elim (lookup (codes "log.level") conf.values) [
  | none ↦ 2
  | some value ↦ or_default (parse_int value) 2
]

unfoldable pub service_key_path : Config → Bytes → Bytes
service_key_path conf service_name =
    or_default (lookup (service_name ++ codes ".soa_key") conf.values)
      (codes "/etc/GT_private/services/" ++ service_name ++ codes ".key")

unfoldable pub service_cert_path : Config → Bytes → Bytes
service_cert_path conf service_name =
    or_default (lookup (service_name ++ codes ".soa_cert") conf.values)
      (codes "/etc/GT_private/services/" ++ service_name ++ codes ".crt")

abbrev pub default_group_port : ℕ
default_group_port = 5555

abbrev pub port_at : Config → Bytes → ℕ
port_at conf key = elim (lookup key conf.values) [
  | none ↦ default_group_port
  | some value ↦ or_default (parse_int value) default_group_port
]

unfoldable pub discovery_multicast_port : Config → ℕ
discovery_multicast_port conf = port_at conf (codes "discovery.port")

unfoldable pub local_discovery_multicast_port : Config → ℕ
local_discovery_multicast_port conf = port_at conf (codes "discovery.local_port")

unfoldable pub local_discovery_multicast : Config → Bool
local_discovery_multicast conf = elim (lookup (codes "discovery.local_multicast") conf.values) [
  | none ↦ false
  | some value ↦ true
]

-- The addresses of package `net`: `parse_ip` is `none` where `net.ParseIP` returns nil.
pub record Net {ℓ} : Type (ℓ + 1) where
  pub Ip : Type ℓ
  pub parse_ip : Bytes → Option Ip
  pub ipv4 : ℕ → ℕ → ℕ → ℕ → Ip

module _ {ℓ} (n : Net {ℓ}) where
  abbrev pub default_group_ip : n.Ip
  default_group_ip = n.ipv4 239 63 248 106

  abbrev pub ip_at : Config → Bytes → Option n.Ip
  ip_at conf key = elim (lookup key conf.values) [
    | none ↦ some default_group_ip
    | some value ↦ n.parse_ip value
  ]

  unfoldable pub discovery_multicast_ip : Config → Option n.Ip
  discovery_multicast_ip conf = ip_at conf (codes "discovery.multicast_address")

  unfoldable pub local_discovery_multicast_ip : Config → Option n.Ip
  local_discovery_multicast_ip conf = ip_at conf (codes "discovery.local_multicast_address")

-- `none` is its error.
unfoldable pub running_service_file_dir_path : Config → Option Bytes
running_service_file_dir_path conf =
    lookup (codes "service.running_service_file_dir_path") conf.values
