-- ===== src/Service/Files.antt =====
-- scamp/service.go: the file that says that a service runs.
-- Of the file system, the directories and files that there are, by their paths; which of the calls of `os`
-- are refused is given. `os.Create` of a file that is there empties it, which is not seen here.
pub mod Kept
use scamp_go.Base.{
  ℕ, Bool, true, false, ◌||◌, List, [], ◌∷◌, ◌++◌, map, Option, none, some, ◌==◌, if◌then◌else◌,
  Bytes, bytes_eq,
}
use scamp_go.Config.{Config, running_service_file_dir_path}
use scamp_go.Service.{Service}

pub record FileSystem : Type 0 where
  pub dirs : List Bytes
  pub files : List Bytes

-- The calls that the file system refuses.
pub record Refuses : Type 0 where
  pub mkdir_all : Bytes → Bool
  pub create : Bytes → Bool
  pub remove : Bytes → Bool

pub data FileError : Type 0 where
  not_configured mkdir_error create_error remove_error : FileError

abbrev pub has : Bytes → List Bytes → Bool
has path [] = false
has path (p ∷ ps) = bytes_eq p path || has path ps

abbrev pub add_path : Bytes → List Bytes → List Bytes
add_path path paths = if has path paths then paths else path ∷ paths

abbrev pub without : Bytes → List Bytes → List Bytes
without path [] = []
without path (p ∷ ps) = if bytes_eq p path then without path ps else p ∷ without path ps

-- `strings.Replace(name, "/", "_", -1)`, byte by byte.
abbrev pub underscore : ℕ → ℕ
underscore c = if c == b'/' then b'_' else c

-- `runningServiceFilePath`.
unfoldable pub running_service_file_path : Service → Bytes → Bytes
running_service_file_path serv dir = dir ++ b'/' ∷ map underscore serv.name

module _ (refuses : Refuses) where
  abbrev pub make_dir : Bytes → FileSystem → FileSystem × Option FileError
  make_dir dir fs =
      if has dir fs.dirs
      then (fs, none)
      else if refuses.mkdir_all dir
      then (fs, some mkdir_error)
      else (record fs { dirs = dir ∷ fs.dirs }, none)

  abbrev pub create_file : Bytes → FileSystem → FileSystem × Option FileError
  create_file path fs =
      if refuses.create path
      then (fs, some create_error)
      else (record fs { files = add_path path fs.files }, none)

  abbrev pub create_in : Bytes → FileSystem × Option FileError → FileSystem × Option FileError
  create_in path (fs, some e) = (fs, some e)
  create_in path (fs, none) = create_file path fs

  abbrev pub create_at : Option Bytes → Service → FileSystem → FileSystem × Option FileError
  create_at none serv fs = (fs, some not_configured)
  create_at (some dir) serv fs = create_in (running_service_file_path serv dir) (make_dir dir fs)

  -- `createRunningServiceFile`.
  unfoldable pub create_running_service_file :
      Config → Service → FileSystem → FileSystem × Option FileError
  create_running_service_file conf serv fs = create_at (running_service_file_dir_path conf) serv fs

  abbrev pub remove_file : Bytes → FileSystem → FileSystem × Option FileError
  remove_file path fs =
      if has path fs.files
      then if refuses.remove path
        then (fs, some remove_error)
        else (record fs { files = without path fs.files }, none)
      else (fs, some remove_error)

  abbrev pub remove_at : Option Bytes → Service → FileSystem → FileSystem × Option FileError
  remove_at none serv fs = (fs, some not_configured)
  remove_at (some dir) serv fs = remove_file (running_service_file_path serv dir) fs

  -- `removeRunningServiceFile`.
  unfoldable pub remove_running_service_file :
      Config → Service → FileSystem → FileSystem × Option FileError
  remove_running_service_file conf serv fs = remove_at (running_service_file_dir_path conf) serv fs
