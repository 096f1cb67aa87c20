-- ===== src/Service/Files/Kept.antt =====
-- scamp/service.go: the file of a running service, made and removed.
use scamp_go.Base.{
  ◌≡◌, ◌≢◌, refl, ap, ◌∙◌, true, false, List, [], ◌∷◌, ◌++◌, map, none, some, Bytes, bytes_eq_refl,
  All, arith, Bool-cases, inl, inr,
}
use scamp_go.Config.{Config, running_service_file_dir_path}
use scamp_go.Service.{Service}
use scamp_go.Service.Files.{
  FileSystem, Refuses, has, without, underscore, running_service_file_path, make_dir, create_file,
  create_in, create_at, create_running_service_file, remove_file, remove_at,
  remove_running_service_file,
}

-- The configuration has the directory, the file system refuses nothing, and the file is not there.
pub record CanRun (refuses : Refuses) (conf : Config) (serv : Service) (fs : FileSystem)
    : Type 0 where
  pub dir : Bytes
  pub configured : running_service_file_dir_path conf ≡ some dir
  pub mkdir_taken : refuses.mkdir_all dir ≡ false
  pub create_taken : refuses.create (running_service_file_path serv dir) ≡ false
  pub remove_taken : refuses.remove (running_service_file_path serv dir) ≡ false
  pub is_new : has (running_service_file_path serv dir) fs.files ≡ false

no_slash : (name : Bytes) → All (λ c. c ≢ b'/') (map underscore name)
no_slash [] = tt
no_slash (c ∷ name) = (ground arith, no_slash name)

without_missing :
    (path : Bytes) (paths : List Bytes) → has path paths ≡ false → without path paths ≡ paths
without_missing path [] h = refl
without_missing path (p ∷ ps) h = ground (arith, without_missing path ps)

-- The file system after the file has been made.
abbrev pub Made : Bytes → Bytes → FileSystem → FileSystem → Type 0
Made dir path fs made = (has dir made.dirs ≡ true) × (made.files ≡ path ∷ fs.files)

make_dir_lem :
    (refuses : Refuses) (dir : Bytes) (fs : FileSystem)
    → refuses.mkdir_all dir ≡ false
    → (made : FileSystem) × (make_dir refuses dir fs ≡ (made, none))
      × (has dir made.dirs ≡ true)
      × (made.files ≡ fs.files)
make_dir_lem refuses dir fs taken = elim (Bool-cases (has dir fs.dirs)) [
  | inl there ↦ (fs, simp there refl, there, refl)
  | inr missing ↦ (
    record fs { dirs = dir ∷ fs.dirs },
    simp (missing, taken) refl,
    rw (bytes_eq_refl dir) refl,
    refl,
  )
]

create_file_lem :
    (refuses : Refuses) (path : Bytes) (fs : FileSystem)
    → refuses.create path ≡ false
    → has path fs.files ≡ false
    → create_file refuses path fs ≡ (record fs { files = path ∷ fs.files }, none)
create_file_lem refuses path fs taken missing = simp (taken, missing) refl

remove_file_lem :
    (refuses : Refuses) (path : Bytes) (fs : FileSystem) (others : List Bytes)
    → refuses.remove path ≡ false
    → fs.files ≡ path ∷ others
    → has path others ≡ false
    → remove_file refuses path fs ≡ (record fs { files = others }, none)
remove_file_lem refuses path fs others taken first missing =
    let there : has path fs.files ≡ true = ap (has path) first ∙ rw (bytes_eq_refl path) refl in
    let gone : without path fs.files ≡ others =
      ap (without path) first ∙ rw (bytes_eq_refl path) (without_missing path others missing) in
    simp (there, taken) (ap (λ files. (record fs { files = files }, none)) gone)

module _ (refuses : Refuses) (conf : Config) (serv : Service) (fs : FileSystem)
    (h : CanRun refuses conf serv fs) where
  pub create_lem :
      (made : FileSystem) × (create_running_service_file refuses conf serv fs ≡ (made, none))
      × Made h.dir (running_service_file_path serv h.dir) fs made
  unfolding create_running_service_file
  create_lem =
      let target = running_service_file_path serv h.dir in
      let (there, same, known, kept) = make_dir_lem refuses h.dir fs h.mkdir_taken in
      (
        record there { files = target ∷ there.files },
        ap (λ d. create_at refuses d serv fs) h.configured
            ∙ ap (create_in refuses target) same
            ∙ create_file_lem refuses target there h.create_taken (ap (has target) kept ∙ h.is_new),
        (known, ap (◌∷◌ target) kept),
      )

  -- The service that is shut down has the name that it was started with.
  pub remove_lem :
      (later : Service) (made : FileSystem)
      → later.name ≡ serv.name
      → made.files ≡ running_service_file_path serv h.dir ∷ fs.files
      → remove_running_service_file refuses conf later made
        ≡ (record made { files = fs.files }, none)
  unfolding remove_running_service_file running_service_file_path
  remove_lem later made same first =
      ap (λ d. remove_at refuses d later made) h.configured
      ∙ ap (λ name. remove_file refuses (h.dir ++ b'/' ∷ map underscore name) made) same
      ∙ remove_file_lem refuses (running_service_file_path serv h.dir) made fs.files h.remove_taken
          first h.is_new

  -- Where the directory of running files is configured, no call for the running file is refused
  -- and that file is not there, creating it succeeds, at a name in the directory that has no
  -- slash, and removing it then succeeds and leaves the files from before.
  pub remove-create :
      (made : FileSystem) × (left : FileSystem) × (name : Bytes) × (create_running_service_file
          refuses conf serv fs
        ≡ (made, none))
      × (running_service_file_path serv h.dir ≡ h.dir ++ b'/' ∷ name)
      × All (λ c. c ≢ b'/') name
      × Made h.dir (running_service_file_path serv h.dir) fs made
      × (remove_running_service_file refuses conf serv made ≡ (left, none))
      × (left.files ≡ fs.files)
  unfolding running_service_file_path
  remove-create =
      let (made, created, (known, first)) = create_lem in
      (
        made,
        record made { files = fs.files },
        map underscore serv.name,
        created,
        refl,
        no_slash serv.name,
        (known, first),
        remove_lem serv made refl first,
        refl,
      )
