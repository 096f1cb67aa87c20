-- ===== src/Authorized.antt =====
-- scamp/authorizedservices.go: the lines of the file of authorized services.
-- A line's words are what `bufio.ScanWords` gives, for ASCII spaces; a word that is too long for the
-- scanner is not modelled.
use scamp_go.Base.{
  ℕ, zero, suc, ◌-◌, Bool, true, false, List, [], ◌∷◌, ◌++◌, ltb, ◌==◌, if◌then◌else◌, Bytes,
  length,
}
use scamp_go.Base.Split.{is_space}

-- An `AuthorizedServiceSpec`: the classes' names are the words, and no names fill the array's rest.
pub record AuthorizedServiceSpec : Type 0 where
  pub fingerprint : Bytes
  pub actions : List Bytes

-- What a line makes: the error, a panic behind the array's end, or the service.
pub data SpecResult : Type 0 where
  invalid index_panic : SpecResult
  spec_of : AuthorizedServiceSpec → SpecResult

abbrev pub push_word : Bytes → List Bytes → List Bytes
push_word [] words = words
push_word (b ∷ word) words = (b ∷ word) ∷ words

-- The word that a text begins with, which is empty at a space, and the words behind it.
unfoldable pub words_from : Bytes → Bytes × List Bytes
words_from [] = ([], [])
words_from (b ∷ s) =
    let r = words_from s in if is_space b then ([], push_word r.0 r.1) else (b ∷ r.0, r.1)

unfoldable pub words : Bytes → List Bytes
words line = let r = words_from line in push_word r.0 r.1

abbrev pub max_actions : ℕ
max_actions = 100

-- The array of `actions` with the words in front.
abbrev pub blank_names : ℕ → List Bytes
blank_names zero = []
blank_names (suc n) = [] ∷ blank_names n

abbrev pub spec_of_words : List Bytes → SpecResult
spec_of_words [] = invalid
spec_of_words ([] ∷ actions) = invalid
spec_of_words ((b ∷ fingerprint) ∷ actions) =
    if b == b'#'
    then invalid
    else if ltb max_actions (length actions)
    then index_panic
    else spec_of (record {
      fingerprint = b ∷ fingerprint;
      actions = actions ++ blank_names (max_actions - length actions);
    })

-- `NewAuthorizedServicesSpec`.
unfoldable pub new_authorized_services_spec : Bytes → SpecResult
new_authorized_services_spec line = spec_of_words (words line)

-- `AuthorizedServicesCache`, with the 100 empty services that it is made with.
pub record AuthorizedServicesCache : Type 0 where
  pub services : List AuthorizedServiceSpec

abbrev pub empty_services : ℕ → List AuthorizedServiceSpec
empty_services zero = []
empty_services (suc n) = record { fingerprint = []; actions = [] } ∷ empty_services n

abbrev pub new_authorized_services_cache : AuthorizedServicesCache
new_authorized_services_cache = record { services = empty_services 100 }

-- `LoadAuthorizedServices`, by lines: the services that are read are not kept, and its error is that of the
-- last line that is not empty..
pub data Loaded : Type 0 where
  loaded : AuthorizedServicesCache → Bool → Loaded
  load_panics : Loaded

unfoldable pub load_authorized_services : List Bytes → AuthorizedServicesCache → Bool → Loaded
load_authorized_services [] cache last_ok = loaded cache last_ok
load_authorized_services ([] ∷ lines) cache last_ok = load_authorized_services lines cache last_ok
load_authorized_services ((b ∷ line) ∷ lines) cache last_ok =
    elim (new_authorized_services_spec (b ∷ line)) [
      | invalid ↦ load_authorized_services lines cache false
      | index_panic ↦ load_panics
      | spec_of spec ↦ load_authorized_services lines cache true
    ]
