-- ===== src/Config/Lines.antt =====
-- scamp/config.go: what a file of `key = value` lines sets.
use scamp_go.Base.{
  ℕ, ◌≡◌, ◌≢◌, refl, ap, ◌∙◌, Bool, true, false, List, [], ◌∷◌, ◌++◌, map, some, Bool-cases, inl,
  inr, if◌then◌else◌, Bytes, bytes_Eq, All,
}
use scamp_go.Base.Dict.{lookup-insert}
use scamp_go.Config.{
  Config, is_blank, skip_blanks, word, assigned, setting, config_line, assign, do_load, get,
}

-- A text with a byte in it and no space: of a key or of a value.
abbrev pub IsWord : Bytes → Type 0
IsWord s = (s ≢ []) × All (λ c. is_blank c ≡ false) s

-- The way that a setting is written.
abbrev pub line_of : Bytes × Bytes → Bytes
line_of (key, value) = key ++ (b' ' ∷ b'=' ∷ b' ' ∷ value)

-- The last value that the settings give a key, or else the value that it has.
abbrev pub last_value : Bytes → List (Bytes × Bytes) → Bytes × Bool → Bytes × Bool
last_value key [] old = old
last_value key ((k, v) ∷ settings) old =
    last_value key settings (if bytes_Eq.beq k key then (v, true) else old)

abbrev pub AreWords : Bytes × Bytes → Type 0
AreWords (key, value) = IsWord key × IsWord value

word_self : (s : Bytes) → All (λ c. is_blank c ≡ false) s → word s ≡ s
word_self [] h = refl
word_self (c ∷ s) (h, hs) = rw (h, word_self s hs) refl

assigned_value : (value : Bytes) → IsWord value → assigned (b' ' ∷ b'=' ∷ b' ' ∷ value) ≡ some value
assigned_value [] (ne, h) = absurd (ne refl)
assigned_value (c ∷ s) (ne, (h, hs)) = rw (h, word_self s hs) (rw h refl)

setting-line_of :
    (c : ℕ) (key value : Bytes)
    → All (λ c. is_blank c ≡ false) (c ∷ key)
    → IsWord value
    → setting (line_of (c ∷ key, value)) ≡ some (c ∷ key, value)
unfolding setting
setting-line_of c [] value (h, hs) w = rw (h, assigned_value value w) refl
setting-line_of c (d ∷ key) value (h, hs) w = rw (h, setting-line_of d key value hs w) refl

skip-line_of :
    (key value : Bytes) → IsWord key → skip_blanks (line_of (key, value)) ≡ line_of (key, value)
skip-line_of [] value (ne, h) = absurd (ne refl)
skip-line_of (c ∷ key) value (ne, (h, hs)) = rw h refl

config_line-line_of :
    (key value : Bytes)
    → IsWord key
    → IsWord value
    → config_line (line_of (key, value)) ≡ some (key, value)
config_line-line_of [] value (ne, h) w = absurd (ne refl)
config_line-line_of (c ∷ key) value (ne, h) w =
    ap setting (skip-line_of (c ∷ key) value (ne, h)) ∙ setting-line_of c key value h w

get-assign :
    (key value : Bytes) (conf : Config) (k : Bytes)
    → get (assign (some (key, value)) conf) k
      ≡ (if bytes_Eq.beq key k then (value, true) else get conf k)
unfolding get
get-assign key value conf k = elim (Bool-cases (bytes_Eq.beq key k)) [
  | inl hit ↦ rw (get, lookup-insert key k value conf.values, hit) refl
  | inr miss ↦ rw (get, lookup-insert key k value conf.values, miss) refl
]

-- Settings whose keys and values are texts with no space are written as lines of the form `key =
-- value` and loaded: `Get` of any key gives the last value that the lines set it to, or else what
-- the configuration had before.
pub get-do_load :
    (settings : List (Bytes × Bytes)) (conf : Config) (key : Bytes)
    → All AreWords settings
    → get (do_load (map line_of settings) conf) key ≡ last_value key settings (get conf key)
unfolding do_load
get-do_load [] conf key h = refl
get-do_load ((k, v) ∷ settings) conf key ((wk, wv), h) =
    ap (λ s. get (do_load (map line_of settings) (assign s conf)) key)
      (config_line-line_of k v wk wv)
    ∙ get-do_load settings (assign (some (k, v)) conf) key h
    ∙ ap (last_value key settings) (get-assign k v conf key)
