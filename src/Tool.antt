-- ===== src/Tool.antt =====
-- scamp/scamp.go: the program that signs an announcement by hand, or shows a certificate's fingerprint.
-- Files and PEM private keys are given. `Fatalf` ends the program.
pub mod Scanned
pub mod Unread
use scamp_go.Base.{
  ℕ, Bool, true, false, ◌&&◌, ◌||◌, List, [], ◌∷◌, ◌++◌, Option, none, some, Bytes, codes, bytes_eq,
  if◌then◌else◌,
}
use scamp_go.Base.Split.{trim_space}
use scamp_go.Ticket.{Crypto}
use scamp_go.Signature.{Certificates, sign_sha256}
use scamp_go.Cert.{sha1_finger_print}

-- The file system, the type and bytes of a PEM block, and `x509.ParsePKCS1PrivateKey`.
pub record KeyFiles (c : Crypto) (x : Certificates c) : Type 0 where
  pub read_file : Bytes → Option Bytes
  pub key_block : Bytes → Option (Bytes × Bytes)
  pub parse_private_key : Bytes → Option x.PrivateKey

-- How the program ends. At a key file with no PEM block it panics, for the message names the block's type.
pub data Outcome : Type 0 where
  fatal panics not_enough_options : Outcome
  prints : Bytes → Outcome

-- What `main` does under its flags.
pub data Command : Type 0 where
  usage : Command
  fake_discovery_cache : Bytes → Bytes → Bytes → Command
  cert_fingerprint : Bytes → Command

abbrev pub is_empty : Bytes → Bool
is_empty [] = true
is_empty (c ∷ s) = false

-- The test in `main`.
unfoldable pub command : Bytes → Bytes → Bytes → Bytes → Command
command key_path cert_path announce_path fingerprint_path =
    if (is_empty key_path || (is_empty announce_path || is_empty cert_path))
      && is_empty fingerprint_path
    then usage
    else if is_empty key_path
    then cert_fingerprint fingerprint_path
    else fake_discovery_cache key_path cert_path announce_path

-- The text that is printed.
abbrev pub fake_text : Bytes → Bytes → Bytes → Bytes
fake_text announce_data cert_data announce_sig =
    b'\n'
    ∷ (codes "%%%"
        ++ (b'\n'
            ∷ (announce_data
                ++ (b'\n'
                    ∷ b'\n'
                    ∷ (trim_space cert_data ++ (b'\n' ∷ b'\n' ∷ (announce_sig ++ b'\n' ∷ [])))))))

module _ (c : Crypto) (x : Certificates c) (files : KeyFiles c x) where
  abbrev pub with_cert : Bytes → Bytes → Option Bytes → Outcome
  with_cert announce_data announce_sig none = fatal
  with_cert announce_data announce_sig (some cert_data) =
      prints (fake_text announce_data cert_data announce_sig)

  abbrev pub with_signature : Bytes → Bytes → Option Bytes → Outcome
  with_signature cert_path announce_data none = fatal
  with_signature cert_path announce_data (some announce_sig) =
      with_cert announce_data announce_sig (files.read_file cert_path)

  abbrev pub with_announcement : Bytes → x.PrivateKey → Option Bytes → Outcome
  with_announcement cert_path priv none = fatal
  with_announcement cert_path priv (some announce_data) =
      with_signature cert_path announce_data (sign_sha256 c x announce_data priv)

  abbrev pub with_key : Bytes → Bytes → Option x.PrivateKey → Outcome
  with_key cert_path announce_path none = fatal
  with_key cert_path announce_path (some priv) =
      with_announcement cert_path priv (files.read_file announce_path)

  abbrev pub with_block : Bytes → Bytes → Option (Bytes × Bytes) → Outcome
  with_block cert_path announce_path none = panics
  with_block cert_path announce_path (some (type, block)) =
      if bytes_eq type (codes "RSA PRIVATE KEY")
      then with_key cert_path announce_path (files.parse_private_key block)
      else fatal

  -- `doFakeDiscoveryCache`.
  unfoldable pub do_fake_discovery_cache : Bytes → Bytes → Bytes → Outcome
  do_fake_discovery_cache key_path cert_path announce_path = elim (files.read_file key_path) [
    | none ↦ fatal
    | some key_raw ↦ with_block cert_path announce_path (files.key_block key_raw)
  ]

  abbrev pub print_fingerprint : Bytes → Outcome
  print_fingerprint [] = fatal
  print_fingerprint (b ∷ fingerprint) =
      prints (codes "fingerprint: " ++ (b ∷ fingerprint) ++ b'\n' ∷ [])

  abbrev pub fingerprint_of : Option x.Certificate → Outcome
  fingerprint_of none = fatal
  fingerprint_of (some cert) = print_fingerprint (sha1_finger_print x.sha1 (x.raw cert))

  abbrev pub decoded_fingerprint : Option Bytes → Outcome
  decoded_fingerprint none = fatal
  decoded_fingerprint (some decoded) = fingerprint_of (x.parse_certificate decoded)

  -- `doCertFingerprint`.
  unfoldable pub do_cert_fingerprint : Bytes → Outcome
  do_cert_fingerprint fingerprint_path = elim (files.read_file fingerprint_path) [
    | none ↦ fatal
    | some cert_data ↦ decoded_fingerprint (c.pem_block cert_data)
  ]

  abbrev pub run_command : Command → Outcome
  run_command usage = not_enough_options
  run_command (fake_discovery_cache key_path cert_path announce_path) =
      do_fake_discovery_cache key_path cert_path announce_path
  run_command (cert_fingerprint fingerprint_path) = do_cert_fingerprint fingerprint_path

  -- `main` behind `Initialize`, whose error it does not look at.
  unfoldable pub main_program : Bytes → Bytes → Bytes → Bytes → Outcome
  main_program key_path cert_path announce_path fingerprint_path =
      run_command (command key_path cert_path announce_path fingerprint_path)
