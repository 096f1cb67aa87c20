-- ===== src/Ticket.antt =====
-- scamp/ticket.go: tickets, and how one is verified.
-- The file with the public key, `encoding/pem`, `crypto/x509`, `encoding/base64`, `crypto/sha256` and
-- `crypto/rsa` are a record of functions, `Crypto`. The time is an argument.
-- Numbers are 64-bit patterns.
pub mod Sound
use scamp_go.Base.{
  ℕ, ◌+◌, ◌%◌, Bool, true, false, not, List, [], ◌∷◌, ◌++◌, map, Option, none, some, ltb,
  if◌then◌else◌, Bytes, codes, bytes_eq, length, nat_eq,
}
use scamp_go.Base.Decimal.{two_64, two_63, parse_int}
use scamp_go.Base.Dict.{lookup, insert}
use scamp_go.Base.Result.{Result, ok, err, ◌>>=◌, ◌>>◌, guard}
use scamp_go.Base.Split.{split, join_all, unsnoc, trim_space}

pub record Ticket : Type 0 where
  pub version : ℕ
  pub user_id : ℕ
  pub client_id : ℕ
  pub timestamp : ℕ
  pub ttl : ℕ
  pub privileges : List (ℕ × Bool)

pub record Crypto : Type 1 where
  pub Key : Type 0
  pub read_file : Bytes → Option Bytes
  -- `pem.Decode`, and `x509.ParsePKIXPublicKey` where it gives an RSA key.
  pub pem_block : Bytes → Option Bytes
  pub public_key : Bytes → Option Key
  pub base64_decode : Bytes → Option Bytes
  pub sha256 : Bytes → Bytes
  -- `rsa.VerifyPKCS1v15`, of a key, a hash and a signature.
  pub verifies : Key → Bytes → Bytes → Bool

pub data TicketError : Type 0 where
  missing_parts : ℕ → TicketError
  unreadable_key : Bytes → TicketError
  bad_encoding bad_signature invalid_version : TicketError
  bad_user_id bad_client_id bad_timestamp bad_ttl bad_privilege : Bytes → TicketError
  ticket_expired : TicketError
  missing_privileges : List ℕ → TicketError
  -- The key's file is not there or holds no RSA key: the code panics.
  key_panic : TicketError

abbrev pub default_key_path : Bytes
default_key_path = codes "/etc/GT/auth/ticket_verify_public_key.pem"

-- `verifyKey` behind `readVerifyKey`: the file is read once, whatever comes of it.
pub data KeyState {ℓ} (K : Type ℓ) : Type ℓ where
  unread : KeyState K
  was_read : Option K → KeyState K

-- `<` on int64.
abbrev pub less_than : ℕ → ℕ → Bool
less_than a b = ltb ((a + two_63) % two_64) ((b + two_63) % two_64)

-- `Ticket.Expired`, at a given time.
unfoldable pub expired : Ticket → ℕ → Bool
expired ticket now = less_than ((ticket.timestamp + ticket.ttl) % two_64) now

abbrev pub atoi : Bytes → TicketError → Result TicketError ℕ
atoi s e = elim (parse_int s) [ none ↦ err e | some n ↦ ok n ]

unfoldable pub parse_privileges :
    List Bytes → List (ℕ × Bool) → Result TicketError (List (ℕ × Bool))
parse_privileges [] privs = ok privs
parse_privileges (s ∷ rest) privs =
    atoi s (bad_privilege s) >>= λ priv. parse_privileges rest (insert priv true privs)

abbrev pub privileges_of : List Bytes → Result TicketError (List (ℕ × Bool))
privileges_of [] = ok []
privileges_of (s ∷ rest) = let (priv, privs) = split b'+' s in parse_privileges (priv ∷ privs) []

-- The fields of a ticket whose signature is good. There are five parts or more here.
unfoldable pub parse_ticket : List Bytes → Result TicketError Ticket
parse_ticket (version ∷ user ∷ client ∷ time ∷ ttl ∷ rest) =
    guard (bytes_eq version (codes "1")) invalid_version
    >> (atoi user (bad_user_id user) >>= λ user_id.
        atoi client (bad_client_id client) >>= λ client_id.
        atoi time (bad_timestamp time) >>= λ timestamp. atoi ttl (bad_ttl ttl) >>= λ lifetime.
        privileges_of rest >>= λ privileges. ok (record {
          version = 1;
          user_id = user_id;
          client_id = client_id;
          timestamp = timestamp;
          ttl = lifetime;
          privileges = privileges;
        }))
parse_ticket parts = err (missing_parts (length parts))

-- `Ticket.CheckPrivs`: the privileges that the ticket lacks.
abbrev pub has_privilege : Ticket → ℕ → Bool
has_privilege ticket priv = elim (lookup priv ticket.privileges) [
  | none ↦ false
  | some found ↦ found
]

abbrev pub missing : Ticket → List ℕ → List ℕ
missing ticket [] = []
missing ticket (priv ∷ privs) =
    let rest = missing ticket privs in if has_privilege ticket priv then rest else priv ∷ rest

unfoldable pub check_privs : Ticket → List ℕ → Option TicketError
check_privs ticket privs = elim (missing ticket privs) [
  | [] ↦ none
  | p ∷ ps ↦ some (missing_privileges (p ∷ ps))
]

module _ (c : Crypto) where
  -- The function that `readVerifyKey` runs.
  abbrev pub load_key : Bytes → Option c.Key
  load_key path = elim (c.read_file path) [
    | none ↦ none
    | some text ↦ elim (c.pem_block text) [ none ↦ none | some block ↦ c.public_key block ]
  ]

  -- `readVerifyKey.Do`: a run that panics counts as done, and leaves no key.
  unfoldable pub read_key : KeyState c.Key → Bytes → KeyState c.Key × Result TicketError (Unit {0})
  read_key (was_read key) path = (was_read key, ok tt)
  read_key unread path = elim (load_key path) [
    | none ↦ (was_read none, err key_panic)
    | some key ↦ (was_read (some key), ok tt)
  ]

  abbrev pub key_of : KeyState c.Key → Bytes → Result TicketError c.Key
  key_of unread path = err (unreadable_key path)
  key_of (was_read none) path = err (unreadable_key path)
  key_of (was_read (some key)) path = ok key

  abbrev pub check_signature : c.Key → List Bytes → Bytes → Result TicketError (Unit {0})
  check_signature key parts sig = elim (c.base64_decode sig) [
    | none ↦ err bad_encoding
    | some signature ↦
        guard (c.verifies key (c.sha256 (join_all b',' parts)) signature) bad_signature
  ]

  -- What `VerifyTicket` does with the parts before the signature and the key's state.
  unfoldable pub verify_parts :
      KeyState c.Key → ℕ → Bytes → List Bytes → Bytes → Result TicketError Ticket
  verify_parts state now path parts sig = key_of state path >>= λ key.
      check_signature key parts sig
      >> (parse_ticket parts >>= λ ticket.
          guard (not (expired ticket now)) ticket_expired >> ok ticket)

  abbrev pub key_path : Bytes → Bytes
  key_path [] = default_key_path
  key_path (x ∷ xs) = x ∷ xs

  -- `VerifyTicket`, at a given time.
  unfoldable pub verify_ticket :
      KeyState c.Key → ℕ → Bytes → Bytes → KeyState c.Key × Result TicketError Ticket
  verify_ticket state now text path =
      let (first, rest) = split b',' (trim_space text) in
      let (parts, sig) = unsnoc first rest in
      let (state', reading) = read_key state (key_path path) in
      if ltb (length (first ∷ rest)) 6
      then (state, err (missing_parts (length (first ∷ rest))))
      else (state', reading >> verify_parts state' now (key_path path) parts sig)
