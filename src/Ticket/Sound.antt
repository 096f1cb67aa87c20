-- ===== src/Ticket/Sound.antt =====
-- scamp/ticket.go: what a verified ticket and its privileges guarantee.
use scamp_go.Base.{
  ℕ, ◌≡◌, refl, ap, sym, subst, ◌∙◌, Bool, true, false, not, List, [], ◌∷◌, ◌++◌, Option, none,
  some, ltb, if◌then◌else◌, Bytes, length, nat_eq,
}
use scamp_go.Base.Result.{Result, ok, err, ◌>>◌, guard, bind-ok, guard-ok, ok_eq, err-ne-ok}
use scamp_go.Base.Split.{split, join, join_all, unsnoc, trim_space, join-split, join-unsnoc}
use scamp_go.Ticket.{
  Ticket, Crypto, TicketError, bad_encoding, bad_signature, ticket_expired, missing_parts, KeyState,
  unread, was_read, expired, parse_ticket, read_key, key_of, check_signature, verify_parts,
  key_path, verify_ticket,
}

-- What the verified text, at the time `now`, was checked for.
pub record IsSigned (c : Crypto) (text : Bytes) (now : ℕ) (state : KeyState c.Key) (ticket : Ticket)
    : Type 0 where
  pub key : c.Key
  pub parts : List Bytes
  pub sig : Bytes
  pub signature : Bytes
  pub loaded : state ≡ was_read (some key)
  pub signed_text : trim_space text ≡ join_all b',' parts ++ b',' ∷ sig
  pub decoded : c.base64_decode sig ≡ some signature
  pub verified : c.verifies key (c.sha256 (join_all b',' parts)) signature ≡ true
  pub parsed : parse_ticket parts ≡ ok ticket
  pub fresh : expired ticket now ≡ false

eq-false : (b : Bool) → not b ≡ true → b ≡ false
eq-false false e = refl
eq-false true e = cc

module _ (c : Crypto) where
  key_of-ok :
      (state : KeyState c.Key) (path : Bytes) {key : c.Key}
      → key_of c state path ≡ ok key
      → state ≡ was_read (some key)
  key_of-ok unread path e = absurd (err-ne-ok e)
  key_of-ok (was_read none) path e = absurd (err-ne-ok e)
  key_of-ok (was_read (some key)) path e = ap (λ k. was_read (some k)) (ok_eq e)

  check_signature-ok :
      (key : c.Key) (parts : List Bytes) (sig : Bytes) {u : Unit {0}}
      → check_signature c key parts sig ≡ ok u
      → (signature : Bytes) × (c.base64_decode sig ≡ some signature)
        × (c.verifies key (c.sha256 (join_all b',' parts)) signature ≡ true)
  check_signature-ok key parts sig {u} e = decode (c.base64_decode sig) refl e
    where
      decode :
          (m : Option Bytes)
          → c.base64_decode sig ≡ m
          → elim m [
            | none ↦ err bad_encoding
            | some signature ↦
                guard (c.verifies key (c.sha256 (join_all b',' parts)) signature) bad_signature
          ]
            ≡ ok u
          → (signature : Bytes) × (c.base64_decode sig ≡ some signature)
            × (c.verifies key (c.sha256 (join_all b',' parts)) signature ≡ true)
      decode none d x = absurd (err-ne-ok x)
      decode (some signature) d x = (signature, d, guard-ok _ bad_signature x)

  verify_parts-ok :
      (state : KeyState c.Key) (now : ℕ) (path text : Bytes) (parts : List Bytes) (sig : Bytes)
      {ticket : Ticket}
      → trim_space text ≡ join_all b',' parts ++ b',' ∷ sig
      → verify_parts c state now path parts sig ≡ ok ticket
      → IsSigned c text now state ticket
  unfolding verify_parts
  verify_parts-ok state now path text parts sig {ticket} same e =
      let (key, k, e1) = bind-ok (key_of c state path) _ e in
      let (u, s, e2) = bind-ok (check_signature c key parts sig) _ e1 in
      let (t, p, e3) = bind-ok (parse_ticket parts) _ e2 in
      let (u', g, e4) = bind-ok (guard (not (expired t now)) ticket_expired) _ e3 in
      let (signature, d, v) = check_signature-ok key parts sig s in
      let current : expired t now ≡ false =
        eq-false (expired t now) (guard-ok (not (expired t now)) ticket_expired g) in
      record {
        key = key;
        parts = parts;
        sig = sig;
        signature = signature;
        loaded = key_of-ok state path k;
        signed_text = same;
        decoded = d;
        verified = v;
        parsed = p ∙ e4;
        fresh = subst (λ x. expired x now ≡ false) (ok_eq e4) current;
      }

  split-ok :
      (state : KeyState c.Key) (now : ℕ) (path text first : Bytes) (rest : List Bytes)
      {ticket : Ticket}
      → trim_space text ≡ join b',' first rest
      → ltb (length (first ∷ rest)) 6 ≡ false
      → verify_parts c state now path (unsnoc first rest).0 (unsnoc first rest).1 ≡ ok ticket
      → IsSigned c text now state ticket
  split-ok state now path text first [] same long e = cc
  split-ok state now path text first (next ∷ rest) same long e =
      verify_parts-ok state now path text _ _ (same ∙ join-unsnoc b',' first next rest) e

  -- When `VerifyTicket` returns a ticket, an RSA key has been read, the trimmed text is some parts
  -- joined by commas, a comma and a last part; that last part decodes to a signature which the key
  -- verifies for the hash of the joined parts; the ticket is what those parts parse to; and it has
  -- not expired at the given time.
  pub verify_ticket-IsSigned :
      (state : KeyState c.Key) (now : ℕ) (text path : Bytes) (ticket : Ticket)
      → (verify_ticket c state now text path).1 ≡ ok ticket
      → IsSigned c text now (verify_ticket c state now text path).0 ticket
  unfolding verify_ticket
  verify_ticket-IsSigned state now text path ticket e =
      choose (ltb (length (first ∷ rest)) 6) refl e
    where
      first : Bytes
      first = (split b',' (trim_space text)).0

      rest : List Bytes
      rest = (split b',' (trim_space text)).1

      state' : KeyState c.Key
      state' = (read_key c state (key_path c path)).0

      choice : Bool → KeyState c.Key × Result TicketError Ticket
      choice short = if short then (state, err (missing_parts (length (first ∷ rest)))) else (
        state',
        (read_key c state (key_path c path)).1
            >> verify_parts c state' now (key_path c path) (unsnoc first rest).0
                (unsnoc first rest).1,
      )

      choose :
          (short : Bool)
          → ltb (length (first ∷ rest)) 6 ≡ short
          → (choice short).1 ≡ ok ticket
          → IsSigned c text now (choice short).0 ticket
      choose true short x = absurd (err-ne-ok x)
      choose false long x =
          let (u, r, x') = bind-ok (read_key c state (key_path c path)).1 _ x in
          split-ok state' now (key_path c path) text first rest
            (sym (join-split b',' (trim_space text))) long x'
