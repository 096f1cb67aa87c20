-- ===== src/Packet/Scan.antt =====
-- scamp/packet.go: `fmt.Sscanf(line, "%s %d %d", &type, &msgNo, &size)` over ASCII text with no newline: `none`
-- when fewer than three values are read. What stands behind the third value is not looked at.
pub mod Format
use scamp_go.Base.{
  ℕ, Bool, true, false, ◌&&◌, ◌||◌, List, [], ◌∷◌, Option, none, some, leb, ◌==◌, if◌then◌else◌,
  Bytes,
}
use scamp_go.Base.Decimal.{span_digits, parse_uint, parse_int}

infixl 5 ◌>>=◌
abbrev ◌>>=◌ {ℓ κ} : {A : Type ℓ} {B : Type κ} → Option A → (A → Option B) → Option B
none >>= f = none
some a >>= f = f a

abbrev pub is_space : ℕ → Bool
is_space c = (leb 9 c && leb c 13) || c == 32

abbrev pub skip_space : Bytes → Bytes
skip_space [] = []
skip_space (c ∷ s) = let rest = skip_space s in if is_space c then rest else c ∷ s

-- Up to the next space.
abbrev pub span_word : Bytes → Bytes × Bytes
span_word [] = ([], [])
span_word (c ∷ s) = let r = span_word s in if is_space c then ([], c ∷ s) else (c ∷ r.0, r.1)

-- `%s`: spaces are skipped, and something must be left.
unfoldable pub scan_word : Bytes → Option (Bytes × Bytes)
scan_word s = elim (skip_space s) [ [] ↦ none | c ∷ r ↦ some (span_word (c ∷ r)) ]

-- A blank in the format: a space, or the end of the text.
unfoldable pub scan_blank : Bytes → Option Bytes
scan_blank [] = some []
scan_blank (c ∷ s) = if is_space c then some (skip_space s) else none

-- `%d` into a uint64: digits with no sign.
unfoldable pub scan_uint : Bytes → Option (ℕ × Bytes)
scan_uint s = do let r = span_digits (skip_space s); n ← parse_uint r.0; some (n, r.1)

-- `%d` into an int: digits behind an optional sign.
unfoldable pub scan_signed : Bytes → Option (ℕ × Bytes)
scan_signed [] = none
scan_signed (c ∷ s) =
    let r = span_digits s in
    let r' = span_digits (c ∷ s) in
    if c == b'-' || c == b'+'
    then (do n ← parse_int (c ∷ r.0); some (n, r.1))
    else (do n ← parse_int r'.0; some (n, r'.1))

unfoldable pub scan_int : Bytes → Option (ℕ × Bytes)
unfolding scan_signed
scan_int s = scan_signed (skip_space s)

-- The type's bytes, the message number and the size, a pattern.
unfoldable pub scan_header_line : Bytes → Option (Bytes × ℕ × ℕ)
scan_header_line line = do
  (word, s1) ← scan_word line
  s2 ← scan_blank s1
  (msg_no, s3) ← scan_uint s2
  s4 ← scan_blank s3
  (size, s5) ← scan_int s4
  some (word, msg_no, size)
