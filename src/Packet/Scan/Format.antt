-- ===== src/Packet/Scan/Format.antt =====
-- scamp/packet.go: scanning the line that a packet's writer formats.
use scamp_go.Base.{
  ℕ, ◌<◌, ◌≡◌, ◌≢◌, refl, true, false, [], ◌∷◌, ◌++◌, some, arith, Bytes, All, append-nil,
}
use scamp_go.Base.Decimal.{
  two_64, two_63, IsDigit, format_uint, format_int, parse_int, format_uint-IsDigit,
  format_uint-ne-nil,
}
use scamp_go.Base.Decimal.RoundTrip.{
  no_digit, span_digits-append, parse_uint-format_uint, parse_int-format_int, format_int_small,
}
use scamp_go.Packet.Scan.{
  is_space, skip_space, span_word, scan_word, scan_blank, scan_uint, scan_int, scan_signed,
  scan_header_line,
}

-- A word has no space in it.
abbrev pub IsWord : Bytes → Type 0
IsWord = All (λ c. is_space c ≡ false)

span_word-append :
    (word rest : Bytes) → IsWord word → span_word (word ++ b' ' ∷ rest) ≡ (word, b' ' ∷ rest)
span_word-append [] rest h = refl
span_word-append (c ∷ s) rest h = rw (h.0, span_word-append s rest h.1)

scan_word-append :
    (word rest : Bytes)
    → word ≢ []
    → IsWord word
    → scan_word (word ++ b' ' ∷ rest) ≡ some (word, b' ' ∷ rest)
unfolding scan_word
scan_word-append [] rest n h = absurd (n refl)
scan_word-append (c ∷ s) rest n h = rw (h.0, scan_word) (rw (h.0, span_word-append s rest h.1))

skip_space-digits : (s rest : Bytes) → s ≢ [] → All IsDigit s → skip_space (s ++ rest) ≡ s ++ rest
skip_space-digits [] rest n h = absurd (n refl)
skip_space-digits (c ∷ s) rest n h = ground arith

scan_blank-digits :
    (s rest : Bytes) → s ≢ [] → All IsDigit s → scan_blank (b' ' ∷ (s ++ rest)) ≡ some (s ++ rest)
unfolding scan_blank
scan_blank-digits s rest n h = rw (skip_space-digits s rest n h)

scan_uint-format_uint :
    (n : ℕ) (rest : Bytes)
    → n < two_64
    → no_digit rest ≡ true
    → scan_uint (format_uint n ++ rest) ≡ some (n, rest)
unfolding scan_uint
scan_uint-format_uint n rest b h = rw (
  skip_space-digits (format_uint n) rest (format_uint-ne-nil n) (format_uint-IsDigit n),
  span_digits-append (format_uint n) rest (format_uint-IsDigit n) h,
  parse_uint-format_uint n b,
)

scan_signed-digits :
    (s rest : Bytes)
    → s ≢ []
    → All IsDigit s
    → no_digit rest ≡ true
    → {n : ℕ} → parse_int s ≡ some n
    → scan_signed (s ++ rest) ≡ some (n, rest)
unfolding scan_signed
scan_signed-digits [] rest ne h e p = absurd (ne refl)
scan_signed-digits (c ∷ s) rest ne h e p = ground (arith, span_digits-append s rest h.1 e)

scan_int-format_int :
    (n : ℕ) (rest : Bytes)
    → n < two_63
    → no_digit rest ≡ true
    → scan_int (format_int n ++ rest) ≡ some (n, rest)
unfolding scan_int
scan_int-format_int n rest b h =
    rw
      (
        format_int_small n b,
        skip_space-digits (format_uint n) rest (format_uint-ne-nil n) (format_uint-IsDigit n),
      )
      (scan_signed-digits (format_uint n) rest (format_uint-ne-nil n) (format_uint-IsDigit n) h
        (rw (← format_int_small n b) (parse_int-format_int n (omega arith))))

-- The last number of the line has nothing behind it.
scan_blank_last : (n : ℕ) → n < two_63 → scan_blank (b' ' ∷ format_int n) ≡ some (format_int n)
scan_blank_last n b = rw (format_int_small n b) (
    rw append-nil at
      (scan_blank-digits (format_uint n) [] (format_uint-ne-nil n) (format_uint-IsDigit n)))

scan_int_last : (n : ℕ) → n < two_63 → scan_int (format_int n) ≡ some (n, [])
scan_int_last n b = rw append-nil at (scan_int-format_int n [] b refl)

-- The three values of a line that was formatted from them.
pub scan_header_line-format :
    (word : Bytes) (msg_no size : ℕ)
    → word ≢ []
    → IsWord word
    → msg_no < two_64
    → size < two_63
    → scan_header_line (word ++ b' ' ∷ (format_uint msg_no ++ b' ' ∷ format_int size))
      ≡ some (word, msg_no, size)
unfolding scan_header_line
scan_header_line-format word n size ne h bn bs = rw (
  scan_word-append word (format_uint n ++ b' ' ∷ format_int size) ne h,
  scan_blank-digits (format_uint n) (b' ' ∷ format_int size) (format_uint-ne-nil n)
      (format_uint-IsDigit n),
  scan_uint-format_uint n (b' ' ∷ format_int size) bn refl,
  scan_blank_last size bs,
  scan_int_last size bs,
)
