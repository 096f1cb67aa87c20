-- ===== src/Base/Decimal/RoundTrip.antt =====
-- Reading back the decimal text that `%d` writes.
use scamp_go.Base.{
  ℕ, ◌-◌, ◌<◌, ◌≡◌, ◌≢◌, refl, sym, Bool, true, false, [], ◌∷◌, ◌++◌, some, arith, Bytes, All, inl,
  inr, Bool-cases, if◌then◌else◌,
}
use scamp_go.Base.Decimal.{
  two_64, two_63, is_negative, IsDigit, is_digit, all_digits, span_digits, value, format_uint,
  format_int, parse_uint, parse_int, parse_magnitude, with_sign, value-format_uint,
  format_uint-IsDigit, format_uint-ne-nil,
}

-- No digit stands in front.
abbrev pub no_digit : Bytes → Bool
no_digit [] = true
no_digit (c ∷ s) = if is_digit c then false else true

pub all_digits_of_All : (s : Bytes) → All IsDigit s → all_digits s ≡ true
all_digits_of_All [] h = refl
all_digits_of_All (c ∷ s) h = ground (arith, all_digits_of_All s h.1)

span_digits_none : (s : Bytes) → no_digit s ≡ true → span_digits s ≡ ([], s)
span_digits_none [] h = refl
span_digits_none (c ∷ s) h = ground arith

-- The run of digits ends where the digits do.
pub span_digits-append :
    (s rest : Bytes) → All IsDigit s → no_digit rest ≡ true → span_digits (s ++ rest) ≡ (s, rest)
span_digits-append [] rest h k = span_digits_none rest k
span_digits-append (c ∷ s) rest h k = ground (arith, span_digits-append s rest h.1 k)

parse_uint_of_digits :
    (s : Bytes) → s ≢ [] → All IsDigit s → value 0 s < two_64 → parse_uint s ≡ some (value 0 s)
unfolding parse_uint
parse_uint_of_digits [] h d b = absurd (h refl)
parse_uint_of_digits (c ∷ s) h d b = ground (arith, all_digits_of_All (c ∷ s) d)

-- A uint64 is read back from its text.
pub parse_uint-format_uint : (n : ℕ) → n < two_64 → parse_uint (format_uint n) ≡ some n
parse_uint-format_uint n h = ground (
  arith,
  parse_uint_of_digits (format_uint n) (format_uint-ne-nil n) (format_uint-IsDigit n),
  value-format_uint n,
)

parse_magnitude_of_digits :
    (minus : Bool) (s : Bytes)
    → s ≢ []
    → All IsDigit s
    → parse_magnitude minus s ≡ with_sign minus (value 0 s)
unfolding parse_magnitude
parse_magnitude_of_digits minus [] h d = absurd (h refl)
parse_magnitude_of_digits minus (c ∷ s) h d = ground (arith, all_digits_of_All (c ∷ s) d)

parse_int_unsigned :
    (s : Bytes) → s ≢ [] → All IsDigit s → parse_int s ≡ with_sign false (value 0 s)
unfolding parse_int
parse_int_unsigned [] h d = absurd (h refl)
parse_int_unsigned (c ∷ s) h d = ground (arith, parse_magnitude_of_digits false (c ∷ s) h d)

parse_int_minus : (s : Bytes) → parse_int (b'-' ∷ s) ≡ parse_magnitude true s
unfolding parse_int
parse_int_minus s = refl

-- An int64 is read back from its text.
pub parse_int-format_int : (n : ℕ) → n < two_64 → parse_int (format_int n) ≡ some n
unfolding format_int with_sign
parse_int-format_int n h = elim (Bool-cases (is_negative n)) [
  | inl neg ↦
      rw
        (
          neg,
          parse_int_minus,
          parse_magnitude_of_digits true (format_uint (two_64 - n))
              (format_uint-ne-nil (two_64 - n)) (format_uint-IsDigit (two_64 - n)),
          value-format_uint,
        )
        (ground arith)
  | inr nonneg ↦
      rw
        (
          nonneg,
          parse_int_unsigned (format_uint n) (format_uint-ne-nil n) (format_uint-IsDigit n),
          value-format_uint,
        )
        (ground arith)
]

-- A number with no sign bit is written as it stands.
pub format_int_small : (n : ℕ) → n < two_63 → format_int n ≡ format_uint n
unfolding format_int
format_int_small n b = ground arith

-- The text of a number begins with a digit or a minus sign.
pub format_int-ne-cons :
    (n b : ℕ) (s : Bytes) → is_digit b ≡ false → b ≢ b'-' → format_int n ≢ b ∷ s
unfolding format_int
format_int-ne-cons n b s d m e = elim (Bool-cases (is_negative n)) [
  | inl neg ↦ m (sym (head_eq (rw neg at e)))
  | inr nonneg ↦ not_digit (format_uint n) (format_uint-IsDigit n) (rw nonneg at e)
]
  where
    head_eq : {x y : ℕ} {xs ys : Bytes} → ◌≡◌ {A = Bytes} (x ∷ xs) (y ∷ ys) → x ≡ y
    head_eq p = cc

    not_digit : (t : Bytes) → All IsDigit t → t ≡ b ∷ s → ⊥
    not_digit [] h p = cc
    not_digit (c ∷ t) h p = ground arith
