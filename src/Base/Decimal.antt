-- ===== src/Base/Decimal.antt =====
-- Decimal text of 64-bit integers: what `%d`, `strconv.ParseInt`, `strconv.ParseUint` and
-- `strconv.Atoi` do. A Go `int` (or `int64`) is its 64-bit pattern, a number below 2 ^ 64: the
-- pattern n stands for n below 2 ^ 63, and for n - 2 ^ 64 from there on.
pub mod RoundTrip
use mathlib.Core.List.{foldl, cons-ne-nil}
use native.Mathlib.Nat.{pow-suc}
use scamp_go.Base.{
  ℕ, zero, suc, ◌+◌, ◌-◌, ◌*◌, ◌/◌, ◌%◌, ◌^◌, ◌≤◌, ◌<◌, ◌≡◌, ◌≢◌, refl, Bool, true, false, not,
  ◌&&◌, ◌||◌, List, [], ◌∷◌, ◌++◌, Option, none, some, arith, ltb, leb, ◌==◌, if◌then◌else◌, Bytes,
  codes, All, length, append_assoc, inl, inr, Bool-cases,
}

abbrev pub two_64 : ℕ
two_64 = 2 ^ 64

abbrev pub two_63 : ℕ
two_63 = 2 ^ 63

-- The sign bit.
abbrev pub is_negative : ℕ → Bool
is_negative n = leb two_63 n

-- The decimal digits of n in front of `out`; none for 0. The fuel n + 1 is enough.
digits : ℕ → ℕ → Bytes → Bytes
digits zero n out = out
digits (suc f) n out =
    let rest = digits f (n / 10) ((b'0' + n % 10) ∷ out) in if n == 0 then out else rest

-- `%d` of a uint64.
unfoldable pub format_uint : ℕ → Bytes
unfolding digits
format_uint n = if n == 0 then b'0' ∷ [] else digits (suc n) n []

-- `%d` of an int.
unfoldable pub format_int : ℕ → Bytes
unfolding format_uint
format_int n = if is_negative n then b'-' ∷ format_uint (two_64 - n) else format_uint n

abbrev pub is_digit : ℕ → Bool
is_digit c = leb b'0' c && leb c b'9'

abbrev pub IsDigit : ℕ → Type 0
IsDigit c = (b'0' ≤ c) × (c ≤ b'9')

-- The number that digits spell behind n, with no bound.
abbrev pub value : ℕ → Bytes → ℕ
value n [] = n
value n (c ∷ s) = value (n * 10 + (c - b'0')) s

abbrev pub all_digits : Bytes → Bool
all_digits [] = true
all_digits (c ∷ s) = is_digit c && all_digits s

-- The longest run of digits in front, and what is behind it.
abbrev pub span_digits : Bytes → Bytes × Bytes
span_digits [] = ([], [])
span_digits (c ∷ s) = let r = span_digits s in if is_digit c then (c ∷ r.0, r.1) else ([], c ∷ s)

-- `strconv.ParseUint(s, 10, 64)`.
unfoldable pub parse_uint : Bytes → Option ℕ
parse_uint [] = none
parse_uint (c ∷ s) =
    if all_digits (c ∷ s) && ltb (value 0 (c ∷ s)) two_64 then some (value 0 (c ∷ s)) else none

-- The magnitude of a signed number under its sign, as a pattern.
unfoldable pub with_sign : Bool → ℕ → Option ℕ
with_sign false n = if ltb n two_63 then some n else none
with_sign true n = if leb n two_63 then some ((two_64 - n) % two_64) else none

unfoldable pub parse_magnitude : Bool → Bytes → Option ℕ
unfolding with_sign
parse_magnitude minus [] = none
parse_magnitude minus (c ∷ s) =
    if all_digits (c ∷ s) then with_sign minus (value 0 (c ∷ s)) else none

-- `strconv.Atoi(s)`, and `strconv.ParseInt(s, 10, 64)`.
unfoldable pub parse_int : Bytes → Option ℕ
unfolding parse_magnitude
parse_int [] = none
parse_int (c ∷ s) =
    if c == b'-'
    then parse_magnitude true s
    else if c == b'+'
    then parse_magnitude false s
    else parse_magnitude false (c ∷ s)

value-digits : (f n : ℕ) (out : Bytes) → n < f → value 0 (digits f n out) ≡ value n out
unfolding digits
value-digits zero n out h = absurd (omega arith)
value-digits (suc f) n out h = ground (arith, value-digits f (n / 10) ((b'0' + n % 10) ∷ out))

digits-IsDigit : (f n : ℕ) (out : Bytes) → All IsDigit out → All IsDigit (digits f n out)
unfolding digits
digits-IsDigit zero n out h = h
digits-IsDigit (suc f) n out h = ground (arith, digits-IsDigit f (n / 10) ((b'0' + n % 10) ∷ out))

tenth_lt_pow : (n k : ℕ) → n < 10 ^ suc k → n / 10 < 10 ^ k
tenth_lt_pow n k h = let e : n < 10 ^ k * 10 = rw (← pow-suc 10 k) h in omega arith

-- A number below 10 ^ k has at most k digits.
length-digits : (f n k : ℕ) (out : Bytes) → n < 10 ^ k → length (digits f n out) ≤ k + length out
unfolding digits
length-digits zero n k out h = omega arith
length-digits (suc f) n zero out h = ground arith
length-digits (suc f) n (suc k) out h =
    ground (arith, length-digits f (n / 10) k ((b'0' + n % 10) ∷ out), tenth_lt_pow n k h)

digits-ne-nil : (f n : ℕ) (out : Bytes) → out ≢ [] → digits f n out ≢ []
unfolding digits
digits-ne-nil zero n out h = h
digits-ne-nil (suc f) n out h =
    ground (arith, digits-ne-nil f (n / 10) ((b'0' + n % 10) ∷ out) (cons-ne-nil _ _))

pub value-format_uint : (n : ℕ) → value 0 (format_uint n) ≡ n
unfolding format_uint
value-format_uint n = ground (arith, value-digits (suc n) n [])

pub format_uint-IsDigit : (n : ℕ) → All IsDigit (format_uint n)
unfolding format_uint
format_uint-IsDigit n = ground (arith, digits-IsDigit (suc n) n [])

pub format_uint-ne-nil : (n : ℕ) → format_uint n ≢ []
unfolding format_uint
format_uint-ne-nil n =
    ground (arith, digits-ne-nil n (n / 10) ((b'0' + n % 10) ∷ []) (cons-ne-nil _ _))

pub length-format_uint : (n : ℕ) → n < two_64 → length (format_uint n) ≤ 20
unfolding format_uint
length-format_uint n h = ground (arith, length-digits (suc n) n 20 [])
