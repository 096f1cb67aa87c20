-- ===== src/Cert.antt =====
-- scamp/cert.go: the fingerprint of a certificate. SHA-1 is an argument.
use scamp_go.Base.{
  ℕ, ◌+◌, ◌-◌, ◌/◌, ◌%◌, ◌<◌, ◌≡◌, refl, ap, ◌∙◌, not, ◌&&◌, [], ◌∷◌, map, ltb, leb, ◌==◌,
  if◌then◌else◌, Bytes, arith, length,
}
use scamp_go.Base.Split.{join}

-- `hex.EncodeToString`.
abbrev hex_digit : ℕ → ℕ
hex_digit n = if ltb n 10 then b'0' + n else b'a' + (n - 10)

abbrev hex_encode : Bytes → Bytes
hex_encode [] = []
hex_encode (c ∷ s) = hex_digit (c / 16) ∷ hex_digit (c % 16) ∷ hex_encode s

-- `strings.ToUpper`, of ASCII text.
abbrev upper : ℕ → ℕ
upper c = if leb b'a' c && leb c b'z' then c - 32 else c

-- The loop over the text: the index, and the length of the whole.
unfoldable colons : ℕ → ℕ → Bytes → Bytes
colons i len [] = []
colons i len (c ∷ s) =
    let rest = colons (i + 1) len s in
    c ∷ (if ltb 0 i && (not (i == len - 1) && (i + 1) % 2 == 0) then b':' ∷ rest else rest)

-- `sha1FingerPrint`.
unfoldable pub sha1_finger_print : (Bytes → Bytes) → Bytes → Bytes
unfolding colons
sha1_finger_print sha1 raw =
    let upper_cased = map upper (hex_encode (sha1 raw)) in colons 0 (length upper_cased) upper_cased

-- A byte as two digits.
abbrev pub upper_hex : ℕ → Bytes
upper_hex c = upper (hex_digit (c / 16)) ∷ upper (hex_digit (c % 16)) ∷ []

colons_first :
    (i len c : ℕ) (s : Bytes) → i % 2 ≡ 0 → colons i len (c ∷ s) ≡ c ∷ colons (i + 1) len s
unfolding colons
colons_first i len c s even = ground arith

colons_last : (i len c : ℕ) → i + 1 ≡ len → colons i len (c ∷ []) ≡ c ∷ []
unfolding colons
colons_last i len c end = ground arith

colons_second :
    (i len c : ℕ) (s : Bytes)
    → i % 2 ≡ 1
    → i + 1 < len
    → colons i len (c ∷ s) ≡ c ∷ b':' ∷ colons (i + 1) len s
unfolding colons
colons_second i len c s odd more = ground arith

colons-join :
    (i len b : ℕ) (bs : Bytes)
    → i % 2 ≡ 0
    → len ≡ i + (2 + length (map upper (hex_encode bs)))
    → colons i len (map upper (hex_encode (b ∷ bs))) ≡ join b':' (upper_hex b) (map upper_hex bs)
unfolding join
colons-join i len b [] even end =
    colons_first i len (upper (hex_digit (b / 16))) (upper (hex_digit (b % 16)) ∷ []) even
    ∙ ap (λ s. upper (hex_digit (b / 16)) ∷ s)
        (colons_last (i + 1) len (upper (hex_digit (b % 16))) (omega arith))
colons-join i len b (c ∷ bs) even end =
    colons_first i len _ _ even
    ∙ ap (λ s. upper (hex_digit (b / 16)) ∷ s)
        (colons_second (i + 1) len _ _ (omega arith) (omega arith)
          ∙ ap (λ s. upper (hex_digit (b % 16)) ∷ b':' ∷ s)
              (colons-join (i + 1 + 1) len c bs (omega arith) (omega arith)))

-- When SHA-1 gives a byte and more bytes, the fingerprint is each of them as two capital digits, in
-- order, joined by colons.
pub sha1_finger_print-join :
    (sha1 : Bytes → Bytes) (raw : Bytes) (b : ℕ) (bs : Bytes)
    → sha1 raw ≡ b ∷ bs
    → sha1_finger_print sha1 raw ≡ join b':' (upper_hex b) (map upper_hex bs)
unfolding sha1_finger_print
sha1_finger_print-join sha1 raw b bs e =
    ap (λ s. colons 0 (length (map upper (hex_encode s))) (map upper (hex_encode s))) e
    ∙ colons-join 0 (length (map upper (hex_encode (b ∷ bs)))) b bs refl (omega arith)
