-- ===== src/Service/Rows.antt =====
-- scamp/service.go: the rows that the signature of an announcement is cut into.
use scamp_go.Base.{
  ℕ, zero, suc, ◌≤◌, ◌<◌, ◌≡◌, true, leb, ltb, Bytes, arith, length, drop, All, Bool-cases, inl,
  inr, append-nil, take-append-drop, length-take, length-drop,
}
use scamp_go.Message.Chunks.{concat}
use scamp_go.Service.Marshal.{rows, string_to_rows}

concat-rows :
    (fuel size : ℕ) (s : Bytes) → 0 < size → length s < fuel → concat (rows fuel size s) ≡ s
unfolding rows
concat-rows zero size s h b = absurd (omega arith)
concat-rows (suc fuel) size s h b = elim (Bool-cases (ltb size (length s))) [
  | inr last ↦ rw last (append-nil s)
  | inl more ↦ rw more (
      rw (concat-rows fuel size (drop size s) h (ground (arith, length-drop size s)))
        (take-append-drop size s))
]

rows-le : (fuel size : ℕ) (s : Bytes) → All (λ r. length r ≤ size) (rows fuel size s)
unfolding rows
rows-le zero size s = tt
rows-le (suc fuel) size s = ground (arith, rows-le fuel size (drop size s), length-take size s)

short_le : (n size : ℕ) → leb n size ≡ true → n ≤ size
short_le n size h = ground arith

-- The rows of a text, put together, are the text, and each has at most 76 bytes, whatever row length
-- is asked for.
pub concat-string_to_rows :
    (input : Bytes) (rowlen : ℕ)
    → (concat (string_to_rows input rowlen) ≡ input)
      × All (λ r. length r ≤ 76) (string_to_rows input rowlen)
unfolding string_to_rows
concat-string_to_rows input rowlen = elim (Bool-cases (leb (length input) 76)) [
  | inl short ↦ rw short (append-nil input, (short_le (length input) 76 short, tt))
  | inr long ↦ rw long (
    concat-rows (suc (length input)) 76 input (omega arith) (omega arith),
    rows-le (suc (length input)) 76 input,
  )
]
