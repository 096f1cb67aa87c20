-- ===== src/Packet/Line/Cut.antt =====
-- scamp/packet.go: reading a line that ends in `\r\n`.
use scamp_go.Base.{
  ℕ, zero, suc, ◌+◌, ◌<◌, ◌≡◌, ◌≢◌, refl, ap, sym, ◌≡⟨◌⟩◌, ◌∎, true, [], ◌∷◌, ◌++◌, some, arith,
  Bytes, length, All, All-append, length-append, append_assoc,
}
use scamp_go.Packet.Line.{found, read_slice, ends_cr, drop_last, line_of, read_line, buffer_size}

abbrev pub OneLine : Bytes → Type 0
OneLine = All (λ c. c ≢ b'\n')

read_slice_found :
    (room : ℕ) (line rest : Bytes)
    → OneLine line
    → length line < room
    → read_slice room (line ++ b'\n' ∷ rest) ≡ found line rest
unfolding read_slice
read_slice_found zero line rest h b = absurd (omega arith)
read_slice_found (suc room) [] rest h b = refl
read_slice_found (suc room) (c ∷ line) rest h b =
    ground (arith, read_slice_found room line rest h.1)

ends_cr_append : (s : Bytes) → ends_cr (s ++ b'\r' ∷ []) ≡ true
unfolding ends_cr
ends_cr_append [] = refl
ends_cr_append (c ∷ []) = refl
ends_cr_append (c ∷ d ∷ s) = ends_cr_append (d ∷ s)

drop_last_append : (s : Bytes) (c : ℕ) → drop_last (s ++ c ∷ []) ≡ s
unfolding drop_last
drop_last_append [] c = refl
drop_last_append (d ∷ []) c = refl
drop_last_append (d ∷ e ∷ s) c = ap (◌∷◌ d) (drop_last_append (e ∷ s) c)

read_line_found :
    (line rest : Bytes)
    → OneLine line
    → length line < buffer_size
    → read_line (line ++ b'\n' ∷ rest) ≡ line_of (found line rest)
unfolding read_line
read_line_found line rest h b = rw (read_slice_found buffer_size line rest h b)

line_of_cr : (line rest : Bytes) → line_of (found (line ++ b'\r' ∷ []) rest) ≡ some (line, rest)
unfolding line_of
line_of_cr line rest = rw (ends_cr_append line, drop_last_append line)

-- A line with `\r\n` behind it that fits the buffer is read whole, without its end.
pub read_line_crlf :
    (line rest : Bytes)
    → OneLine line
    → length line + 1 < buffer_size
    → read_line (line ++ b'\r' ∷ b'\n' ∷ rest) ≡ some (line, rest)
read_line_crlf line rest h b =
    read_line (line ++ b'\r' ∷ b'\n' ∷ rest)
    ≡⟨ ap read_line (sym (append_assoc line (b'\r' ∷ []) (b'\n' ∷ rest))) ⟩
      read_line ((line ++ b'\r' ∷ []) ++ b'\n' ∷ rest)
    ≡⟨ read_line_found (line ++ b'\r' ∷ []) rest (All-append _ line _ h (omega arith))
        (omega (arith, length-append line (b'\r' ∷ []))) ⟩
      line_of (found (line ++ b'\r' ∷ []) rest)
    ≡⟨ line_of_cr line rest ⟩ some (line, rest) ∎
