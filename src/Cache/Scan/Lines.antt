-- ===== src/Cache/Scan/Lines.antt =====
-- scamp/servicecache.go: the lines that the scanner gives of a text made of lines.
use scamp_go.Base.{
  ℕ, zero, suc, ◌<◌, ◌≡◌, ◌≢◌, refl, ap, sym, ◌∙◌, false, List, [], ◌∷◌, ◌++◌, some, lt→ltb, ◌==◌,
  arith, Bytes, All, length, length-append, append_assoc,
}
use scamp_go.Base.Split.{join}
use scamp_go.Cache.Scan.{max_line, drop_cr, cut_line, scan_lines, tokens}

-- A line that the scanner gives as it is.
pub record IsLine (line : Bytes) : Type 0 where
  pub no_newline : All (λ c. c ≢ b'\n') line
  pub no_cr : drop_cr line ≡ line
  pub short : length line < max_line

-- Each line with a newline.
abbrev pub lines_text : List Bytes → Bytes
lines_text [] = []
lines_text (line ∷ lines) = line ++ b'\n' ∷ lines_text lines

pub lines_text-append :
    (xs ys : List Bytes) → lines_text (xs ++ ys) ≡ lines_text xs ++ lines_text ys
lines_text-append [] ys = refl
lines_text-append (x ∷ xs) ys = rw (lines_text-append xs ys, append_assoc)

pub join-newline :
    (line : Bytes) (lines : List Bytes) (s : Bytes)
    → join b'\n' line lines ++ b'\n' ∷ s ≡ lines_text (line ∷ lines) ++ s
unfolding join
join-newline line [] s = sym (append_assoc line (b'\n' ∷ []) s)
join-newline line (next ∷ lines) s =
    append_assoc line (b'\n' ∷ join b'\n' next lines) (b'\n' ∷ s)
    ∙ ap (λ t. line ++ b'\n' ∷ t) (join-newline next lines s)
    ∙ sym (append_assoc line (b'\n' ∷ lines_text (next ∷ lines)) s)

cut_line-append :
    (line rest : Bytes)
    → All (λ c. c ≢ b'\n') line
    → cut_line (line ++ b'\n' ∷ rest) ≡ (line, some rest)
unfolding cut_line
cut_line-append [] rest h = refl
cut_line-append (c ∷ s) rest (h, hs) =
    let other : (c == b'\n') ≡ false = ground arith in rw (other, cut_line-append s rest hs)

step :
    (fuel : ℕ) (text line rest : Bytes)
    → cut_line text ≡ (line, some rest)
    → text ≢ []
    → length line < max_line
    → scan_lines (suc fuel) text ≡ drop_cr line ∷ scan_lines fuel rest
unfolding scan_lines
step fuel [] line rest e h short = absurd (h refl)
step fuel (c ∷ text) line rest e h short = rw (e, lt→ltb (length line) max_line short, scan_lines)

append_ne_nil : (line : Bytes) (c : ℕ) (rest : Bytes) → line ++ c ∷ rest ≢ []
append_ne_nil [] c rest = λ e. cc
append_ne_nil (d ∷ line) c rest = λ e. cc

scan_lines-lines_text :
    (fuel : ℕ) (lines : List Bytes)
    → All IsLine lines
    → length (lines_text lines) < fuel
    → scan_lines fuel (lines_text lines) ≡ lines
unfolding scan_lines
scan_lines-lines_text zero lines h b = absurd (omega arith)
scan_lines-lines_text (suc fuel) [] h b = refl
scan_lines-lines_text (suc fuel) (line ∷ lines) (h, hs) b =
    step fuel (line ++ b'\n' ∷ lines_text lines) line (lines_text lines)
      (cut_line-append line (lines_text lines) h.no_newline)
      (append_ne_nil line b'\n' (lines_text lines)) h.short
    ∙ rw (
      h.no_cr,
      scan_lines-lines_text fuel lines hs
          (omega (arith, length-append line (b'\n' ∷ lines_text lines))),
    )

pub tokens-lines_text : (lines : List Bytes) → All IsLine lines → tokens (lines_text lines) ≡ lines
tokens-lines_text lines h = scan_lines-lines_text _ lines h (omega arith)
