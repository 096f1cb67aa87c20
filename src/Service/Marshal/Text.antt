-- ===== src/Service/Marshal/Text.antt =====
-- scamp/service.go: the lines of an announcement.
use scamp_go.Base.{
  ℕ, ◌<◌, ◌≡◌, ◌≢◌, refl, ap, sym, subst, ◌∙◌, List, [], ◌∷◌, ◌++◌, arith, Bytes, All, All-append,
  length,
}
use scamp_go.Base.Split.{join}
use scamp_go.Header.{Json}
use scamp_go.Proxy.{Proxy, Arrays, marshal_json}
use scamp_go.Proxy.RoundTrip.{ArrayLaws}
use scamp_go.Cache.Scan.{max_line, drop_cr, sep}
use scamp_go.Cache.Scan.Lines.{join-newline, IsLine, lines_text, lines_text-append}
use scamp_go.Service.Marshal.{string_to_rows, rows_text, announcement}

rows_text-lines_text : (rows : List Bytes) → rows_text rows ≡ lines_text rows
rows_text-lines_text [] = refl
rows_text-lines_text (r ∷ rs) = rw (rows_text-lines_text rs) refl

pub announcement-lines_text :
    (class_record : Bytes) (cert_line : Bytes) (cert_lines : List Bytes) (sig : Bytes)
    → announcement class_record (join b'\n' cert_line cert_lines) sig
      ≡ lines_text (
          class_record ∷ [] ∷ ((cert_line ∷ cert_lines) ++ [] ∷ (string_to_rows sig 76 ++ [] ∷ [])))
announcement-lines_text class_record cert_line cert_lines sig =
    let rows = string_to_rows sig 76 in
    ap (λ t. class_record ++ b'\n' ∷ b'\n' ∷ t)
      (join-newline cert_line cert_lines (b'\n' ∷ (rows_text rows ++ b'\n' ∷ []))
        ∙ ap (λ r. lines_text (cert_line ∷ cert_lines) ++ (b'\n' ∷ r))
            (ap (λ r. r ++ b'\n' ∷ []) (rows_text-lines_text rows)
              ∙ sym (lines_text-append rows ([] ∷ [])))
        ∙ sym (lines_text-append (cert_line ∷ cert_lines) ([] ∷ (rows ++ [] ∷ []))))

drop_cr-append : (s : Bytes) (c : ℕ) → c ≢ b'\r' → drop_cr (s ++ c ∷ []) ≡ s ++ c ∷ []
drop_cr-append [] c ne = ground arith
drop_cr-append (d ∷ []) c ne = ap (◌∷◌ d) (drop_cr-append [] c ne)
drop_cr-append (d ∷ e ∷ s) c ne = ap (◌∷◌ d) (drop_cr-append (e ∷ s) c ne)

pub empty-IsLine : IsLine []
empty-IsLine = record { no_newline = tt; no_cr = refl; short = omega arith }

pub sep-IsLine : IsLine sep
sep-IsLine = record {
  no_newline = ((λ e. omega arith), ((λ e. omega arith), ((λ e. omega arith), tt)));
  no_cr = refl;
  short = omega arith;
}

module _ (j : Json) (a : Arrays) (array_laws : ArrayLaws j a) where
  -- A class record is a line that is not empty.
  unfoldable pub IsClassRecord : Bytes → Type 0
  IsClassRecord s = (first : ℕ) × (rest : Bytes) × (s ≡ first ∷ rest) × IsLine s

  array-IsClassRecord :
      (xs : List Bytes) → length (a.array xs) < max_line → IsClassRecord (a.array xs)
  unfolding IsClassRecord
  array-IsClassRecord xs short =
      let (inner, same, clean) = array_laws.array_line xs in
      (
        b'[',
        inner ++ b']' ∷ [],
        same,
        record {
          no_newline = subst (All (λ c. c ≢ b'\n')) (sym same) (
            (λ e. omega arith),
            All-append (λ c. c ≢ b'\n') inner (b']' ∷ []) clean ((λ e. omega arith), tt),
          );
          no_cr =
              subst (λ s. drop_cr s ≡ s) (sym same)
                (drop_cr-append (b'[' ∷ inner) b']' (λ e. omega arith));
          short = short;
        },
      )

  pub IsClassRecord-IsLine : {s : Bytes} → IsClassRecord s → IsLine s
  unfolding IsClassRecord
  IsClassRecord-IsLine (first, rest, shape, line) = line

  pub marshal_json-IsClassRecord :
      (sp : Proxy) → length (marshal_json j a sp) < max_line → IsClassRecord (marshal_json j a sp)
  unfolding marshal_json
  marshal_json-IsClassRecord sp short = array-IsClassRecord _ short
