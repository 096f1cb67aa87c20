-- ===== src/Base/Split.antt =====
-- `strings.Split` and `strings.Join` with a separator of one byte, and `strings.TrimSpace`.
use scamp_go.Base.{
  ℕ, ◌≡◌, refl, ap, ◌∙◌, Bool, true, ◌||◌, ◌&&◌, List, [], ◌∷◌, ◌++◌, leb, ◌==◌, ==_iff,
  if◌then◌else◌, Bytes, Bool-cases, inl, inr, append_assoc,
}

-- The first part, and the parts behind it.
unfoldable pub split : ℕ → Bytes → Bytes × List Bytes
split sep [] = ([], [])
split sep (c ∷ s) =
    let (part, parts) = split sep s in if c == sep then ([], part ∷ parts) else (c ∷ part, parts)

unfoldable pub join : ℕ → Bytes → List Bytes → Bytes
join sep part [] = part
join sep part (next ∷ parts) = part ++ sep ∷ join sep next parts

abbrev pub join_all : ℕ → List Bytes → Bytes
join_all sep [] = []
join_all sep (part ∷ parts) = join sep part parts

-- White space of one byte. A byte of 128 or more stays: the white space beyond ASCII is not trimmed.
abbrev pub is_space : ℕ → Bool
is_space c = (leb 9 c && leb c 13) || c == 32

abbrev trim_left : Bytes → Bytes
trim_left [] = []
trim_left (c ∷ s) = if is_space c then trim_left s else c ∷ s

abbrev all_space : Bytes → Bool
all_space [] = true
all_space (c ∷ s) = is_space c && all_space s

abbrev trim_right : Bytes → Bytes
trim_right [] = []
trim_right (c ∷ s) = if all_space (c ∷ s) then [] else c ∷ trim_right s

unfoldable pub trim_space : Bytes → Bytes
trim_space s = trim_right (trim_left s)

-- The parts before the last one, and the last one.
abbrev pub unsnoc : Bytes → List Bytes → List Bytes × Bytes
unsnoc part [] = ([], part)
unsnoc part (next ∷ parts) = (part ∷ (unsnoc next parts).0, (unsnoc next parts).1)

join-cons :
    (sep c : ℕ) (part : Bytes) (parts : List Bytes)
    → join sep (c ∷ part) parts ≡ c ∷ join sep part parts
unfolding join
join-cons sep c part [] = refl
join-cons sep c part (next ∷ parts) = refl

pub join-split : (sep : ℕ) (s : Bytes) → join sep (split sep s).0 (split sep s).1 ≡ s
unfolding split join
join-split sep [] = refl
join-split sep (c ∷ s) = elim (Bool-cases (c == sep)) [
  | inl same ↦ rw (same, join-split sep s, (==_iff c sep).0 same) refl
  | inr other ↦
      rw (other)
        (join-cons sep c (split sep s).0 (split sep s).1 ∙ ap (λ x. c ∷ x) (join-split sep s))
]

pub join-unsnoc :
    (sep : ℕ) (part next : Bytes) (parts : List Bytes)
    → join sep part (next ∷ parts)
      ≡ join_all sep (unsnoc part (next ∷ parts)).0 ++ sep ∷ (unsnoc part (next ∷ parts)).1
unfolding join
join-unsnoc sep part next [] = refl
join-unsnoc sep part next (more ∷ parts) = rw (join-unsnoc sep next more parts, append_assoc) refl
