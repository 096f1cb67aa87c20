-- ===== src/Debugger/Drawn.antt =====
-- scamp/debugger.go: no two debuggers draw the same number.
use scamp_go.Base.{
  ℕ, zero, suc, ◌+◌, ◌%◌, ◌≤◌, ◌<◌, ◌≡◌, ◌≢◌, ap, sym, ◌∙◌, subst, List, [], ◌∷◌, ◌++◌, ◌==◌, All,
  Bool-cases, inl, inr, arith,
}
use scamp_go.Base.Decimal.{two_64}
use scamp_go.Debugger.{
  Attempt, loading, swapping, drawn, gave_up, first_attempt, swap, attempt_step,
}

-- The counter, and the goroutines that draw from it.
pub record Drawing : Type 0 where
  pub id : ℕ
  pub attempts : List Attempt

-- A goroutine comes, or one of them takes a step, while the counter does not wrap.
pub data Step : Drawing → Drawing → Type 0 where
  comes : (d : Drawing) → Step d (record d { attempts = first_attempt ∷ d.attempts })
  steps :
      (id : ℕ) (before : List Attempt) (attempt : Attempt) (after : List Attempt)
      → id + 1 < two_64
      → Step
          (record { id = id; attempts = before ++ attempt ∷ after })
          (record {
            id = (attempt_step id attempt).0;
            attempts = before ++ (attempt_step id attempt).1 ∷ after;
          })

pub data Reach : Drawing → Type 0 where
  start : (id : ℕ) → Reach (record { id = id; attempts = [] })
  next : {d e : Drawing} → Reach d → Step d e → Reach e

-- A number is not the one that is drawn.
abbrev pub IsNot : ℕ → Attempt → Type 0
IsNot i (drawn j) = i ≢ j
IsNot i (loading left) = Unit
IsNot i (swapping left loaded) = Unit
IsNot i gave_up = Unit

abbrev pub Apart : Attempt → Attempt → Type 0
Apart (drawn i) other = IsNot i other
Apart (loading left) other = Unit
Apart (swapping left loaded) other = Unit
Apart gave_up other = Unit

-- The numbers that are drawn differ.
abbrev pub AreApart : List Attempt → Type 0
AreApart [] = Unit
AreApart (attempt ∷ attempts) = All (Apart attempt) attempts × AreApart attempts

-- A number that is drawn is not above the counter.
abbrev IsBelow : ℕ → Attempt → Type 0
IsBelow id (drawn this) = this ≤ id
IsBelow id (loading left) = Unit
IsBelow id (swapping left loaded) = Unit
IsBelow id gave_up = Unit

abbrev IsUndrawn : Attempt → Type 0
IsUndrawn (drawn this) = ⊥
IsUndrawn (loading left) = Unit
IsUndrawn (swapping left loaded) = Unit
IsUndrawn gave_up = Unit

-- What a step of a goroutine does: nothing, no draw, or the draw of the next number.
data Stepped (id : ℕ) (attempt : Attempt) : ℕ × Attempt → Type 0 where
  same : Stepped id attempt (id, attempt)
  undrawn : (attempt' : Attempt) → IsUndrawn attempt' → Stepped id attempt (id, attempt')
  draws : Stepped id attempt (id + 1, drawn (id + 1))

attempt_step-Stepped :
    (id : ℕ) (attempt : Attempt) → id + 1 < two_64 → Stepped id attempt (attempt_step id attempt)
unfolding attempt_step
attempt_step-Stepped id (loading zero) small = undrawn gave_up tt
attempt_step-Stepped id (loading (suc left)) small = undrawn (swapping left id) tt
attempt_step-Stepped id (drawn this) small = same
attempt_step-Stepped id gave_up small = same
attempt_step-Stepped id (swapping left loaded) small = elim (Bool-cases (id == loaded)) [
  | inl hit ↦
      let next : (loaded + 1) % two_64 ≡ id + 1 = ground (arith, small, hit) in
      subst (Stepped id (swapping left loaded))
        (sym (ap (λ b. swap b id left loaded) hit ∙ ap (λ n. (n, drawn n)) next)) draws
  | inr miss ↦
      subst (Stepped id (swapping left loaded)) (sym (ap (λ b. swap b id left loaded) miss))
        (undrawn (loading left) tt)
]

module _ (P : Attempt → Type 0) where
  all_of : (xs : List Attempt) → ((x : Attempt) → P x) → All P xs
  all_of [] h = tt
  all_of (x ∷ xs) h = (h x, all_of xs h)

  replace_all :
      (before : List Attempt) (a a' : Attempt) (after : List Attempt)
      → P a'
      → All P (before ++ a ∷ after)
      → All P (before ++ a' ∷ after)
  replace_all [] a a' after p h = (p, h.1)
  replace_all (b ∷ before) a a' after p h = (h.0, replace_all before a a' after p h.1)

all_imply :
    {P Q : Attempt → Type 0} (xs : List Attempt) → ((x : Attempt) → P x → Q x) → All P xs → All Q xs
all_imply [] f h = tt
all_imply (x ∷ xs) f h = (f x h.0, all_imply xs f h.1)

-- Apart on both sides.
abbrev IsApartFrom : Attempt → Attempt → Type 0
IsApartFrom a' b = Apart b a' × Apart a' b

replace-AreApart :
    (before : List Attempt) (a a' : Attempt) (after : List Attempt)
    → All (IsApartFrom a') (before ++ a ∷ after)
    → AreApart (before ++ a ∷ after)
    → AreApart (before ++ a' ∷ after)
replace-AreApart [] a a' after away h = (all_imply after (λ b r. r.1) away.1, h.1)
replace-AreApart (b ∷ before) a a' after away h = (
  replace_all (Apart b) before a a' after away.0.0 h.0,
  replace-AreApart before a a' after away.1 h.1,
)

undrawn-IsApartFrom : (a' : Attempt) → IsUndrawn a' → (b : Attempt) → IsApartFrom a' b
undrawn-IsApartFrom (loading left) h (drawn i) = (tt, tt)
undrawn-IsApartFrom (loading left) h (loading l) = (tt, tt)
undrawn-IsApartFrom (loading left) h (swapping l i) = (tt, tt)
undrawn-IsApartFrom (loading left) h gave_up = (tt, tt)
undrawn-IsApartFrom (swapping left n) h (drawn i) = (tt, tt)
undrawn-IsApartFrom (swapping left n) h (loading l) = (tt, tt)
undrawn-IsApartFrom (swapping left n) h (swapping l i) = (tt, tt)
undrawn-IsApartFrom (swapping left n) h gave_up = (tt, tt)
undrawn-IsApartFrom gave_up h (drawn i) = (tt, tt)
undrawn-IsApartFrom gave_up h (loading l) = (tt, tt)
undrawn-IsApartFrom gave_up h (swapping l i) = (tt, tt)
undrawn-IsApartFrom gave_up h gave_up = (tt, tt)
undrawn-IsApartFrom (drawn this) h b = elim h [ ]

drawn-IsApartFrom : (id : ℕ) (b : Attempt) → IsBelow id b → IsApartFrom (drawn (id + 1)) b
drawn-IsApartFrom id (drawn this) h = ((λ e. omega (arith, h, e)), λ e. omega (arith, h, e))
drawn-IsApartFrom id (loading left) h = (tt, tt)
drawn-IsApartFrom id (swapping left loaded) h = (tt, tt)
drawn-IsApartFrom id gave_up h = (tt, tt)

undrawn-IsBelow : (id : ℕ) (a' : Attempt) → IsUndrawn a' → IsBelow id a'
undrawn-IsBelow id (loading left) h = tt
undrawn-IsBelow id (swapping left loaded) h = tt
undrawn-IsBelow id gave_up h = tt
undrawn-IsBelow id (drawn this) h = elim h [ ]

IsBelow-suc : (id : ℕ) (b : Attempt) → IsBelow id b → IsBelow (id + 1) b
IsBelow-suc id (drawn this) h = omega (arith, h)
IsBelow-suc id (loading left) h = tt
IsBelow-suc id (swapping left loaded) h = tt
IsBelow-suc id gave_up h = tt

abbrev HasDrawn : Drawing → Type 0
HasDrawn d = All (IsBelow d.id) d.attempts × AreApart d.attempts

Stepped-HasDrawn :
    {id : ℕ} {a : Attempt} {r : ℕ × Attempt} (before after : List Attempt)
    → Stepped id a r
    → HasDrawn (record { id = id; attempts = before ++ a ∷ after })
    → HasDrawn (record { id = r.0; attempts = before ++ r.1 ∷ after })
Stepped-HasDrawn before after same h = h
Stepped-HasDrawn {id} {a} before after (undrawn a' u) h = (
  replace_all (IsBelow id) before a a' after (undrawn-IsBelow id a' u) h.0,
  replace-AreApart before a a' after
      (all_of (IsApartFrom a') (before ++ a ∷ after) (undrawn-IsApartFrom a' u)) h.1,
)
Stepped-HasDrawn {id} {a} before after draws h = (
  replace_all (IsBelow (id + 1)) before a (drawn (id + 1)) after (omega arith)
      (all_imply (before ++ a ∷ after) (IsBelow-suc id) h.0),
  replace-AreApart before a (drawn (id + 1)) after
      (all_imply (before ++ a ∷ after) (drawn-IsApartFrom id) h.0) h.1,
)

Step-HasDrawn : {d e : Drawing} → Step d e → HasDrawn d → HasDrawn e
Step-HasDrawn (comes d) h = ((tt, h.0), (all_of (Apart first_attempt) d.attempts (λ b. tt), h.1))
Step-HasDrawn (steps id before a after small) h =
    Stepped-HasDrawn before after (attempt_step-Stepped id a small) h

Reach-HasDrawn : {d : Drawing} → Reach d → HasDrawn d
Reach-HasDrawn (start id) = (tt, tt)
Reach-HasDrawn (next r s) = Step-HasDrawn s (Reach-HasDrawn r)

-- Debuggers come and draw their numbers from the shared counter, each by loads and swaps whose
-- steps interleave in any way, while the counter does not wrap: no two of the numbers that have
-- been drawn are the same.
pub Reach-AreApart : {d : Drawing} → Reach d → AreApart d.attempts
Reach-AreApart r = (Reach-HasDrawn r).1
