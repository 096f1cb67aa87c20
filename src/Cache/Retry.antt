-- ===== src/Cache/Retry.antt =====
-- scamp/servicecache.go: `Do`, which tries a function again.
-- A function of an attempt's number changes a state, which stands for all that it does, and returns
-- whether to go on and an error.
use scamp_go.Base.{
  ℕ, zero, suc, ◌+◌, ◌-◌, ◌<◌, ◌≡◌, refl, ap, sym, true-ne-false, ltb→lt, ltb→le, ◌∙◌, Bool, true,
  false, not, ◌&&◌, ◌||◌, Option, none, some, is_none, if◌then◌else◌, ltb, arith, Bool-cases, inl,
  inr,
}

-- `MaxRetries`, as it is set.
abbrev pub max_retries : ℕ
max_retries = 10

pub data DoError {ℓ} (E : Type ℓ) : Type ℓ where
  max_retries_reached : DoError E
  func_error : E → DoError E

abbrev pub is_max_retries {ℓ} : {E : Type ℓ} → Option (DoError E) → Bool
is_max_retries none = false
is_max_retries (some max_retries_reached) = true
is_max_retries (some (func_error e)) = false

abbrev pub returned {ℓ} : {E : Type ℓ} → Option E → Option (DoError E)
returned none = none
returned (some e) = some (func_error e)

asks_cases {ℓ} :
    {E : Type ℓ} (more : Bool) (e : Option E)
    → (more && not (is_none e)) ≡ true
    → (more ≡ true) × (is_none e ≡ false)
asks_cases more e h = ground arith

stops_cases {ℓ} :
    {E : Type ℓ} (more : Bool) (e : Option E)
    → (more && not (is_none e)) ≡ false
    → (not more || is_none e) ≡ true
stops_cases more e h = ground arith

module _ {ℓ κ} {S : Type ℓ} {E : Type κ} (fn : ℕ → S → S × Bool × Option E) where
  -- The loop from an attempt on, with the attempts that are left behind it.
  unfoldable pub do_from : ℕ → ℕ → S → S × Option (DoError E)
  do_from zero attempt s =
      let tried = fn attempt s in
      if not tried.1 || is_none tried.2
      then (tried.0, returned tried.2)
      else (tried.0, some max_retries_reached)
  do_from (suc left) attempt s =
      let tried = fn attempt s in
      let again = do_from left (attempt + 1) tried.0 in
      if not tried.1 || is_none tried.2 then (tried.0, returned tried.2) else again

  -- `Do`.
  unfoldable pub do_fn : S → S × Option (DoError E)
  do_fn s = do_from (max_retries - 1) 1 s

  -- What stands after the first n attempts, when each asks for the next.
  abbrev pub attempted : ℕ → S → S
  attempted zero s = s
  attempted (suc n) s = (fn (n + 1) (attempted n s)).0

  -- The attempt behind the first n asks to go on, with an error.
  abbrev pub asks_again : ℕ → S → Bool
  asks_again n s = let tried = fn (n + 1) (attempted n s) in tried.1 && not (is_none tried.2)

  from : ℕ → ℕ → S → S × Option (DoError E)
  from left n s = do_from left (n + 1) (attempted n s)

  from_next :
      (left n : ℕ) (s : S) → asks_again n s ≡ true → from (suc left) n s ≡ from left (suc n) s
  unfolding from do_from
  from_next left n s asks =
      let (more, failed) =
        asks_cases (fn (n + 1) (attempted n s)).1 (fn (n + 1) (attempted n s)).2 asks in
      rw (more, failed) (ap (λ m. do_from left (m + 1) (attempted (suc n) s)) (omega arith))

  from_last :
      (n : ℕ) (s : S)
      → asks_again n s ≡ true
      → from 0 n s ≡ (attempted (suc n) s, some max_retries_reached)
  unfolding from do_from
  from_last n s asks =
      let (more, failed) =
        asks_cases (fn (n + 1) (attempted n s)).1 (fn (n + 1) (attempted n s)).2 asks in
      rw (more, failed) refl

  from_stop :
      (left n : ℕ) (s : S)
      → asks_again n s ≡ false
      → from left n s ≡ (attempted (suc n) s, returned (fn (n + 1) (attempted n s)).2)
  unfolding from do_from
  from_stop zero n s stops =
      rw (stops_cases (fn (n + 1) (attempted n s)).1 (fn (n + 1) (attempted n s)).2 stops) refl
  from_stop (suc left) n s stops =
      rw (stops_cases (fn (n + 1) (attempted n s)).1 (fn (n + 1) (attempted n s)).2 stops) refl

  do_fn-from :
      (n : ℕ) (s : S)
      → n < 10
      → ((i : ℕ) → i < n → asks_again i s ≡ true)
      → do_fn s ≡ from (9 - n) n s
  unfolding do_fn from
  do_fn-from zero s small asks = refl
  do_fn-from (suc n) s small asks =
      let left : 9 - n ≡ suc (9 - suc n) = omega arith in
      do_fn-from n s (omega arith) (λ i below. asks i (omega arith))
      ∙ ap (λ l. from l n s) left
      ∙ from_next (9 - suc n) n s (asks n (omega arith))

  -- A function asks to be tried again, with an error, in the first n of its attempts, n below 10,
  -- and, unless n is 9, not in the attempt after them. `Do` has then made that attempt and no
  -- other: it returns its error, or that the limit is reached when the tenth attempt asks again
  -- too.
  pub do_fn-attempted :
      (n : ℕ) (s : S)
      → n < 10
      → ((i : ℕ) → i < n → asks_again i s ≡ true)
      → (n < 9 → asks_again n s ≡ false)
      → do_fn s ≡ (
        attempted (suc n) s,
        if asks_again n s
            then some max_retries_reached
            else returned (fn (n + 1) (attempted n s)).2,
      )
  do_fn-attempted n s small asks last = elim (Bool-cases (asks_again n s)) [
    | inl again ↦ rw again (
        do_fn-from n s small asks
        ∙ ap (λ l. from l n s)
            (elim (Bool-cases (ltb n 9)) [
              | inl below ↦ absurd (true-ne-false (sym again ∙ last (ltb→lt n 9 below)))
              | inr nine ↦ omega (arith, ltb→le n 9 nine)
            ])
        ∙ from_last n s again)
    | inr stops ↦ rw stops (do_fn-from n s small asks ∙ from_stop (9 - n) n s stops)
  ]
