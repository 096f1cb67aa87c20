-- ===== src/Base/Dict.antt =====
-- Go maps as association lists over keys with an equality test.
use scamp_go.Base.{
  ◌≡◌, refl, ap, sym, List, [], ◌∷◌, Option, none, some, arith, Eq, All, Bool-cases, inl, inr,
  subst, some_eq, if◌then◌else◌,
}

module _ {ℓ κ} {K : Type ℓ} {V : Type κ} ⦃e : Eq K⦄ where
  -- `m[k]`
  unfoldable pub lookup : K → List (K × V) → Option V
  lookup k [] = none
  lookup k ((j, v) ∷ m) = if e.beq j k then some v else lookup k m

  -- `m[k] = v`
  unfoldable pub insert : K → V → List (K × V) → List (K × V)
  insert k v [] = (k, v) ∷ []
  insert k v ((j, w) ∷ m) = if e.beq j k then (k, v) ∷ m else (j, w) ∷ insert k v m

  -- `delete(m, k)`
  unfoldable pub delete : K → List (K × V) → List (K × V)
  delete k [] = []
  delete k ((j, w) ∷ m) = if e.beq j k then delete k m else (j, w) ∷ delete k m

  pub lookup-insert :
      (k j : K) (v : V) (m : List (K × V))
      → lookup j (insert k v m) ≡ (if e.beq k j then some v else lookup j m)
  unfolding lookup insert
  lookup-insert k j v [] = refl
  lookup-insert k j v ((i, w) ∷ m) =
      ground (arith, e.beq_iff k j, e.beq_iff i k, e.beq_iff i j, lookup-insert k j v m)

  pub lookup-delete :
      (k j : K) (m : List (K × V))
      → lookup j (delete k m) ≡ (if e.beq k j then none else lookup j m)
  unfolding lookup delete
  lookup-delete k j [] = ground arith
  lookup-delete k j ((i, w) ∷ m) =
      ground (arith, e.beq_iff k j, e.beq_iff i k, e.beq_iff i j, lookup-delete k j m)

module _ {ℓ κ ι} {K : Type ℓ} {V : Type κ} ⦃e : Eq K⦄ (P : K × V → Type ι) where
  pub insert-All : (k : K) (v : V) (m : List (K × V)) → P (k, v) → All P m → All P (insert k v m)
  unfolding insert
  insert-All k v [] p h = (p, tt)
  insert-All k v ((j, w) ∷ m) p h = elim (Bool-cases (e.beq j k)) [
    | inl hit ↦ rw hit (p, h.1)
    | inr miss ↦ rw miss (h.0, insert-All k v m p h.1)
  ]

  pub delete-All : (k : K) (m : List (K × V)) → All P m → All P (delete k m)
  unfolding delete
  delete-All k [] h = tt
  delete-All k ((j, w) ∷ m) h = elim (Bool-cases (e.beq j k)) [
    | inl hit ↦ rw hit (delete-All k m h.1)
    | inr miss ↦ rw miss (h.0, delete-All k m h.1)
  ]

  pub lookup-All : (k : K) (m : List (K × V)) {v : V} → All P m → lookup k m ≡ some v → P (k, v)
  unfolding lookup
  lookup-All k [] h f = cc
  lookup-All k ((j, w) ∷ m) {v} h f = elim (Bool-cases (e.beq j k)) [
    | inl hit ↦ subst P (pair_eq ((e.beq_iff j k).0 hit) (some_eq (rw hit at f))) h.0
    | inr miss ↦ lookup-All k m h.1 (rw miss at f)
  ]
    where
      pair_eq : {a b : K} {x y : V} → a ≡ b → x ≡ y → ◌≡◌ {A = K × V} (a, x) (b, y)
      pair_eq p q = λ i. (p i, q i)

module _ {ℓ κ} {K : Type ℓ} {V : Type κ} ⦃e : Eq K⦄ where
  pub lookup-insert_self : (k : K) (v : V) (m : List (K × V)) → lookup k (insert k v m) ≡ some v
  lookup-insert_self k v m = rw (lookup-insert k k v m, (e.beq_iff k k).1 refl)

  pub insert-insert :
      (k : K) (v w : V) (m : List (K × V)) → insert k v (insert k w m) ≡ insert k v m
  unfolding insert
  insert-insert k v w [] = rw ((e.beq_iff k k).1 refl)
  insert-insert k v w ((i, u) ∷ m) = elim (Bool-cases (e.beq i k)) [
    | inl hit ↦ rw (hit, (e.beq_iff k k).1 refl)
    | inr miss ↦ rw (miss, insert) (rw miss (ap (◌∷◌ (i, u)) (insert-insert k v w m)))
  ]

  -- A key is given the value that it has.
  pub insert_same : (k : K) (v : V) (m : List (K × V)) → lookup k m ≡ some v → insert k v m ≡ m
  unfolding insert lookup
  insert_same k v [] h = cc
  insert_same k v ((i, u) ∷ m) h = elim (Bool-cases (e.beq i k)) [
    | inl hit ↦ rw hit (
        ap (λ (p : K × V). p ∷ m)
          (λ t. (sym ((e.beq_iff i k).0 hit) t, sym (some_eq (rw hit at h)) t)))
    | inr miss ↦ rw miss (ap (◌∷◌ (i, u)) (insert_same k v m (rw miss at h)))
  ]

  -- A key that was not there is inserted and taken out again.
  pub delete-insert :
      (k : K) (v : V) (m : List (K × V)) → lookup k m ≡ none → delete k (insert k v m) ≡ m
  unfolding delete insert lookup
  delete-insert k v [] h = rw ((e.beq_iff k k).1 refl)
  delete-insert k v ((i, u) ∷ m) h = elim (Bool-cases (e.beq i k)) [
    | inl hit ↦ absurd (ground arith)
    | inr miss ↦ rw (miss, delete) (rw miss (ap (◌∷◌ (i, u)) (delete-insert k v m (rw miss at h))))
  ]
