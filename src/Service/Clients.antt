-- ===== src/Service/Clients.antt =====
-- scamp/service.go: the clients that a service tracks, over any sequence of rounds of `Run` and calls of
-- `RemoveClient`, where a handler can come in at any step of a round.
use scamp_go.Base.{
  ℕ, ◌+◌, ◌≤◌, ◌<◌, ◌≡◌, ◌≢◌, refl, Bool, true, false, List, [], ◌∷◌, ◌++◌, ◌==◌, arith, length,
  length-append, Bool-cases, inl, inr,
}
use scamp_go.Base.Decimal.{two_64}
use scamp_go.Service.{Service, tracks, without_first, remove_client, append_client, count_client}

-- A service, and whether `Run` is between the tracking of a client and its counting.
abbrev pub Serving : Type 0
Serving = Service × Bool

-- `Run` tracks a client that is new, or counts it, or a handler removes a client.
pub data Step : Serving → Serving → Type 0 where
  appends :
      (serv : Service) (id : ℕ)
      → tracks id serv.clients ≡ false
      → Step (serv, false) (append_client serv id, true)
  counts :
      (serv : Service)
      → serv.connections_accepted + 1 < two_64
      → Step (serv, true) (count_client serv, false)
  removes :
      (serv : Service) (id : ℕ) (between : Bool)
      → Step (serv, between) ((remove_client serv id).0, between)

pub data Reach (start : Service) : Serving → Type 0 where
  here : Reach start (start, false)
  next : {s t : Serving} → Reach start s → Step s t → Reach start t

-- No client is tracked twice.
abbrev pub AreDistinct : List ℕ → Type 0
AreDistinct [] = Unit {0}
AreDistinct (x ∷ xs) = (tracks x xs ≡ false) × AreDistinct xs

-- The clients that are tracked and not counted yet.
abbrev pub uncounted : Bool → ℕ
uncounted false = 0
uncounted true = 1

pub record IsCounted (serv : Service) (between : Bool) : Type 0 where
  pub distinct : AreDistinct serv.clients
  pub counted : length serv.clients ≤ serv.connections_accepted + uncounted between

tracks-append :
    (y x : ℕ) (xs : List ℕ) → tracks x xs ≡ false → y ≢ x → tracks x (xs ++ y ∷ []) ≡ false
tracks-append y x [] h ne = ground arith
tracks-append y x (z ∷ zs) h ne = ground (arith, tracks-append y x zs)

AreDistinct-append :
    (y : ℕ) (xs : List ℕ) → tracks y xs ≡ false → AreDistinct xs → AreDistinct (xs ++ y ∷ [])
AreDistinct-append y [] h d = (refl, tt)
AreDistinct-append y (x ∷ xs) h (t, d) =
    (tracks-append y x xs t (ground arith), AreDistinct-append y xs (ground arith) d)

tracks-without_first :
    (x y : ℕ) (xs : List ℕ) → tracks x xs ≡ false → tracks x (without_first y xs) ≡ false
tracks-without_first x y [] h = refl
tracks-without_first x y (z ∷ zs) h = ground (arith, tracks-without_first x y zs)

without_first-AreDistinct :
    (y : ℕ) (xs : List ℕ) → AreDistinct xs → AreDistinct (without_first y xs)
without_first-AreDistinct y [] d = tt
without_first-AreDistinct y (x ∷ xs) (t, d) = elim (Bool-cases (x == y)) [
  | inl same ↦ rw same d
  | inr other ↦ rw other (tracks-without_first x y xs t, without_first-AreDistinct y xs d)
]

length-without_first : (y : ℕ) (xs : List ℕ) → length (without_first y xs) ≤ length xs
length-without_first y [] = omega arith
length-without_first y (x ∷ xs) = ground (arith, length-without_first y xs)

without_first_gone : (y : ℕ) (xs : List ℕ) → AreDistinct xs → tracks y (without_first y xs) ≡ false
without_first_gone y [] d = refl
without_first_gone y (x ∷ xs) (t, d) = elim (Bool-cases (y == x)) [
  | inl same ↦ ground (arith, same, t)
  | inr other ↦ ground (arith, other, without_first_gone y xs d)
]

without_first_keep : (x y : ℕ) (xs : List ℕ) → x ≢ y → tracks x (without_first y xs) ≡ tracks x xs
without_first_keep x y [] ne = refl
without_first_keep x y (z ∷ zs) ne = ground (arith, without_first_keep x y zs ne)

Step-IsCounted : {s t : Serving} → Step s t → IsCounted (s.0) (s.1) → IsCounted (t.0) (t.1)
unfolding append_client count_client remove_client
Step-IsCounted (appends serv id new) h = record {
  distinct = AreDistinct-append id serv.clients new h.distinct;
  counted = omega (arith, h.counted, length-append serv.clients (id ∷ []));
}
Step-IsCounted (counts serv small) h = record {
  distinct = h.distinct;
  counted = omega (arith, h.counted);
}
Step-IsCounted (removes serv id between) h = elim (Bool-cases (tracks id serv.clients)) [
  | inl found ↦
      rw (found, remove_client)
        (record {
          distinct = without_first-AreDistinct id serv.clients h.distinct;
          counted = omega (arith, h.counted, length-without_first id serv.clients);
        })
  | inr unknown ↦ rw (unknown, remove_client) h
]

new-IsCounted : (start : Service) → start.clients ≡ [] → IsCounted start false
new-IsCounted start empty = record { distinct = rw empty tt; counted = rw empty (omega arith) }

-- From a service that tracks no client, by the steps of `Run`, which tracks a client that is not
-- tracked and afterwards counts it, and by calls of `RemoveClient` at any time, while the count of
-- accepted clients does not wrap: no client is tracked twice, and there are no more tracked
-- clients than counted ones, and the one, if any, that `Run` has tracked and not counted yet.
pub Reach-IsCounted :
    {start : Service} {s : Serving} → start.clients ≡ [] → Reach start s → IsCounted (s.0) (s.1)
Reach-IsCounted {start} empty here = new-IsCounted start empty
Reach-IsCounted empty (next r st) = Step-IsCounted st (Reach-IsCounted empty r)

-- On a service that tracks no client twice, `RemoveClient` leaves the client that it is called
-- with untracked, whether it was tracked or not, and leaves any other client as it was.
pub tracks-remove_client :
    (serv : Service) (id other : ℕ)
    → AreDistinct serv.clients
    → other ≢ id
    → (tracks id (remove_client serv id).0.clients ≡ false)
      × (tracks other (remove_client serv id).0.clients ≡ tracks other serv.clients)
unfolding remove_client
tracks-remove_client serv id other d ne = elim (Bool-cases (tracks id serv.clients)) [
  | inl found ↦
      rw (found, remove_client)
        (without_first_gone id serv.clients d, without_first_keep other id serv.clients ne)
  | inr unknown ↦ rw (unknown, remove_client) (unknown, refl)
]
