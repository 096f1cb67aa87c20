-- ===== src/Cache/Scan/Ends.antt =====
-- scamp/servicecache.go: the loop of `DoScan` ends.
use scamp_go.Base.{
  ℕ, zero, suc, ◌≤◌, ◌<◌, ◌≡◌, refl, ap, Bool, true, false, List, [], ◌∷◌, Option, none, some,
  some_eq, arith, Bytes, bytes_eq, length, Bool-cases, Option-cases, inl, inr,
}
use scamp_go.Base.Result.{Result, ok, err}
use scamp_go.Header.{Json}
use scamp_go.Ticket.{Crypto}
use scamp_go.Proxy.{Arrays, ProxyError}
use scamp_go.Signature.{Certificates}
use scamp_go.Cache.{ServiceCache, clear}
use scamp_go.Cache.Scan.{
  sep, skip_to_sep, next_line, take_block, ScanError, Round, stops, goes_on, signature_block,
  admit_record, after_entry, read_entry, after_sep, follow, scan_records, do_scan,
}

skip_to_sep-lt :
    (lines : List Bytes) {rest : List Bytes}
    → skip_to_sep lines ≡ some rest
    → length rest < length lines
unfolding skip_to_sep
skip_to_sep-lt [] e = cc
skip_to_sep-lt (l ∷ lines) e = elim (Bool-cases (bytes_eq l sep)) [
  | inl hit ↦ omega (arith, ap length (some_eq (rw hit at e)))
  | inr miss ↦ omega (arith, skip_to_sep-lt lines (rw miss at e))
]

next_line-le : (lines : List Bytes) → length (next_line lines).1 ≤ length lines
next_line-le [] = omega arith
next_line-le (l ∷ lines) = omega arith

take_block-le : (b : Bool) (lines : List Bytes) → length (take_block b lines).1 ≤ length lines
unfolding take_block
take_block-le b [] = omega arith
take_block-le b ([] ∷ lines) = omega arith
take_block-le true ((c ∷ s) ∷ lines) = ground (arith, take_block-le true lines)
take_block-le false ((c ∷ s) ∷ lines) = omega (arith, take_block-le false lines)

-- A round that goes on leaves fewer lines than a bound.
abbrev Leaves : ℕ → Round → Type 0
Leaves n (stops cache e) = Unit {0}
Leaves n (goes_on lines cache) = length lines ≤ n

module _ (j : Json) (a : Arrays) (c : Crypto) (x : Certificates c) where
  signature_block-le :
      (cert lines : List Bytes) → length (signature_block j a c x cert lines).1 ≤ length lines
  signature_block-le [] lines = omega arith
  signature_block-le (l ∷ cert) lines = take_block-le true lines

  after_entry-Leaves :
      (n : ℕ) (lines : List Bytes) (cache : ServiceCache) (r : Result ProxyError ServiceCache)
      → length lines ≤ n
      → Leaves n (after_entry j a c x lines cache r)
  after_entry-Leaves n lines cache (ok cache') h = h
  after_entry-Leaves n lines cache (err e) h = tt

  read_entry-Leaves :
      (class_records blank : Bytes) (lines : List Bytes) (cache : ServiceCache)
      → Leaves (length lines) (read_entry j a c x class_records blank lines cache)
  unfolding read_entry
  read_entry-Leaves [] blank lines cache = tt
  read_entry-Leaves (b ∷ bs) (d ∷ ds) lines cache = tt
  read_entry-Leaves (b ∷ bs) [] lines cache =
      let cert = take_block false lines in
      let sig = signature_block j a c x cert.0 cert.1 in
      after_entry-Leaves (length lines) sig.1 cache
        (admit_record j a c x cache (b ∷ bs) cert.0 sig.0)
        (omega (arith, signature_block-le cert.0 cert.1, take_block-le false lines))

  Leaves-mono : (n m : ℕ) (r : Round) → n ≤ m → Leaves n r → Leaves m r
  Leaves-mono n m (stops cache e) h k = tt
  Leaves-mono n m (goes_on lines cache) h k = omega arith

  after_sep-Leaves :
      (lines : List Bytes) (cache : ServiceCache)
      → Leaves (length lines) (after_sep j a c x (some lines) cache)
  unfolding after_sep
  after_sep-Leaves lines cache =
      let blank = next_line (next_line lines).1 in
      Leaves-mono (length blank.1) (length lines)
        (read_entry j a c x (next_line lines).0 blank.0 blank.1 cache)
        (omega (arith, next_line-le lines, next_line-le (next_line lines).1))
        (read_entry-Leaves (next_line lines).0 blank.0 blank.1 cache)

  abbrev Total : Option (ServiceCache × Option ScanError) → Type 0
  Total o = (r : ServiceCache × Option ScanError) × (o ≡ some r)

  follow-Total :
      (next : List Bytes → ServiceCache → Option (ServiceCache × Option ScanError)) (n : ℕ)
      (r : Round)
      → Leaves n r
      → ((lines : List Bytes) (cache : ServiceCache) → length lines ≤ n → Total (next lines cache))
      → Total (follow j a c x next r)
  follow-Total next n (stops cache e) l total = ((cache, e), refl)
  follow-Total next n (goes_on lines cache) l total = total lines cache l

  scan-Total :
      (fuel : ℕ) (lines : List Bytes) (cache : ServiceCache)
      → length lines < fuel
      → Total (scan_records j a c x fuel lines cache)
  unfolding scan_records
  scan-Total zero lines cache h = absurd (omega arith)
  scan-Total (suc fuel) lines cache h = elim (Option-cases (skip_to_sep lines)) [
    | inl no_sep ↦ rw no_sep (unfold after_sep in ((cache, none), refl))
    | inr (rest, found) ↦ rw found (
        follow-Total (scan_records j a c x fuel) (length rest) (after_sep j a c x (some rest) cache)
          (after_sep-Leaves rest cache)
          (λ lines' cache' l.
            scan-Total fuel lines' cache' (omega (arith, skip_to_sep-lt lines found))))
  ]

  -- A scan of any lines ends with a cache and perhaps an error: the fuel of the loop, one more
  -- than the lines, is enough.
  pub do_scan_total :
      (cache : ServiceCache) (lines : List Bytes)
      → (r : ServiceCache × Option ScanError) × (do_scan j a c x cache lines ≡ some r)
  unfolding do_scan
  do_scan_total cache lines = scan-Total (suc (length lines)) lines (clear cache) (omega arith)
