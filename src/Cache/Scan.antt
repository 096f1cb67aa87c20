-- ===== src/Cache/Scan.antt =====
-- scamp/servicecache.go: `DoScan` over the lines of the cache's file, and `Refresh`.
-- `bufio.Scanner` is the list of the lines that it still gives: one line is 65,535 bytes at most, and the
-- scanner is taken to stop at a longer one, where Go's, asked once more, can still give what its buffer
-- holds.
pub mod Lines
pub mod Records
pub mod Ends
pub mod Marshalled
use scamp_go.Base.{
  ℕ, zero, suc, Bool, true, false, List, [], ◌∷◌, ◌++◌, map, Option, none, some, ltb, ◌==◌,
  if◌then◌else◌, Bytes, codes, bytes_eq, length,
}
use scamp_go.Base.Result.{Result, ok, err}
use scamp_go.Base.Split.{join_all}
use scamp_go.Header.{Json}
use scamp_go.Ticket.{Crypto}
use scamp_go.Proxy.{Proxy, Arrays, ProxyError, new_service_proxy}
use scamp_go.Signature.{Certificates, validate, SignatureError}
use scamp_go.Cache.{ServiceCache, store, remove, clear, new_service_cache}

abbrev pub max_line : ℕ
max_line = 65536

-- A line without the carriage return at its end.
abbrev pub drop_cr : Bytes → Bytes
drop_cr [] = []
drop_cr (c ∷ []) = if c == b'\r' then [] else c ∷ []
drop_cr (c ∷ d ∷ s) = c ∷ drop_cr (d ∷ s)

-- The line in front, and what is behind its newline: `none` behind a last line that has none.
unfoldable cut_line : Bytes → Bytes × Option Bytes
cut_line [] = ([], none)
cut_line (c ∷ s) = let r = cut_line s in if c == b'\n' then ([], some s) else (c ∷ r.0, r.1)

-- A line is given, and the scanner goes on behind it.
abbrev pub give_line : (Bytes → List Bytes) → Bytes → Option Bytes → List Bytes
give_line next line none = drop_cr line ∷ []
give_line next line (some rest) = drop_cr line ∷ next rest

-- The tokens of the scanner. The fuel is one more than the length.
unfoldable pub scan_lines : ℕ → Bytes → List Bytes
unfolding cut_line
scan_lines zero text = []
scan_lines (suc fuel) [] = []
scan_lines (suc fuel) (c ∷ text) =
    let cut = cut_line (c ∷ text) in
    if ltb (length cut.0) max_line then give_line (scan_lines fuel) cut.0 cut.1 else []

abbrev pub tokens : Bytes → List Bytes
tokens text = scan_lines (suc (length text)) text

abbrev pub sep : Bytes
sep = codes "%%%"

-- Lines up to a separator, which is taken too; `none` when there is none.
unfoldable pub skip_to_sep : List Bytes → Option (List Bytes)
skip_to_sep [] = none
skip_to_sep (line ∷ lines) = if bytes_eq line sep then some lines else skip_to_sep lines

-- `s.Scan()` and then `s.Bytes()`.
abbrev pub next_line : List Bytes → Bytes × List Bytes
next_line [] = ([], [])
next_line (line ∷ lines) = (line, lines)

-- Lines up to an empty one, or to a separator when `stops_at_sep` is set, which is taken too.
unfoldable pub take_block : Bool → List Bytes → List Bytes × List Bytes
take_block stops_at_sep [] = ([], [])
take_block stops_at_sep ([] ∷ lines) = ([], lines)
take_block stops_at_sep ((c ∷ s) ∷ lines) =
    let r = take_block stops_at_sep lines in
    if stops_at_sep
    then (if bytes_eq (c ∷ s) sep then ([], lines) else ((c ∷ s) ∷ r.0, r.1))
    else ((c ∷ s) ∷ r.0, r.1)

pub data ScanError : Type 0 where
  -- "expected newline after class records"
  expected_newline : ScanError
  -- `newServiceProxy` fails, or panics.
  bad_proxy : ProxyError → ScanError

-- A round of the loop: it ends, or goes on with the lines that are left.
pub data Round : Type 0 where
  stops : ServiceCache → Option ScanError → Round
  goes_on : List Bytes → ServiceCache → Round

-- What `os.Stat` and `os.Open` find at the cache's path.
pub data CacheFile : Type 0 where
  missing is_directory : CacheFile
  contents : Bytes → CacheFile

pub data RefreshError : Type 0 where
  cannot_open cannot_use : RefreshError
  scan_error : ScanError → RefreshError

abbrev pub as_refresh_error : Option ScanError → Option RefreshError
as_refresh_error none = none
as_refresh_error (some e) = some (scan_error e)

module _ (j : Json) (a : Arrays) (c : Crypto) (x : Certificates c) where
  -- A proxy that has been read: it is checked if the cache verifies records, and stored.
  unfoldable pub admit : ServiceCache → Proxy → ServiceCache
  admit cache proxy =
      if cache.verify_records
      then elim (validate c x proxy) [ none ↦ store cache proxy | some e ↦ (remove cache proxy).0 ]
      else store cache proxy

  abbrev pub admit_result : ServiceCache → Result ProxyError Proxy → Result ProxyError ServiceCache
  admit_result cache (err e) = err e
  admit_result cache (ok proxy) = ok (admit cache proxy)

  -- A record's class records, certificate and signature.
  unfoldable pub admit_record :
      ServiceCache → Bytes → List Bytes → List Bytes → Result ProxyError ServiceCache
  admit_record cache class_records cert [] = ok cache
  admit_record cache class_records [] (s ∷ sig) = ok cache
  admit_record cache class_records (l ∷ cert) (s ∷ sig) =
      admit_result cache
        (new_service_proxy j a class_records (join_all b'\n' (l ∷ cert)) (join_all b'\n' (s ∷ sig)))

  -- The lines of the signature; without a certificate they are left.
  abbrev pub signature_block : List Bytes → List Bytes → List Bytes × List Bytes
  signature_block [] lines = ([], lines)
  signature_block (l ∷ cert) lines = take_block true lines

  abbrev pub after_entry : List Bytes → ServiceCache → Result ProxyError ServiceCache → Round
  after_entry lines cache (ok cache') = goes_on lines cache'
  after_entry lines cache (err e) = stops cache (some (bad_proxy e))

  -- The class records, the line behind them, and the lines behind that.
  unfoldable pub read_entry : Bytes → Bytes → List Bytes → ServiceCache → Round
  read_entry [] blank lines cache = stops cache none
  read_entry (b ∷ bs) (d ∷ ds) lines cache = stops cache (some expected_newline)
  read_entry (b ∷ bs) [] lines cache =
      let cert = take_block false lines in
      let sig = signature_block cert.0 cert.1 in
      after_entry sig.1 cache (admit_record cache (b ∷ bs) cert.0 sig.0)

  unfoldable pub after_sep : Option (List Bytes) → ServiceCache → Round
  unfolding read_entry
  after_sep none cache = stops cache none
  after_sep (some lines) cache =
      let class_records = next_line lines in
      let blank = next_line class_records.1 in read_entry class_records.0 blank.0 blank.1 cache

  abbrev pub follow :
      (List Bytes → ServiceCache → Option (ServiceCache × Option ScanError))
      → Round
      → Option (ServiceCache × Option ScanError)
  follow next (stops cache e) = some (cache, e)
  follow next (goes_on lines cache) = next lines cache

  -- The loop of `DoScan`: `none` means that the fuel ran out.
  unfoldable pub scan_records :
      ℕ → List Bytes → ServiceCache → Option (ServiceCache × Option ScanError)
  unfolding after_sep
  scan_records zero lines cache = none
  scan_records (suc fuel) lines cache =
      follow (scan_records fuel) (after_sep (skip_to_sep lines) cache)

  -- `DoScan`. A scan takes a line in each round, so that the fuel, one more than the lines, is enough.
  unfoldable pub do_scan : ServiceCache → List Bytes → Option (ServiceCache × Option ScanError)
  do_scan cache lines = scan_records (suc (length lines)) lines (clear cache)

  -- `Refresh`, of the file that is at the path.
  unfoldable pub refresh : ServiceCache → CacheFile → Option (ServiceCache × Option RefreshError)
  refresh cache missing = some (cache, some cannot_open)
  refresh cache is_directory = some (cache, some cannot_use)
  refresh cache (contents text) = elim (do_scan cache (tokens text)) [
    | none ↦ none
    | some (cache', e) ↦ some (cache', as_refresh_error e)
  ]
