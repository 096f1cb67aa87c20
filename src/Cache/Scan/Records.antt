-- ===== src/Cache/Scan/Records.antt =====
-- scamp/servicecache.go: a scan of lines that are records.
use scamp_go.Base.{
  ℕ, zero, suc, ◌≤◌, ◌<◌, ◌≡◌, ◌≢◌, refl, ap, sym, ◌∙◌, Bool, true, false, List, [], ◌∷◌, ◌++◌,
  none, some, arith, Bytes, bytes_eq, All, drop, length, length-append,
}
use scamp_go.Base.Result.{ok}
use scamp_go.Base.Split.{join_all}
use scamp_go.Header.{Json}
use scamp_go.Ticket.{Crypto}
use scamp_go.Proxy.{Proxy, Arrays, new_service_proxy}
use scamp_go.Signature.{Certificates}
use scamp_go.Cache.{ServiceCache, clear}
use scamp_go.Cache.Scan.{
  sep, skip_to_sep, take_block, admit, admit_record, admit_result, after_entry, follow, read_entry,
  after_sep, scan_records, do_scan,
}

-- A line of a certificate or of a signature.
abbrev pub IsBlockLine : Bytes → Type 0
IsBlockLine line = (line ≢ []) × (bytes_eq line sep ≡ false)

-- A record of the cache's file: its class records, which are a line that is not empty, and the lines of
-- its certificate and of its signature.
pub record Entry : Type 0 where
  pub first : ℕ
  pub others : Bytes
  pub cert_line : Bytes
  pub cert_lines : List Bytes
  pub sig_line : Bytes
  pub sig_lines : List Bytes

abbrev pub class_records : Entry → Bytes
class_records e = e.first ∷ e.others

abbrev pub raw_cert : Entry → Bytes
raw_cert e = join_all b'\n' (e.cert_line ∷ e.cert_lines)

abbrev pub raw_sig : Entry → Bytes
raw_sig e = join_all b'\n' (e.sig_line ∷ e.sig_lines)

abbrev pub entry_lines : Entry → List Bytes → List Bytes
entry_lines e rest =
    sep
    ∷ class_records e
    ∷ []
    ∷ ((e.cert_line ∷ e.cert_lines) ++ [] ∷ ((e.sig_line ∷ e.sig_lines) ++ [] ∷ rest))

abbrev pub all_lines : List Entry → List Bytes
all_lines [] = []
all_lines (e ∷ es) = entry_lines e (all_lines es)

take_block-append :
    (b : Bool) (lines rest : List Bytes)
    → All IsBlockLine lines
    → take_block b (lines ++ [] ∷ rest) ≡ (lines, rest)
unfolding take_block
take_block-append true [] rest h = refl
take_block-append false [] rest h = refl
take_block-append b ([] ∷ lines) rest ((h, k), hs) = absurd (h refl)
take_block-append false ((c ∷ s) ∷ lines) rest (h, hs) = rw (take_block-append false lines rest hs)
take_block-append true ((c ∷ s) ∷ lines) rest ((h, k), hs) =
    rw (k, take_block-append true lines rest hs)

take_block_last : (line : Bytes) → IsBlockLine line → take_block true (line ∷ []) ≡ (line ∷ [], [])
unfolding take_block
take_block_last [] (h, k) = absurd (h refl)
take_block_last (c ∷ s) (h, k) = rw k refl

module _ (j : Json) (a : Arrays) (c : Crypto) (x : Certificates c) where
  -- An entry, its lines as they have to be, and the proxy that it holds.
  pub record Holds (e : Entry) (proxy : Proxy) : Type 0 where
    pub cert_block : All IsBlockLine (e.cert_line ∷ e.cert_lines)
    pub sig_block : All IsBlockLine (e.sig_line ∷ e.sig_lines)
    pub reads : new_service_proxy j a (class_records e) (raw_cert e) (raw_sig e) ≡ ok proxy

  abbrev pub AllHold : List Entry → List Proxy → Type 0
  AllHold [] [] = Unit {0}
  AllHold (e ∷ es) (p ∷ ps) = Holds e p × AllHold es ps
  AllHold _ _ = ⊥

  -- The proxies, each checked and stored.
  abbrev pub admit_all : ServiceCache → List Proxy → ServiceCache
  admit_all cache [] = cache
  admit_all cache (p ∷ ps) = admit_all (admit j a c x cache p) ps

  -- The lines behind a separator, where what is behind the certificate is a block.
  scan_block :
      (fuel : ℕ) (e : Entry) (tail rest : List Bytes) (cache : ServiceCache) (proxy : Proxy)
      → Holds e proxy
      → take_block true tail ≡ (e.sig_line ∷ e.sig_lines, rest)
      → scan_records j a c x
          (suc fuel)
          (sep ∷ class_records e ∷ [] ∷ ((e.cert_line ∷ e.cert_lines) ++ [] ∷ tail))
          cache
        ≡ scan_records j a c x fuel rest (admit j a c x cache proxy)
  unfolding scan_records skip_to_sep admit_record after_sep read_entry
  scan_block fuel e tail rest cache proxy h block =
      rw (take_block-append false (e.cert_line ∷ e.cert_lines) tail h.cert_block, block)
        (ap
          (λ r.
            follow j a c x (scan_records j a c x fuel)
              (after_entry j a c x rest cache (admit_result j a c x cache r)))
          h.reads)

  scan_entry :
      (fuel : ℕ) (e : Entry) (rest : List Bytes) (cache : ServiceCache) (proxy : Proxy)
      → Holds e proxy
      → scan_records j a c x (suc fuel) (entry_lines e rest) cache
        ≡ scan_records j a c x fuel rest (admit j a c x cache proxy)
  scan_entry fuel e rest cache proxy h =
      scan_block fuel e ((e.sig_line ∷ e.sig_lines) ++ [] ∷ rest) rest cache proxy h
        (take_block-append true (e.sig_line ∷ e.sig_lines) rest h.sig_block)

  pub skip_empty :
      (fuel : ℕ) (lines : List Bytes) (cache : ServiceCache)
      → scan_records j a c x fuel ([] ∷ lines) cache ≡ scan_records j a c x fuel lines cache
  unfolding scan_records skip_to_sep
  skip_empty zero lines cache = refl
  skip_empty (suc fuel) lines cache = refl

  scan_all :
      (fuel : ℕ) (es : List Entry) (ps : List Proxy) (cache : ServiceCache)
      → AllHold es ps
      → length es < fuel
      → scan_records j a c x fuel (all_lines es) cache ≡ some (admit_all cache ps, none)
  unfolding scan_records skip_to_sep after_sep
  scan_all zero es ps cache h b = absurd (omega arith)
  scan_all (suc fuel) [] [] cache h b = refl
  scan_all (suc fuel) [] (p ∷ ps) cache h b = absurd h
  scan_all (suc fuel) (e ∷ es) [] cache h b = absurd h
  scan_all (suc fuel) (e ∷ es) (p ∷ ps) cache (h, hs) b =
      scan_entry fuel e (all_lines es) cache p h
      ∙ scan_all fuel es ps (admit j a c x cache p) hs (omega arith)

  length-all_lines : (es : List Entry) → length es ≤ length (all_lines es)
  length-all_lines [] = omega arith
  length-all_lines (e ∷ es) = omega (
    arith,
    length-all_lines es,
    length-append (e.cert_line ∷ e.cert_lines)
        ([] ∷ ((e.sig_line ∷ e.sig_lines) ++ [] ∷ all_lines es)),
    length-append (e.sig_line ∷ e.sig_lines) ([] ∷ all_lines es),
  )

  -- The lines are records, each of a separator, a class record that is a line, an empty line, the
  -- lines of a certificate, an empty line, the lines of a signature and an empty line, where no
  -- line of a certificate or of a signature is empty or the separator, and each record makes a
  -- proxy: a scan ends with no error, and the cache is the cleared one in which each proxy has
  -- been checked and stored, in order.
  pub do_scan-all_lines :
      (cache : ServiceCache) (es : List Entry) (ps : List Proxy)
      → AllHold es ps
      → do_scan j a c x cache (all_lines es) ≡ some (admit_all (clear cache) ps, none)
  unfolding do_scan
  do_scan-all_lines cache es ps h =
      scan_all (suc (length (all_lines es))) es ps (clear cache) h
        (omega (arith, length-all_lines es))

  scan_nil :
      (fuel : ℕ) (cache : ServiceCache)
      → 0 < fuel
      → scan_records j a c x fuel [] cache ≡ some (cache, none)
  unfolding scan_records skip_to_sep after_sep
  scan_nil zero cache some_fuel = absurd (omega arith)
  scan_nil (suc fuel) cache some_fuel = refl

  -- A record with one line of a signature and nothing behind it, and an empty line in front.
  pub do_scan-last :
      (cache : ServiceCache) (e : Entry) (proxy : Proxy)
      → Holds e proxy
      → e.sig_lines ≡ []
      → do_scan j a c x cache
          ([] ∷ sep ∷ class_records e ∷ [] ∷ ((e.cert_line ∷ e.cert_lines) ++ [] ∷ e.sig_line ∷ []))
        ≡ some (admit j a c x (clear cache) proxy, none)
  unfolding do_scan
  do_scan-last cache e proxy h one =
      let lines =
        [] ∷ sep ∷ class_records e ∷ [] ∷ ((e.cert_line ∷ e.cert_lines) ++ [] ∷ e.sig_line ∷ []) in
      skip_empty (suc (length lines)) (drop 1 lines) (clear cache)
      ∙ scan_block (length lines) e (e.sig_line ∷ []) [] (clear cache) proxy h
          (take_block_last e.sig_line h.sig_block.0 ∙ ap (λ ls. (e.sig_line ∷ ls, [])) (sym one))
      ∙ scan_nil (length lines) (admit j a c x (clear cache) proxy) (omega arith)
