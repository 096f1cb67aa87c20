-- ===== src/Tool/Unread.antt =====
-- scamp/scamp.go and scamp/servicecache.go: an announcement whose file ends with a newline.
use scamp_go.Base.{
  ℕ, suc, ◌≡◌, refl, ap, ◌∙◌, false, List, [], ◌∷◌, ◌++◌, none, some, Bytes, bytes_eq, All,
  All-append, length, drop, ◌-◌, append_assoc, arith,
}
use scamp_go.Base.Split.{join, trim_space}
use scamp_go.Header.{Json}
use scamp_go.Ticket.{Crypto}
use scamp_go.Proxy.{Arrays}
use scamp_go.Signature.{Certificates, sign_sha256}
use scamp_go.Cache.{ServiceCache, clear}
use scamp_go.Cache.Scan.{
  tokens, do_scan, scan_records, skip_to_sep, take_block, after_sep, read_entry, admit_record, sep,
}
use scamp_go.Cache.Scan.Lines.{IsLine, lines_text, tokens-lines_text}
use scamp_go.Service.Marshal.Text.{empty-IsLine, sep-IsLine}
use scamp_go.Service.Announced.{AreBlockLines}
use scamp_go.Cache.Scan.Records.{IsBlockLine, skip_empty}
use scamp_go.Tool.{KeyFiles, prints, fake_text, do_fake_discovery_cache}
use scamp_go.Tool.Scanned.{Given, do_fake_discovery_cache_lem, fake_text-lines_text}

-- Lines among which there is no separator.
abbrev pub HasNoSep : List Bytes → Type 0
HasNoSep lines = All (λ l. bytes_eq l sep ≡ false) lines

skip_to_sep-none : (lines : List Bytes) → HasNoSep lines → skip_to_sep lines ≡ none
unfolding skip_to_sep
skip_to_sep-none [] h = refl
skip_to_sep-none (l ∷ lines) (h, hs) = rw (h, skip_to_sep-none lines hs) refl

block_HasNoSep : (lines : List Bytes) → All IsBlockLine lines → HasNoSep lines
block_HasNoSep [] h = tt
block_HasNoSep (l ∷ lines) ((ne, h), hs) = (h, block_HasNoSep lines hs)

-- The text of data that ends with a newline has one more empty line.
newline_lines :
    (data_line cert_data cert_line : Bytes) (cert_lines : List Bytes) (sig : Bytes)
    → trim_space cert_data ≡ join b'\n' cert_line cert_lines
    → fake_text (data_line ++ b'\n' ∷ []) cert_data sig
      ≡ lines_text ([] ∷ sep ∷ data_line ∷ [] ∷ [] ∷ ((cert_line ∷ cert_lines) ++ [] ∷ sig ∷ []))
newline_lines data_line cert_data cert_line cert_lines sig cert =
    fake_text-lines_text (data_line ++ b'\n' ∷ []) cert_data cert_line cert_lines sig cert
    ∙ ap (λ t. b'\n' ∷ (sep ++ b'\n' ∷ t))
        (append_assoc data_line (b'\n' ∷ [])
          (b'\n' ∷ b'\n' ∷ lines_text ((cert_line ∷ cert_lines) ++ [] ∷ sig ∷ [])))

module _ (j : Json) (a : Arrays) (c : Crypto) (x : Certificates c) where
  scan_without_cert :
      (fuel b : ℕ) (bs : Bytes) (lines : List Bytes) (cache : ServiceCache)
      → HasNoSep lines
      → scan_records j a c x (suc (suc fuel)) (sep ∷ (b ∷ bs) ∷ [] ∷ [] ∷ lines) cache
        ≡ some (cache, none)
  unfolding scan_records skip_to_sep admit_record after_sep read_entry take_block
  scan_without_cert fuel b bs lines cache h = rw (skip_to_sep-none lines h) refl

  -- The files given hold a private key, an announcement of one line that is not empty with a
  -- newline behind it, and a certificate. When the announcement can be signed, and the certificate
  -- and the signature are lines of blocks, `doFakeDiscoveryCache` prints a text, and a scan of it
  -- ends with no error in a cache that is only cleared.
  pub do_scan_newline :
      (files : KeyFiles c x) (priv : x.PrivateKey) (key_path cert_path announce_path : Bytes)
      (b : ℕ) (bs cert_data sig cert_line : Bytes) (cert_lines : List Bytes) (cache : ServiceCache)
      → Given c x files key_path cert_path announce_path priv ((b ∷ bs) ++ b'\n' ∷ []) cert_data
      → IsLine (b ∷ bs)
      → sign_sha256 c x ((b ∷ bs) ++ b'\n' ∷ []) priv ≡ some sig
      → trim_space cert_data ≡ join b'\n' cert_line cert_lines
      → AreBlockLines (cert_line ∷ cert_lines)
      → AreBlockLines (sig ∷ [])
      → (text : Bytes) × (do_fake_discovery_cache c x files key_path cert_path announce_path
          ≡ prints text)
        × (do_scan j a c x cache (tokens text) ≡ some (clear cache, none))
  unfolding do_scan
  do_scan_newline files priv key_path cert_path announce_path b bs cert_data sig cert_line
        cert_lines cache given line signed pem cert_ok sig_ok =
      let behind = (cert_line ∷ cert_lines) ++ [] ∷ sig ∷ [] in
      let lines = [] ∷ sep ∷ (b ∷ bs) ∷ [] ∷ [] ∷ behind in
      let no_sep : HasNoSep behind =
        All-append (λ l. bytes_eq l sep ≡ false) (cert_line ∷ cert_lines) ([] ∷ sig ∷ [])
          (block_HasNoSep (cert_line ∷ cert_lines) cert_ok.0) (refl, (sig_ok.0.0.1, tt)) in
      (
        fake_text ((b ∷ bs) ++ b'\n' ∷ []) cert_data sig,
        do_fake_discovery_cache_lem c x files key_path cert_path announce_path priv
            ((b ∷ bs) ++ b'\n' ∷ []) cert_data sig given signed,
        ap (λ t. do_scan j a c x cache (tokens t))
              (newline_lines (b ∷ bs) cert_data cert_line cert_lines sig pem)
            ∙ ap (do_scan j a c x cache) (
                tokens-lines_text lines (
                  empty-IsLine,
                  (
                    sep-IsLine,
                    (
                      line,
                      (
                        empty-IsLine,
                        (
                          empty-IsLine,
                          All-append IsLine (cert_line ∷ cert_lines) ([] ∷ sig ∷ []) cert_ok.1
                              (empty-IsLine, (sig_ok.1.0, tt)),
                        ),
                      ),
                    ),
                  ),
                ))
            ∙ skip_empty j a c x (suc (length lines)) (drop 1 lines) (clear cache)
            ∙ ap (λ n. scan_records j a c x n (drop 1 lines) (clear cache)) (omega arith)
            ∙ scan_without_cert (length lines - 1) b bs behind (clear cache) no_sep,
      )
