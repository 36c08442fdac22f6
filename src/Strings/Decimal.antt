-- ===== src/Strings/Decimal.antt =====
-- Decimal numbers: what `show` writes and `parse_u64` reads, and texts of digits under `trim`,
-- `split` and `contains`.
use mathlib.Core.List.{reverse, reverse-append, reverse-reverse}
use video_proxy_server.Prelude.{
  ℕ, zero, suc, ◌+◌, ◌/◌, ◌%◌, ◌≤◌, ◌<◌, ◌≡◌, ◌≢◌, refl, false, some, [], ◌∷◌, ◌++◌, arith, u64_max,
  All, All-append,
}
use video_proxy_server.Strings.{
  Text, contains, split, trim_start, trim, is_empty, scan, parse_u64, digits, show,
}

abbrev pub IsDigit : ℕ → Type 0
IsDigit c = (b'0' ≤ c) × (c ≤ b'9')

scan_last : (n : ℕ) (out : Text) → n ≤ u64_max → scan ((b'0' + n % 10) ∷ out) (n / 10) ≡ scan out n
unfolding scan
scan_last n out h = ground arith

scan_first : (n : ℕ) (out : Text) → n < 10 → scan ((b'0' + n % 10) ∷ out) 0 ≡ scan out n
unfolding scan
scan_first n out h = ground arith

scan-digits :
    (fuel n : ℕ) (out : Text) → n < fuel → n ≤ u64_max → scan (digits fuel n out) 0 ≡ scan out n
unfolding digits
scan-digits zero n out h fits = absurd (omega arith)
scan-digits (suc f) n out h fits =
    ground
      (arith, scan_first n out, scan_last n out, scan-digits f (n / 10) ((b'0' + n % 10) ∷ out))

digits-IsDigit : (fuel n : ℕ) (out : Text) → All IsDigit out → All IsDigit (digits fuel n out)
unfolding digits
digits-IsDigit zero n out h = h
digits-IsDigit (suc f) n out h =
    let more : All IsDigit ((b'0' + n % 10) ∷ out) = ((omega arith, omega arith), h) in
    ground (arith, digits-IsDigit f (n / 10) ((b'0' + n % 10) ∷ out) more)

digits-ne-nil : (fuel n : ℕ) (out : Text) → out ≢ [] → digits fuel n out ≢ []
unfolding digits
digits-ne-nil zero n out h = h
digits-ne-nil (suc f) n out h = ground (arith, digits-ne-nil f (n / 10) ((b'0' + n % 10) ∷ out))

show-ne-nil : (n : ℕ) → show n ≢ []
unfolding show
show-ne-nil n = ground (arith, digits-ne-nil n (n / 10) ((b'0' + n % 10) ∷ []))

pub show-IsDigit : (n : ℕ) → All IsDigit (show n)
unfolding show
show-IsDigit n = digits-IsDigit (suc n) n [] tt

parse_u64-scan : (s : Text) → s ≢ [] → All IsDigit s → parse_u64 s ≡ scan s 0
unfolding parse_u64
parse_u64-scan [] h _ = absurd (h refl)
parse_u64-scan (c ∷ []) h _ = refl
parse_u64-scan (c ∷ d ∷ s) h (hc, _) = ground arith

-- Every u64 is read back from its decimal print.
pub parse_u64-show : (n : ℕ) → n ≤ u64_max → parse_u64 (show n) ≡ some n
unfolding show scan
parse_u64-show n h =
    rw (parse_u64-scan (show n) (show-ne-nil n) (show-IsDigit n))
      (scan-digits (suc n) n [] (omega arith) h)

pub is_empty-show : (n : ℕ) → is_empty (show n) ≡ false
is_empty-show n = ground (arith, show-ne-nil n)

trim_start-digits : (s : Text) → All IsDigit s → trim_start s ≡ s
unfolding trim_start
trim_start-digits [] _ = refl
trim_start-digits (c ∷ s) (h, _) = ground arith

All-reverse : (s : Text) → All IsDigit s → All IsDigit (reverse s)
All-reverse [] _ = tt
All-reverse (c ∷ s) (h, hs) =
    rw (reverse-append (c ∷ []) s) (All-append _ (reverse s) _ (All-reverse s hs) (h, tt))

pub trim-digits : (s : Text) → All IsDigit s → trim s ≡ s
unfolding trim
trim-digits s h =
    rw (trim_start-digits s h, trim_start-digits (reverse s) (All-reverse s h), reverse-reverse)

pub contains-append-digits :
    (b : ℕ) (s rest : Text) → b < b'0' → All IsDigit s → contains b (s ++ rest) ≡ contains b rest
unfolding contains
contains-append-digits b [] rest h _ = refl
contains-append-digits b (c ∷ s) rest h (hc, hs) =
    ground (arith, contains-append-digits b s rest h hs)

pub split-append-digits :
    (b : ℕ) (s rest : Text) → b < b'0' → All IsDigit s → split b (s ++ b ∷ rest) ≡ s ∷ split b rest
unfolding split
split-append-digits b [] rest h _ = ground arith
split-append-digits b (c ∷ s) rest h (hc, hs) = ground (arith, split-append-digits b s rest h hs)

pub split-digits : (b : ℕ) (s : Text) → b < b'0' → All IsDigit s → split b s ≡ s ∷ []
unfolding split
split-digits b [] h _ = refl
split-digits b (c ∷ s) h (hc, hs) = ground (arith, split-digits b s h hs)
