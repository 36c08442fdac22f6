-- ===== src/Range/RoundTrip.antt =====
-- `parse_range` reads back what `format_range` writes.
use video_proxy_server.Prelude.{ℕ, ◌≤◌, ◌≡◌, false, [], ◌++◌, arith, u64_max, codes, append-nil}
use video_proxy_server.Error.{ok}
use video_proxy_server.Strings.{strip_prefix, contains, split, trim, trim_start, show}
use video_proxy_server.Strings.Decimal.{
  show-IsDigit, parse_u64-show, is_empty-show, trim-digits, contains-append-digits,
  split-append-digits, split-digits,
}
use video_proxy_server.Range.{
  offset, open_ended, parse_parts, parse_split, parse_range_spec, require_offset, parse_range,
  format_range,
}

parse_parts-open :
    (start : ℕ) → start ≤ u64_max → parse_parts (show start) [] ≡ ok (offset start open_ended)
unfolding parse_parts
parse_parts-open start h = ground (arith, is_empty-show start, parse_u64-show start)

parse_parts-closed :
    (start end : ℕ)
    → start ≤ end
    → end ≤ u64_max
    → parse_parts (show start) (show end) ≡ ok (offset start end)
unfolding parse_parts
parse_parts-closed start end h fits =
    ground (arith, is_empty-show start, is_empty-show end, parse_u64-show start, parse_u64-show end)

no_comma-open : (n : ℕ) → contains b',' (show n ++ codes "-") ≡ false
unfolding contains
no_comma-open n =
    rw (contains-append-digits b',' (show n) (codes "-") (omega arith) (show-IsDigit n))

no_comma-show : (n : ℕ) → contains b',' (show n) ≡ false
unfolding contains
no_comma-show n =
    rw (← append-nil (show n))
      (rw (contains-append-digits b',' (show n) [] (omega arith) (show-IsDigit n)))

no_comma-closed : (a b : ℕ) → contains b',' (show a ++ (codes "-" ++ show b)) ≡ false
no_comma-closed a b =
    rw (contains-append-digits b',' (show a) (codes "-" ++ show b) (omega arith) (show-IsDigit a))
      (unfold contains in ground (arith, no_comma-show b))

spec-open :
    (start : ℕ)
    → start ≤ u64_max
    → parse_range_spec (codes "bytes=" ++ (show start ++ codes "-")) ≡ ok (offset start open_ended)
unfolding parse_range_spec strip_prefix
spec-open start h =
    rw
      (
        no_comma-open start,
        split-append-digits b'-' (show start) [] (omega arith) (show-IsDigit start),
      )
      (unfold split parse_split trim trim_start in
        rw (trim-digits (show start) (show-IsDigit start)) (parse_parts-open start h))

spec-closed :
    (start end : ℕ)
    → start ≤ end
    → end ≤ u64_max
    → parse_range_spec (codes "bytes=" ++ (show start ++ (codes "-" ++ show end)))
      ≡ ok (offset start end)
unfolding parse_range_spec strip_prefix
spec-closed start end h fits =
    rw
      (
        no_comma-closed start end,
        split-append-digits b'-' (show start) (show end) (omega arith) (show-IsDigit start),
        split-digits b'-' (show end) (omega arith) (show-IsDigit end),
      )
      (unfold parse_split in
        rw
          (trim-digits (show start) (show-IsDigit start), trim-digits (show end) (show-IsDigit end))
          (parse_parts-closed start end h fits))

-- A range whose start is at most its end, both of them u64 values, is read back exactly from the
-- `Range` header that is written for it, the open range `bytes=N-` included.
pub parse_range-format_range :
    (start end : ℕ)
    → start ≤ end
    → end ≤ u64_max
    → parse_range (format_range start end) ≡ ok (start, end)
unfolding parse_range format_range require_offset
parse_range-format_range start end h fits =
    ground (arith, spec-open start, spec-closed start end h fits)
