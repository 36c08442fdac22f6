-- ===== src/Tests/Range.antt =====
-- Tests of the range functions.
use video_proxy_server.Prelude.{ℕ, ◌+◌, ◌-◌, min, ◌≤◌, ◌<◌, ◌≡◌, refl, some, arith, codes}
use video_proxy_server.Error.{ok, err, request, text}
use video_proxy_server.Strings.{strip_prefix, contains, split, trim, parse_u64, show}
use video_proxy_server.Range.{
  offset, suffix, open_ended, endpoints, parse_parts, parse_split, parse_range_spec, parse_range,
  format_range, resolve_range, range_length, clamp_end_to_upstream_length,
}
use video_proxy_server.Range.RoundTrip.{parse_range-format_range}
use video_proxy_server.Range.Bounds.{
  IsValid, parse_range_spec-IsValid, resolve_range_sound, suffix_bytes, clamp_length,
}

format_range_closed : format_range 1500 1999 ≡ codes "bytes=1500-1999"
unfolding format_range show
format_range_closed = refl

format_range_open : format_range 42 open_ended ≡ codes "bytes=42-"
unfolding format_range show
format_range_open = refl

spaces_are_trimmed : parse_range_spec (codes "bytes= 7 - 9 ") ≡ ok (offset 7 9)
unfolding parse_range_spec strip_prefix contains split parse_split trim parse_parts parse_u64
spaces_are_trimmed = refl

overflow_is_refused :
    parse_range_spec (codes "bytes=0-18446744073709551616")
    ≡ err (request (text "Invalid end position"))
unfolding parse_range_spec strip_prefix contains split parse_split trim parse_parts parse_u64
overflow_is_refused = refl

suffix_parses : parse_range_spec (codes "bytes=-500") ≡ ok (suffix 500)
unfolding parse_range_spec strip_prefix contains split parse_split trim parse_parts parse_u64
suffix_parses = refl

resolves : resolve_range 10 open_ended (some 100) ≡ ok (10, 99)
unfolding resolve_range
resolves = refl

parse_range-format_range_example : parse_range (format_range 1500 1999) ≡ ok (1500, 1999)
parse_range-format_range_example = parse_range-format_range 1500 1999 (omega arith) (omega arith)

parse_range_spec-IsValid_example : IsValid (suffix 500)
parse_range_spec-IsValid_example =
    parse_range_spec-IsValid (codes "bytes=-500") (suffix 500) suffix_parses

resolve_range_sound_example :
    (◌≡◌ {A = ℕ} 10 10)
    × (10 ≤ 99)
    × (99 < 100)
    × (99 ≤ open_ended)
    × (range_length 10 99 ≡ ok (99 - 10 + 1))
resolve_range_sound_example =
    resolve_range_sound 10 open_ended 100 10 99 (omega arith) (omega arith) resolves

suffix_bytes_example :
    (s : ℕ) × (endpoints (suffix 500) (some 300) ≡ ok (s, 300 - 1))
    × (range_length s (300 - 1) ≡ ok (min 500 300))
suffix_bytes_example = suffix_bytes 500 300 (omega arith) (omega arith) (omega arith)

clamp_length_example :
    (100 ≤ clamp_end_to_upstream_length 100 199 64)
    × (clamp_end_to_upstream_length 100 199 64 ≤ 199)
    × (range_length 100 (clamp_end_to_upstream_length 100 199 64) ≡ ok (min (199 - 100 + 1) 64))
clamp_length_example = clamp_length 100 199 64 (omega arith) (omega arith) (omega arith)
