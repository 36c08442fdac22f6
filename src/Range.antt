-- ===== src/Range.antt =====
-- src/utils/range.rs: byte ranges, their parsing, formatting and resolution.
pub mod Bounds
pub mod RoundTrip
use video_proxy_server.Prelude.{
  ℕ, ◌+◌, ◌-◌, min, ◌≡◌, refl, Bool, true, false, Option, none, some, List, [], ◌∷◌, ◌++◌, arith,
  ltb, leb, ◌==◌, if◌then◌else◌, u64_max, saturating_add, checked_add, checked_sub, codes,
}
use video_proxy_server.Error.{Result, ok, err, ◌>>=◌, ok_or, invalid_range, request, text, format}
use video_proxy_server.Strings.{
  Text, strip_prefix, contains, split, trim, is_empty, parse_u64, show,
}

pub data RangeSpec : Type 0 where
  offset : ℕ → ℕ → RangeSpec
  suffix : ℕ → RangeSpec

-- The end of `bytes=N-`.
abbrev pub open_ended : ℕ
open_ended = u64_max

unfoldable pub endpoints : RangeSpec → Option ℕ → Result (ℕ × ℕ)
endpoints (offset start end) total_size = ok (start, end)
endpoints (suffix length) none = err (invalid_range (text "总长度未知，无法定位后缀范围"))
endpoints (suffix length) (some total) =
    if total == 0 then err (invalid_range (text "资源长度为 0")) else ok (total - length, total - 1)

-- `bytes=-N`
unfoldable pub parse_suffix : Text → Result RangeSpec
parse_suffix second = do
  length ← ok_or (parse_u64 second) (request (text "Invalid suffix length"))
  if length == 0 then err (invalid_range (text "后缀范围长度不能为 0")) else ok (suffix length)

unfoldable pub parse_end : Text → Result ℕ
parse_end second =
    if is_empty second
    then ok open_ended
    else ok_or (parse_u64 second) (request (text "Invalid end position"))

unfoldable pub check_order : ℕ → ℕ → Result RangeSpec
check_order start end =
    if ltb end start
    then err (request (text "Invalid range: start > end"))
    else ok (offset start end)

-- `bytes=N-M` and `bytes=N-`
unfoldable pub parse_offset : Text → Text → Result RangeSpec
unfolding parse_end check_order
parse_offset first second = do
  start ← ok_or (parse_u64 first) (request (text "Invalid start position"))
  end ← parse_end second
  check_order start end

-- What follows the split at `-` into two trimmed parts.
unfoldable pub parse_parts : Text → Text → Result RangeSpec
unfolding parse_suffix parse_offset
parse_parts first second = if is_empty first then parse_suffix second else parse_offset first second

-- The test `parts.len() != 2`.
unfoldable pub parse_split : List Text → Result RangeSpec
parse_split (first ∷ second ∷ []) = parse_parts (trim first) (trim second)
parse_split _ = err (request (text "Invalid range format"))

unfoldable pub parse_range_spec : Text → Result RangeSpec
parse_range_spec range = elim (strip_prefix (codes "bytes=") range) [
  | none ↦ err (request (text "Invalid range format"))
  | some rest ↦
      if contains b',' rest
      then err (invalid_range (text "multiple byte ranges are not supported"))
      else parse_split (split b'-' rest)
]

-- The match of `parse_range`.
unfoldable pub require_offset : RangeSpec → Result (ℕ × ℕ)
require_offset (offset start end) = ok (start, end)
require_offset (suffix length) = err (invalid_range (text "后缀范围需先借总长度解析为具体区间"))

unfoldable pub parse_range : Text → Result (ℕ × ℕ)
parse_range range = do spec ← parse_range_spec range; require_offset spec

unfoldable pub format_range : ℕ → ℕ → Text
format_range start end =
    if end == open_ended
    then codes "bytes=" ++ (show start ++ codes "-")
    else codes "bytes=" ++ (show start ++ (codes "-" ++ show end))

unfoldable pub resolve_range : ℕ → ℕ → Option ℕ → Result (ℕ × ℕ)
resolve_range start end none =
    if end == open_ended then err (invalid_range (text "总长度未知，无法确定开区间的结束位置")) else ok (start, end)
resolve_range start end (some total) =
    if total == 0
    then err (invalid_range (text "资源长度为 0"))
    else if ltb (total - 1) start
    then err (invalid_range (format "范围起点 {} 超出资源长度 {}" (start ∷ total ∷ [])))
    else ok (start, min end (total - 1))

-- The `and_then` of `range_length`.
abbrev span_length : Option ℕ → Option ℕ
span_length none = none
span_length (some span) = checked_add span 1

unfoldable pub range_length : ℕ → ℕ → Result ℕ
range_length start end =
    ok_or (span_length (checked_sub end start))
      (invalid_range (format "无效范围: {}-{}" (start ∷ end ∷ [])))

unfoldable pub clamp_end_to_upstream_length : ℕ → ℕ → ℕ → ℕ
clamp_end_to_upstream_length start end upstream_length =
    if upstream_length == 0 then end else min end (saturating_add start (upstream_length - 1))
