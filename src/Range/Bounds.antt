-- ===== src/Range/Bounds.antt =====
-- What the results of src/utils/range.rs satisfy: valid specifications, resolved ranges inside the
-- resource, lengths that do not overflow, and the narrowing to what the upstream sent.
use video_proxy_server.Prelude.{
  ℕ, ◌+◌, ◌-◌, ◌*◌, min, ◌≤◌, ◌<◌, ◌≡◌, refl, some, List, [], ◌∷◌, arith, u64_max, codes,
  Bool-cases, ◌==◌, Option-cases, inl, inr,
}
use video_proxy_server.Error.{ok, err, invalid_range, ProxyError, status_code, text, format}
use video_proxy_server.Strings.{Text, scan, parse_u64, strip_prefix, split, trim}
use video_proxy_server.Range.{
  RangeSpec, offset, suffix, endpoints, parse_parts, parse_split, parse_range_spec, resolve_range,
  range_length, clamp_end_to_upstream_length,
}

scan-le : (s : Text) (n r : ℕ) → n ≤ u64_max → scan s n ≡ some r → r ≤ u64_max
unfolding scan
scan-le [] n r fits h = ground arith
scan-le (c ∷ s) n r fits h = ground (arith, scan-le s (n * 10 + (c - b'0')) r)

parse_u64-le : (s : Text) (n : ℕ) → parse_u64 s ≡ some n → n ≤ u64_max
unfolding parse_u64
parse_u64-le [] n h = cc
parse_u64-le (c ∷ []) n h = scan-le (c ∷ []) 0 n (omega arith) h
parse_u64-le (c ∷ d ∷ s) n h = ground (arith, scan-le (d ∷ s) 0 n, scan-le (c ∷ d ∷ s) 0 n)

-- What the parser promises of a specification.
abbrev pub IsValid : RangeSpec → Type 0
IsValid (offset start end) = (start ≤ end) × (end ≤ u64_max)
IsValid (suffix length) = (0 < length) × (length ≤ u64_max)

parse_parts-IsValid :
    (first second : Text) (spec : RangeSpec) → parse_parts first second ≡ ok spec → IsValid spec
unfolding parse_parts
parse_parts-IsValid first second (offset start end) h =
    ground (arith, parse_u64-le first start, parse_u64-le second end)
parse_parts-IsValid first second (suffix length) h = ground (arith, parse_u64-le second length)

parse_split-IsValid :
    (parts : List Text) (spec : RangeSpec) → parse_split parts ≡ ok spec → IsValid spec
unfolding parse_split
parse_split-IsValid (a ∷ b ∷ []) spec h = parse_parts-IsValid (trim a) (trim b) spec h
parse_split-IsValid [] spec h = cc
parse_split-IsValid (a ∷ []) spec h = cc
parse_split-IsValid (a ∷ b ∷ c ∷ r) spec h = cc

-- Whatever the header text, a specification that is accepted is a nonempty suffix, or an offset
-- range whose start is at most its end; all its numbers are u64 values.
pub parse_range_spec-IsValid :
    (range : Text) (spec : RangeSpec) → parse_range_spec range ≡ ok spec → IsValid spec
unfolding parse_range_spec
parse_range_spec-IsValid range spec h = elim (Option-cases (strip_prefix (codes "bytes=") range)) [
  | inl e ↦ ground (arith, e)
  | inr (rest, e) ↦ ground (arith, e, parse_split-IsValid (split b'-' rest) spec)
]

-- A range whose start is at most its end and that is resolved against a total keeps its start, lies inside the resource and inside
-- the request, and its length is computed without overflow.
pub resolve_range_sound :
    (start end total s e : ℕ)
    → start ≤ end
    → total ≤ u64_max
    → resolve_range start end (some total) ≡ ok (s, e)
    → (s ≡ start) × (s ≤ e) × (e < total) × (e ≤ end) × (range_length s e ≡ ok (e - s + 1))
unfolding resolve_range range_length
resolve_range_sound start end total s e h fits r = ground arith

-- The start of a range decides whether it can be served: inside the resource it is resolved, and
-- otherwise the answer has status 416.
pub resolve_range_total :
    (start end total : ℕ)
    → (start < total → resolve_range start end (some total) ≡ ok (start, min end (total - 1)))
      × (total ≤ start
          → (e : ProxyError) × (resolve_range start end (some total) ≡ err e)
            × (status_code e ≡ 416))
unfolding resolve_range status_code
resolve_range_total start end total = (
  λ h. ground arith,
  λ h. elim (Bool-cases (total == 0)) [
    | inl z ↦ (invalid_range (text "资源长度为 0"), ground arith, refl)
    | inr z ↦ (invalid_range (format "范围起点 {} 超出资源长度 {}" (start ∷ total ∷ [])), ground arith, refl)
  ],
)

-- A suffix range that the parser accepts is located at the end of a nonempty resource, and holds
-- the requested number of bytes, or the whole resource if that is shorter.
pub suffix_bytes :
    (length total : ℕ)
    → IsValid (suffix length)
    → 0 < total
    → total ≤ u64_max
    → (s : ℕ) × (endpoints (suffix length) (some total) ≡ ok (s, total - 1))
      × (range_length s (total - 1) ≡ ok (min length total))
unfolding endpoints range_length
suffix_bytes length total v h fits = (total - length, ground arith, ground arith)

-- Where the upstream declares a length above 0 for a range that is closed and not empty, the narrowed range holds exactly the bytes that were both
-- requested and sent, and stays inside the requested range.
pub clamp_length :
    (start end upstream_length : ℕ)
    → start ≤ end
    → end < u64_max
    → 0 < upstream_length
    → (start ≤ clamp_end_to_upstream_length start end upstream_length)
      × (clamp_end_to_upstream_length start end upstream_length ≤ end)
      × (range_length start (clamp_end_to_upstream_length start end upstream_length)
          ≡ ok (min (end - start + 1) upstream_length))
unfolding clamp_end_to_upstream_length range_length
clamp_length start end upstream_length h fits p = ground arith
