-- ===== src/Mixed/Stitching.antt =====
-- `plan_mixed` of src/data_source_manager.rs and src/handlers/mixed_source.rs: what a stitched
-- response delivers.
use video_proxy_server.Prelude.{
  ap, append_assoc, ℕ, ◌+◌, ◌-◌, ◌≤◌, ◌<◌, ◌≡◌, refl, sym, subst, ◌∙◌, inl, inr, true, false, List,
  ◌++◌, arith, ◌==◌, length, length-append, Bool-cases, u64_max, checked_add, codes,
}
use video_proxy_server.Error.{Result, ok, err, ◌>>=◌, ok_or, invalid_range}
use video_proxy_server.Strings.{Text, show}
use video_proxy_server.Range.RoundTrip.{parse_range-format_range}
use video_proxy_server.Range.{
  parse_range, format_range, open_ended, range_length, clamp_end_to_upstream_length,
}
use video_proxy_server.Storage.Disk.File.{Bytes}
use video_proxy_server.Storage.Disk.File.Origin.{Matches, Matches-append}
use video_proxy_server.Storage.Disk.Soundness.{Delivers}
use video_proxy_server.Storage.Disk.Soundness.Read.{collect}
use video_proxy_server.Tee.{Channels, client_takes}
use video_proxy_server.Tee.Isolation.{forward_upstream-sides}
use video_proxy_server.Tee.Caching.{one_side-Delivers}
use video_proxy_server.Mixed.Taking.{collect-append, take_from-exact}
use video_proxy_server.Mixed.{
  stitch, plan_mixed, take_bytes, create_mixed_stream, Response, FetchedUpstream, too_big, combine,
  respond, is_bad_request, handle,
}

-- For a start that is at most the end, a plan to stitch always meets the conditions that the handler checks: the boundary lies after the
-- start and not after the end.
pub plan_mixed-accepted :
    (start end cached_size boundary : ℕ)
    → start ≤ end
    → plan_mixed start end cached_size ≡ stitch boundary
    → is_bad_request start end boundary ≡ false
unfolding plan_mixed is_bad_request
plan_mixed-accepted start end cached_size boundary p e = grind arith

-- The header that the handler sends asks for the rest of the range.
request_parses :
    (first last : ℕ)
    → last ≤ u64_max
    → (last == open_ended) ≡ false
    → first ≤ last
    → parse_range (codes "bytes=" ++ show first ++ codes "-" ++ show last) ≡ ok (first, last)
request_parses first last b closed p =
    let e : format_range first last ≡ codes "bytes=" ++ show first ++ codes "-" ++ show last =
      unfold format_range in
      rw closed
        (ap (λ t. codes "bytes=" ++ t) (sym (append_assoc (show first) (codes "-") (show last)))) in
    ap parse_range (sym e) ∙ parse_range-format_range first last p b

-- What the response of the handler declares, its body delivers.
abbrev pub IsExact : (ℕ → ℕ) → ℕ → ℕ → Response → Type 0
IsExact origin start end response =
    (response.first ≡ start)
    × (response.last ≤ end)
    × ((bytes : Bytes)
        → collect response.body ≡ ok bytes
        → Matches origin start bytes × (length bytes ≡ response.last - response.first + 1))

combine-IsExact :
    (origin : ℕ → ℕ) (channels : Channels) (start end last cached_end : ℕ)
    (fetched : FetchedUpstream) (cache_stream : List (Result Bytes))
    → start < cached_end
    → cached_end ≤ last
    → last ≤ end
    → last < u64_max
    → Delivers origin start cache_stream
    → Delivers origin cached_end fetched.stream
    → IsExact origin start end
        (combine channels start last cached_end (last - cached_end + 1) fetched cache_stream)
unfolding combine create_mixed_stream take_bytes
combine-IsExact origin channels start end last cached_end fetched cache_stream p q r b dc dn = (
  refl,
  r,
  λ bytes h.
      let (front, back, ef, eb, split) = collect-append _ _ bytes h in
      let cached =
        take_from-exact origin cache_stream 0 (cached_end - start) start front (omega arith)
          (omega arith) dc ef in
      let delivers =
        subst (Delivers origin cached_end) (sym (forward_upstream-sides channels fetched.stream).0)
          (one_side-Delivers origin (client_takes channels) 0 cached_end true fetched.stream dn) in
      let fetched_part =
        take_from-exact origin _ 0 (last - cached_end + 1) cached_end back (omega arith)
          (omega arith) delivers eb in
      let joins : start + length front ≡ cached_end = omega (arith, cached.1, p) in
      rw split (
        Matches-append origin front back start cached_end joins cached.0 fetched_part.0,
        length-append front back ∙ omega (arith, cached.1, fetched_part.1, p, q),
      ),
)

bind_ok {ℓ κ} :
    {A : Type ℓ} {B : Type κ} (r : Result A) (f : A → Result B) (b : B)
    → (r >>= f) ≡ ok b
    → (a : A) × (r ≡ ok a) × (f a ≡ ok b)
bind_ok (ok a) f b h = (a, refl, h)
bind_ok (err e) f b h = cc

ok_eq {ℓ} : {A : Type ℓ} {x y : A} → ok x ≡ ok y → x ≡ y
ok_eq h = cc

range_length-ok :
    (start end n : ℕ) → range_length start end ≡ ok n → (start ≤ end) × (n ≡ end - start + 1)
unfolding range_length
range_length-ok start end n h = grind arith

clamp_le : (start end n : ℕ) → clamp_end_to_upstream_length start end n ≤ end
unfolding clamp_end_to_upstream_length
clamp_le start end n = grind arith

bounds :
    (start end cached_end : ℕ)
    → end ≤ u64_max
    → (end == open_ended) ≡ false
    → is_bad_request start end cached_end ≡ false
    → (start < cached_end) × (end < u64_max) × (cached_end ≤ end)
unfolding is_bad_request
bounds start end cached_end b resolved fine = ground (arith, resolved, fine)

respond-IsExact :
    (origin : ℕ → ℕ) (channels : Channels) (read_cache : ℕ × ℕ → Result (List (Result Bytes)))
    (start end last cached_end : ℕ) (fetched : FetchedUpstream) (response : Response)
    → start < cached_end
    → last ≤ end
    → last < u64_max
    → ((range : ℕ × ℕ) (stream : List (Result Bytes))
        → read_cache range ≡ ok stream
        → Delivers origin range.0 stream)
    → Delivers origin cached_end fetched.stream
    → respond channels read_cache start last cached_end fetched ≡ ok response
    → IsExact origin start end response
unfolding respond
respond-IsExact origin channels read_cache start end last cached_end fetched response p q b dc dn
      h =
    let (size, hs, h₁) = bind_ok _ _ response h in
    let (total, ht, h₂) =
      bind_ok (ok_or (checked_add (cached_end - start) size) (invalid_range too_big)) _ response
        h₁ in
    let (cache_stream, hc, h₃) = bind_ok (read_cache (start, cached_end - 1)) _ response h₂ in
    let (le, length_is) = range_length-ok cached_end last size hs in
    subst (IsExact origin start end) (ok_eq h₃) (
      subst
        (λ n.
          IsExact origin start end (combine channels start last cached_end n fetched cache_stream))
        (sym length_is)
        (combine-IsExact origin channels start end last cached_end fetched cache_stream p le q b
          (dc (start, cached_end - 1) cache_stream hc) dn))

-- When the end is a `u64`, the network answers a `Range` header with bytes of the resource from the
-- first position that the header names, and the cache delivers bytes of the resource from the start
-- of the range that is read, and both may break off, the response of the handler is right whatever the client's channel does: it declares a range from the
-- start that was asked for to at most the end, and a body that is read to its end without an error
-- is exactly the bytes of that range.
pub handle-IsExact :
    (origin : ℕ → ℕ) (channels : Channels) (fetch : Text → Result FetchedUpstream)
    (read_cache : ℕ × ℕ → Result (List (Result Bytes))) (start end cached_end : ℕ)
    (response : Response)
    → end ≤ u64_max
    → ((range : Text) (first last : ℕ) (fetched : FetchedUpstream)
        → parse_range range ≡ ok (first, last)
        → fetch range ≡ ok fetched
        → Delivers origin first fetched.stream)
    → ((range : ℕ × ℕ) (stream : List (Result Bytes))
        → read_cache range ≡ ok stream
        → Delivers origin range.0 stream)
    → handle channels fetch read_cache start end cached_end ≡ ok response
    → IsExact origin start end response
unfolding handle
handle-IsExact origin channels fetch read_cache start end cached_end response b hf hc h =
    elim (Bool-cases (end == open_ended)) [
      | inl unresolved ↦ let bad = rw unresolved at h in cc
      | inr resolved ↦ elim (Bool-cases (is_bad_request start end cached_end)) [
        | inl refused ↦ let bad = rw (resolved, refused) at h in cc
        | inr fine ↦
            let (fetched, hd, h') =
              bind_ok (fetch (codes "bytes=" ++ show cached_end ++ codes "-" ++ show end)) _
                response (rw (resolved, fine) at h) in
            let inside = bounds start end cached_end b resolved fine in
            let clamped = clamp_le cached_end end fetched.content_length in
            respond-IsExact origin channels read_cache start end
              (clamp_end_to_upstream_length cached_end end fetched.content_length) cached_end
              fetched response inside.0 clamped (omega (arith, clamped, inside.1)) hc
              (hf _ cached_end end fetched (request_parses cached_end end b resolved inside.2) hd)
              h'
      ]
    ]
