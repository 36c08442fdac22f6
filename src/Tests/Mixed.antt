-- ===== src/Tests/Mixed.antt =====
-- Runs of the fork and of a stitched response.
use video_proxy_server.Prelude.{
  ◌≤◌, length, ◌-◌, ◌+◌, ℕ, ◌≡◌, refl, sym, ap, ◌∙◌, subst, Bool, true, false, ◌==◌, List, [], ◌∷◌,
  some, arith, if◌then◌else◌,
}
use video_proxy_server.Error.{Result, ok, err, network, text}
use video_proxy_server.Strings.{Text, strip_prefix, contains, show, split, trim, parse_u64}
use video_proxy_server.Range.{
  parse_range, parse_range_spec, parse_split, parse_parts, require_offset, range_length,
  clamp_end_to_upstream_length,
}
use video_proxy_server.Storage.Disk.File.{Bytes}
use video_proxy_server.Storage.Disk.Soundness.{Delivers}
use video_proxy_server.Storage.Disk.Soundness.Read.{collect}
use video_proxy_server.Tee.{
  left, took, stalled, client_takes, Channels, sent, full, accepted, timed_out, send_to_cache,
  cache_takes, forward, forward_upstream,
}
use video_proxy_server.Tee.Isolation.{one_side, before_stall, forward_upstream-sides}
use video_proxy_server.Mixed.{
  stitch, plan_mixed, take_from, take_bytes, create_mixed_stream, Response, FetchedUpstream,
  combine, respond, is_bad_request, handle,
}
use video_proxy_server.Mixed.Complete.{handle_complete}
use video_proxy_server.Mixed.Stitching.{plan_mixed-accepted, IsExact, handle-IsExact}

-- The client leaves at the second item, the cache stalls at the third.
abbrev channels : Channels
channels = record {
  client = λ i. if i == 1 then left else took;
  try_cache = λ i. if i == 2 then full else sent;
  wait_cache = λ i. timed_out;
}

abbrev upstream : List (Result Bytes)
upstream = ok (1 ∷ []) ∷ ok (2 ∷ []) ∷ ok (3 ∷ []) ∷ ok (4 ∷ []) ∷ []

forked :
    forward_upstream channels upstream
    ≡ record { to_client = ok (1 ∷ []) ∷ []; to_cache = ok (1 ∷ []) ∷ ok (2 ∷ []) ∷ [] }
unfolding forward_upstream forward send_to_cache
forked = refl

forward_upstream-sides_example :
    ((forward_upstream channels upstream).to_client
      ≡ one_side (client_takes channels) 0 true upstream)
    × ((forward_upstream channels upstream).to_cache
        ≡ one_side (cache_takes channels) 0 true (before_stall channels.client 0 true upstream))
forward_upstream-sides_example = forward_upstream-sides channels upstream

-- A client that never reads: the cache gets the first item only.
stuck :
    forward_upstream (record channels { client = λ i. if i == 1 then stalled else took }) upstream
    ≡ record { to_client = ok (1 ∷ []) ∷ []; to_cache = ok (1 ∷ []) ∷ [] }
unfolding forward_upstream forward send_to_cache
stuck = refl

abbrev origin : ℕ → ℕ
origin i = i

abbrev steady : Channels
steady = record { client = λ i. took; try_cache = λ i. sent; wait_cache = λ i. accepted }

-- The upstream gives one byte less than it was asked for, and declares that.
abbrev fetched : FetchedUpstream
fetched = record { content_length = 2; total_size = some 10; stream = ok (3 ∷ 4 ∷ []) ∷ [] }

abbrev cached : List (Result Bytes)
cached = ok (1 ∷ []) ∷ ok (2 ∷ []) ∷ []

-- The upstream answers requests from position 3 on only.
abbrev fetch_from : Result (ℕ × ℕ) → Result FetchedUpstream
fetch_from (ok (first, last)) =
    if first == 3 then ok fetched else err (network (text "not satisfiable"))
fetch_from (err e) = err e

abbrev fetch : Text → Result FetchedUpstream
fetch range = fetch_from (parse_range range)

abbrev read_cache : ℕ × ℕ → Result (List (Result Bytes))
read_cache (start, end) = if start == 1 then ok cached else err (network (text "not cached"))

abbrev stitched : Response
stitched = record {
  first = 1;
  last = 4;
  total_file_size = 10;
  body = ok (1 ∷ []) ∷ ok (2 ∷ []) ∷ ok (3 ∷ 4 ∷ []) ∷ [];
}

handled : handle steady fetch read_cache 1 5 3 ≡ ok stitched
unfolding handle respond is_bad_request range_length clamp_end_to_upstream_length combine
    create_mixed_stream take_bytes take_from forward_upstream forward send_to_cache parse_range
    parse_range_spec strip_prefix contains show parse_split split parse_parts trim parse_u64
    require_offset
handled = refl

received : collect stitched.body ≡ ok (1 ∷ 2 ∷ 3 ∷ 4 ∷ [])
unfolding collect
received = refl

fetch-Delivers :
    (range : Text) (first last : ℕ) (f : FetchedUpstream)
    → parse_range range ≡ ok (first, last)
    → fetch range ≡ ok f
    → Delivers origin first f.stream
fetch-Delivers range first last f p h = from first (first == 3) refl (sym (ap fetch_from p) ∙ h)
  where
    from :
        (first : ℕ) (b : Bool)
        → (first == 3) ≡ b
        → (if b then ok fetched else err (network (text "not satisfiable"))) ≡ ok f
        → Delivers origin first f.stream
    from first true three h =
        let at_three : first ≡ 3 = ground (arith, three) in
        let same : fetched ≡ f = cc in
        rw at_three (subst (λ g. Delivers origin 3 g.stream) same ((refl, (refl, tt)), tt))
    from first false other h = cc

read_cache-Delivers :
    (range : ℕ × ℕ) (stream : List (Result Bytes))
    → read_cache range ≡ ok stream
    → Delivers origin range.0 stream
read_cache-Delivers (start, end) stream h = from start stream (start == 1) refl h
  where
    from :
        (start : ℕ) (stream : List (Result Bytes)) (b : Bool)
        → (start == 1) ≡ b
        → (if b then ok cached else err (network (text "not cached"))) ≡ ok stream
        → Delivers origin start stream
    from start stream true one h =
        let at_one : start ≡ 1 = ground (arith, one) in
        let same : cached ≡ stream = cc in
        rw at_one (subst (Delivers origin 1) same ((refl, tt), ((refl, tt), tt)))
    from start stream false other h = cc

handle-IsExact_example : IsExact origin 1 5 stitched
handle-IsExact_example =
    handle-IsExact origin steady fetch read_cache 1 5 3 stitched (omega arith) fetch-Delivers
      read_cache-Delivers handled

planned : plan_mixed 1 5 3 ≡ stitch 3
unfolding plan_mixed
planned = refl

plan_mixed-accepted_example : is_bad_request 1 5 3 ≡ false
plan_mixed-accepted_example = plan_mixed-accepted 1 5 3 3 (omega arith) planned

abbrev cached_bytes : Bytes
cached_bytes = 1 ∷ 2 ∷ []

abbrev fetched_bytes : Bytes
fetched_bytes = 3 ∷ 4 ∷ []

cached_whole : collect cached ≡ ok cached_bytes
unfolding collect
cached_whole = refl

fetched_whole : collect fetched.stream ≡ ok fetched_bytes
unfolding collect
fetched_whole = refl

enough : clamp_end_to_upstream_length 3 5 fetched.content_length - 3 + 1 ≤ length fetched_bytes
unfolding clamp_end_to_upstream_length
enough = omega arith

handle_complete_example :
    (response : Response) × (bytes : Bytes) × (handle steady fetch read_cache 1 5 3 ≡ ok response)
    × (collect response.body ≡ ok bytes)
unfolding parse_range parse_range_spec strip_prefix contains show parse_split split parse_parts trim
    parse_u64 require_offset
handle_complete_example =
    handle_complete steady fetch read_cache 1 5 3 fetched cached cached_bytes fetched_bytes
      (omega arith) (omega arith) (omega arith) (λ i. refl) refl refl cached_whole (omega arith)
      fetched_whole enough
