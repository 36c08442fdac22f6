-- ===== src/Mixed.antt =====
-- `plan_mixed` of src/data_source_manager.rs and src/handlers/mixed_source.rs: a response whose first
-- part comes from the cache and whose second part comes from the network.
--
-- What the upstream answers and what the cache reads are parameters of the handler. A `usize` has 64
-- bits.
pub mod Taking
pub mod Stitching
pub mod Complete
use video_proxy_server.Prelude.{
  ℕ, suc, ◌+◌, ◌-◌, min, String, Bool, true, false, ◌||◌, Option, none, some, List, [], ◌∷◌, ◌++◌,
  leb, ltb, ◌==◌, if◌then◌else◌, length, take, codes, checked_add, saturating_add,
}
use video_proxy_server.Error.{
  Result, ok, err, ◌>>=◌, ok_or, invalid_range, network, Message, text, format,
}
use video_proxy_server.Strings.{Text, show}
use video_proxy_server.Range.{open_ended, range_length, clamp_end_to_upstream_length}
use video_proxy_server.Storage.Disk.File.{Bytes}
use video_proxy_server.Tee.{Channels, forward_upstream}

pub data MixedPlan : Type 0 where
  no_cache : MixedPlan
  whole_range_cached : MixedPlan
  stitch : ℕ → MixedPlan

unfoldable pub plan_mixed : ℕ → ℕ → ℕ → MixedPlan
plan_mixed start end cached_size =
    if leb cached_size start
    then no_cache
    else if ltb end cached_size
    then whole_range_cached
    else stitch cached_size

-- The part of a chunk that is still wanted. An empty chunk is passed on.
abbrev pub sliced : Bytes → ℕ → ℕ → Bytes
sliced chunk taken limit = take (min (length chunk) (limit - taken)) chunk

unfoldable pub take_from : List (Result Bytes) → ℕ → ℕ → List (Result Bytes)
take_from [] taken limit =
    if leb limit taken
    then []
    else err (network (format "流提前结束：期望 {} 字节,实际 {} 字节" (limit ∷ taken ∷ []))) ∷ []
take_from (err e ∷ stream) taken limit = if leb limit taken then [] else err e ∷ []
take_from (ok chunk ∷ stream) taken limit =
    let rest = take_from stream (saturating_add taken (min (length chunk) (limit - taken))) limit in
    if leb limit taken then [] else ok (sliced chunk taken limit) ∷ rest

unfoldable pub take_bytes : List (Result Bytes) → ℕ → List (Result Bytes)
take_bytes stream limit = take_from stream 0 limit

unfoldable pub create_mixed_stream :
    List (Result Bytes) → List (Result Bytes) → ℕ → ℕ → List (Result Bytes)
create_mixed_stream cached_stream network_stream cache_size network_size =
    take_bytes cached_stream cache_size ++ take_bytes network_stream network_size

-- A partial response: the range that it declares, and its body.
pub record Response : Type 0 where
  pub first : ℕ
  pub last : ℕ
  pub total_file_size : ℕ
  pub body : List (Result Bytes)

pub record FetchedUpstream : Type 0 where
  pub content_length : ℕ
  pub total_size : Option ℕ
  pub stream : List (Result Bytes)

abbrev pub or_zero : Option ℕ → ℕ
or_zero none = 0
or_zero (some n) = n

-- The response, after the upstream has answered and the cache has been read.
unfoldable pub combine : Channels → ℕ → ℕ → ℕ → ℕ → FetchedUpstream → List (Result Bytes) → Response
combine channels start end cached_end network_size fetched cache_stream = record {
  first = start;
  last = end;
  total_file_size = or_zero fetched.total_size;
  body =
      create_mixed_stream cache_stream (forward_upstream channels fetched.stream).to_client
        (cached_end - start) network_size;
}

unfoldable pub too_big : Message
too_big = text "请求范围长度超出可表示范围"

unfoldable pub respond :
    Channels
    → (ℕ × ℕ → Result (List (Result Bytes)))
    → ℕ
    → ℕ
    → ℕ
    → FetchedUpstream
    → Result Response
respond channels read_cache start end cached_end fetched = do
  network_size ← range_length cached_end end
  total ← ok_or (checked_add (cached_end - start) network_size) (invalid_range too_big)
  cache_stream ← read_cache (start, cached_end - 1)
  ok (combine channels start end cached_end network_size fetched cache_stream)

unfoldable pub is_bad_request : ℕ → ℕ → ℕ → Bool
is_bad_request start end cached_end = ltb end start || leb cached_end start || ltb end cached_end

-- `MixedSourceHandler::handle`
unfoldable pub handle :
    Channels
    → (Text → Result FetchedUpstream)
    → (ℕ × ℕ → Result (List (Result Bytes)))
    → ℕ
    → ℕ
    → ℕ
    → Result Response
handle channels fetch read_cache start end cached_end =
    if end == open_ended
    then err (invalid_range (text "混合源范围未收敛：end 仍为开区间哨兵值"))
    else if is_bad_request start end cached_end
    then err (invalid_range (text "无效的请求范围"))
    else (fetch (codes "bytes=" ++ show cached_end ++ codes "-" ++ show end) >>= λ fetched.
        respond channels read_cache start
          (clamp_end_to_upstream_length cached_end end fetched.content_length) cached_end fetched)
