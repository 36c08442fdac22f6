-- ===== src/Mixed/Complete.antt =====
-- src/handlers/mixed_source.rs: a stitched response comes about and can be read to its end.
use video_proxy_server.Prelude.{
  ℕ, suc, ◌+◌, ◌-◌, ◌≤◌, ◌<◌, min, ◌≡◌, refl, ap, ◌∙◌, Bool, true, false, List, [], ◌∷◌, ◌++◌,
  arith, leb, ltb, ◌==◌, length, length-append, Bool-cases, inl, inr, u64_max, saturating_add,
  codes,
}
use video_proxy_server.Error.{Result, ok, err}
use video_proxy_server.Strings.{Text, show}
use video_proxy_server.Range.{open_ended, range_length, clamp_end_to_upstream_length}
use video_proxy_server.Storage.Disk.File.{Bytes}
use video_proxy_server.Storage.Disk.Soundness.Read.{collect}
use video_proxy_server.Tee.{took, is_taken, client_takes, Channels, forward_upstream}
use video_proxy_server.Tee.Isolation.{one_side, forward_upstream-sides}
use video_proxy_server.Mixed.{
  sliced, take_from, take_bytes, create_mixed_stream, Response, FetchedUpstream, combine, respond,
  is_bad_request, handle,
}
use video_proxy_server.Mixed.Taking.{onto_ok}

-- A stream without an error of which at least `limit` bytes are wanted and there.
take_from_complete :
    (stream : List (Result Bytes)) (taken limit : ℕ) (bytes : Bytes)
    → limit ≤ u64_max
    → collect stream ≡ ok bytes
    → limit ≤ taken + length bytes
    → (got : Bytes) × (collect (take_from stream taken limit) ≡ ok got)
unfolding take_from collect
take_from_complete [] taken limit bytes b h p =
    let none_left : [] ≡ bytes = ok_is h in
    let done : leb limit taken ≡ true = ground (arith, p, ap length none_left) in ([], rw done refl)
  where
    ok_is : ok [] ≡ ok bytes → [] ≡ bytes
    ok_is h = cc
take_from_complete (err e ∷ stream) taken limit bytes b h p = cc
take_from_complete (ok chunk ∷ stream) taken limit bytes b h p =
    elim (Bool-cases (leb limit taken)) [
      | inl done ↦ ([], rw done refl)
      | inr more ↦
          let (rest, e, split) = onto_ok chunk bytes (collect stream) h in
          let n = min (length chunk) (limit - taken) in
          let size = ap length split ∙ length-append chunk rest in
          let (got, e') =
            take_from_complete stream (saturating_add taken n) limit rest b e
              (ground (arith, p, size, more, b)) in
          (sliced chunk taken limit ++ got, rw (more, e') refl)
    ]

collect-both :
    (xs ys : List (Result Bytes)) (front back : Bytes)
    → collect xs ≡ ok front
    → collect ys ≡ ok back
    → (bytes : Bytes) × (collect (xs ++ ys) ≡ ok bytes)
unfolding collect
collect-both [] ys front back f b = (back, b)
collect-both (ok chunk ∷ xs) ys front back f b =
    let (rest, e, split) = onto_ok chunk front (collect xs) f in
    let (bytes, e') = collect-both xs ys rest back e b in (chunk ++ bytes, rw e' refl)
collect-both (err e ∷ xs) ys front back f b = cc

one_side-all :
    (takes : ℕ → Bool) (index : ℕ) (stream : List (Result Bytes)) (bytes : Bytes)
    → ((i : ℕ) → takes i ≡ true)
    → collect stream ≡ ok bytes
    → one_side takes index true stream ≡ stream
unfolding one_side collect
one_side-all takes index [] bytes t h = refl
one_side-all takes index (ok chunk ∷ stream) bytes t h =
    let (rest, e, split) = onto_ok chunk bytes (collect stream) h in
    rw (t index) (ap (λ s. ok chunk ∷ s) (one_side-all takes (suc index) stream rest t e))
one_side-all takes index (err e ∷ stream) bytes t h = cc

combine_complete :
    (channels : Channels) (start last cached_end size : ℕ) (fetched : FetchedUpstream)
    (cache_stream : List (Result Bytes)) (front back : Bytes)
    → ((i : ℕ) → channels.client i ≡ took)
    → size ≤ u64_max
    → cached_end ≤ u64_max
    → collect cache_stream ≡ ok front
    → cached_end - start ≤ length front
    → collect fetched.stream ≡ ok back
    → size ≤ length back
    → (bytes : Bytes) × (collect
          (combine channels start last cached_end size fetched cache_stream).body
        ≡ ok bytes)
unfolding combine create_mixed_stream take_bytes
combine_complete channels start last cached_end size fetched cache_stream front back t bs bc hf pf
      hb pb =
    let side =
      (forward_upstream-sides channels fetched.stream).0
      ∙ one_side-all (client_takes channels) 0 fetched.stream back (λ i. ap is_taken (t i)) hb in
    let (xs, ex) =
      take_from_complete cache_stream 0 (cached_end - start) front (omega arith) hf (omega arith) in
    let (ys, ey) = take_from_complete fetched.stream 0 size back bs hb (omega arith) in
    collect-both (take_from cache_stream 0 (cached_end - start))
      (take_from (forward_upstream channels fetched.stream).to_client 0 size) xs ys ex
      (ap (λ s. collect (take_from s 0 size)) side ∙ ey)

respond_ok :
    (channels : Channels) (read_cache : ℕ × ℕ → Result (List (Result Bytes)))
    (start last cached_end : ℕ) (fetched : FetchedUpstream) (cache_stream : List (Result Bytes))
    → cached_end ≤ last
    → last < u64_max
    → read_cache (start, cached_end - 1) ≡ ok cache_stream
    → respond channels read_cache start last cached_end fetched
      ≡ ok (combine channels start last cached_end (last - cached_end + 1) fetched cache_stream)
unfolding respond range_length
respond_ok channels read_cache start last cached_end fetched cache_stream p b h =
    let le : leb cached_end last ≡ true = ground arith in
    let small : leb (last - cached_end + 1) u64_max ≡ true = ground arith in
    let total : leb (cached_end - start + (last - cached_end + 1)) u64_max ≡ true = ground arith in
    rw (le, small, total, h) refl

clamp_ge :
    (start end n : ℕ)
    → start ≤ end
    → end < u64_max
    → start ≤ clamp_end_to_upstream_length start end n
unfolding clamp_end_to_upstream_length
clamp_ge start end n p b = grind arith

clamp_lt : (start end n : ℕ) → end < u64_max → clamp_end_to_upstream_length start end n < u64_max
unfolding clamp_end_to_upstream_length
clamp_lt start end n b = grind arith

-- For a boundary inside the range the handler does respond, and its response is read to the end
-- without an error, when the upstream answers, the cache can be read, both streams come without an
-- error and have at least the bytes of their part, and the client takes every item.
pub handle_complete :
    (channels : Channels) (fetch : Text → Result FetchedUpstream)
    (read_cache : ℕ × ℕ → Result (List (Result Bytes))) (start end cached_end : ℕ)
    (fetched : FetchedUpstream) (cache_stream : List (Result Bytes)) (front back : Bytes)
    → start < cached_end
    → cached_end ≤ end
    → end < open_ended
    → ((i : ℕ) → channels.client i ≡ took)
    → fetch (codes "bytes=" ++ show cached_end ++ codes "-" ++ show end) ≡ ok fetched
    → read_cache (start, cached_end - 1) ≡ ok cache_stream
    → collect cache_stream ≡ ok front
    → cached_end - start ≤ length front
    → collect fetched.stream ≡ ok back
    → clamp_end_to_upstream_length cached_end end fetched.content_length - cached_end + 1
      ≤ length back
    → (response : Response) × (bytes : Bytes) × (handle channels fetch read_cache start end
          cached_end
        ≡ ok response)
      × (collect response.body ≡ ok bytes)
unfolding handle is_bad_request
handle_complete channels fetch read_cache start end cached_end fetched cache_stream front back p q b
      t hd hc hf pf hb pb =
    let last = clamp_end_to_upstream_length cached_end end fetched.content_length in
    let lo = clamp_ge cached_end end fetched.content_length q b in
    let hi = clamp_lt cached_end end fetched.content_length b in
    let resolved : (end == open_ended) ≡ false = ground arith in
    let one : ltb end start ≡ false = ground arith in
    let two : leb cached_end start ≡ false = ground arith in
    let three : ltb end cached_end ≡ false = ground arith in
    let done = respond_ok channels read_cache start last cached_end fetched cache_stream lo hi hc in
    let (bytes, e) =
      combine_complete channels start last cached_end (last - cached_end + 1) fetched cache_stream
        front back t (omega (arith, hi)) (omega (arith, q, b)) hf pf hb pb in
    (
      combine channels start last cached_end (last - cached_end + 1) fetched cache_stream,
      bytes,
      rw (resolved, one, two, three, hd) done,
      e,
    )
