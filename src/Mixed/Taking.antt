-- ===== src/Mixed/Taking.antt =====
-- `take_bytes` of src/handlers/mixed_source.rs: what its reader gets.
use video_proxy_server.Prelude.{
  ℕ, zero, suc, ◌+◌, ◌-◌, ◌≤◌, min, ◌≡◌, refl, sym, ap, ◌∙◌, inl, inr, Bool, true, false, List, [],
  ◌∷◌, ◌++◌, append_assoc, arith, leb, if◌then◌else◌, length, length-append, length-take, take,
  Bool-cases, u64_max, saturating_add,
}
use video_proxy_server.Error.{Result, ok, err, ProxyError}
use video_proxy_server.Storage.Disk.File.{Bytes}
use video_proxy_server.Storage.Disk.File.Origin.{Matches, Matches-append, Matches-take}
use video_proxy_server.Storage.Disk.Soundness.{Delivers}
use video_proxy_server.Storage.Disk.Soundness.Read.{onto, collect}
use video_proxy_server.Mixed.{sliced, take_from}

pub onto_ok :
    (chunk bytes : Bytes) (r : Result Bytes)
    → onto chunk r ≡ ok bytes
    → (rest : Bytes) × (r ≡ ok rest) × (bytes ≡ chunk ++ rest)
onto_ok chunk bytes (ok rest) h = (rest, refl, cc)
onto_ok chunk bytes (err e) h = cc

pub collect-append :
    (xs ys : List (Result Bytes)) (bytes : Bytes)
    → collect (xs ++ ys) ≡ ok bytes
    → (front back : Bytes) × (collect xs ≡ ok front)
      × (collect ys ≡ ok back)
      × (bytes ≡ front ++ back)
unfolding collect
collect-append [] ys bytes h = ([], bytes, refl, h, refl)
collect-append (ok chunk ∷ xs) ys bytes h =
    let (rest, e, split) = onto_ok chunk bytes (collect (xs ++ ys)) h in
    let (front, back, f, b, both) = collect-append xs ys rest e in
    (
      chunk ++ front,
      back,
      rw f refl,
      b,
      split ∙ ap (λ bs. chunk ++ bs) both ∙ sym (append_assoc chunk front back),
    )
collect-append (err e ∷ xs) ys bytes h = cc

take_all : (n : ℕ) (xs : Bytes) → length xs ≤ n → take n xs ≡ xs
take_all zero [] h = refl
take_all zero (x ∷ xs) h = absurd (omega arith)
take_all (suc n) [] h = refl
take_all (suc n) (x ∷ xs) h = ap (λ ys. x ∷ ys) (take_all n xs (omega arith))

empty_Matches :
    (origin : ℕ → ℕ) (pos : ℕ) (bytes : Bytes) → length bytes ≡ 0 → Matches origin pos bytes
empty_Matches origin pos [] h = tt
empty_Matches origin pos (b ∷ bytes) h = absurd (omega arith)

-- A chunk that is cut is the last one.
sliced-Matches :
    (origin : ℕ → ℕ) (pos taken limit : ℕ) (chunk rest : Bytes)
    → taken ≤ limit
    → Matches origin pos chunk
    → Matches origin (pos + length chunk) rest
    → length rest ≡ limit - (taken + min (length chunk) (limit - taken))
    → Matches origin pos (sliced chunk taken limit ++ rest)
      × (length (sliced chunk taken limit ++ rest) ≡ limit - taken)
sliced-Matches origin pos taken limit chunk rest p m r l =
    let n = min (length chunk) (limit - taken) in
    let size =
      length-append (take n chunk) rest ∙ ap (λ k. k + length rest) (length-take n chunk) in
    (
      elim (Bool-cases (leb (length chunk) (limit - taken))) [
        | inl whole ↦
            let all : take n chunk ≡ chunk = take_all n chunk (ground (arith, whole)) in
            rw all (Matches-append origin chunk rest pos (pos + length chunk) refl m r)
        | inr cut ↦
            Matches-append origin (take n chunk) rest pos (pos + length (take n chunk)) refl
              (Matches-take origin n chunk pos m)
              (empty_Matches origin _ rest (ground (arith, cut, l)))
      ],
      omega (arith, size, l),
    )

-- All `limit` bytes were taken before.
no_more :
    (origin : ℕ → ℕ) (taken limit pos : ℕ) (bytes : Bytes)
    → leb limit taken ≡ true
    → ok [] ≡ ok bytes
    → Matches origin pos bytes × (length bytes ≡ limit - taken)
no_more origin taken limit pos bytes done h =
    let none_left : [] ≡ bytes = cc in rw (← none_left) (tt, ground (arith, done))

at_end :
    (origin : ℕ → ℕ) (taken limit pos : ℕ) (bytes : Bytes) (e : ProxyError) (done : Bool)
    → leb limit taken ≡ done
    → collect (if done then [] else err e ∷ []) ≡ ok bytes
    → Matches origin pos bytes × (length bytes ≡ limit - taken)
unfolding collect
at_end origin taken limit pos bytes e true done h = no_more origin taken limit pos bytes done h
at_end origin taken limit pos bytes e false done h = cc

at_chunk :
    (origin : ℕ → ℕ) (taken limit pos : ℕ) (bytes chunk : Bytes) (rest : List (Result Bytes))
    (done : Bool)
    → leb limit taken ≡ done
    → taken ≤ limit
    → Matches origin pos chunk
    → ((bs : Bytes)
        → collect rest ≡ ok bs
        → Matches origin (pos + length chunk) bs
          × (length bs ≡ limit - (taken + min (length chunk) (limit - taken))))
    → collect (if done then [] else ok (sliced chunk taken limit) ∷ rest) ≡ ok bytes
    → Matches origin pos bytes × (length bytes ≡ limit - taken)
unfolding collect
at_chunk origin taken limit pos bytes chunk rest true done p m k h =
    no_more origin taken limit pos bytes done h
at_chunk origin taken limit pos bytes chunk rest false done p m k h =
    let (bs, e, split) = onto_ok (sliced chunk taken limit) bytes (collect rest) h in
    let (r, l) = k bs e in rw split (sliced-Matches origin pos taken limit chunk bs p m r l)

pub take_from-exact :
    (origin : ℕ → ℕ) (stream : List (Result Bytes)) (taken limit pos : ℕ) (bytes : Bytes)
    → taken ≤ limit
    → limit ≤ u64_max
    → Delivers origin pos stream
    → collect (take_from stream taken limit) ≡ ok bytes
    → Matches origin pos bytes × (length bytes ≡ limit - taken)
unfolding take_from
take_from-exact origin [] taken limit pos bytes p b d h =
    at_end origin taken limit pos bytes _ (leb limit taken) refl h
take_from-exact origin (err e ∷ stream) taken limit pos bytes p b d h =
    at_end origin taken limit pos bytes e (leb limit taken) refl h
take_from-exact origin (ok chunk ∷ stream) taken limit pos bytes p b (m, d) h =
    let n = min (length chunk) (limit - taken) in
    let no_wrap : saturating_add taken n ≡ taken + n = omega arith in
    at_chunk origin taken limit pos bytes chunk (take_from stream (saturating_add taken n) limit)
      (leb limit taken) refl p m
      (λ bs e.
        let r =
          take_from-exact origin stream (saturating_add taken n) limit (pos + length chunk) bs
            (omega arith) b d e in
        (r.0, r.1 ∙ ap (λ k. limit - k) no_wrap))
      h
