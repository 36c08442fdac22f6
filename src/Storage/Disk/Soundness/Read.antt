-- ===== src/Storage/Disk/Soundness/Read.antt =====
-- What a read streams, from a cache that is truthful.
use video_proxy_server.Prelude.{
  ℕ, zero, suc, ◌+◌, ◌-◌, min, ◌≤◌, ◌<◌, String, ◌≡◌, ◌⊎◌, refl, sym, ap, ◌∙◌, inl, inr, Bool, true,
  false, ◌&&◌, Option, none, some, List, [], ◌∷◌, ◌++◌, arith, get_elem?, length, leb, ◌==◌,
  Bool-cases, take, drop, take-append-take, get_elem?-lt, length-drop,
}
use video_proxy_server.Map.{nat_eq, list_eq}
use video_proxy_server.Error.{Result, ok, err, ProxyError}
use video_proxy_server.Exec.{◌>>=◌, ◌>>◌, attempt, lift, pure}
use video_proxy_server.Exec.Keeps.{Keeps-bind, Keeps-attempt}
use video_proxy_server.Range.{open_ended, range_length}
use video_proxy_server.Storage.Ranges.Query.{is_covered_iff}
use video_proxy_server.Storage.Disk.File.{Bytes, content}
use video_proxy_server.Storage.Disk.File.Origin.{Matches, Matches-slice}
use video_proxy_server.Storage.Disk.Metadata.{RangeMetadata}
use video_proxy_server.Storage.Disk.Store.{System, Env, Disk, get_file_path, with_metadata}
use video_proxy_server.Storage.Disk.Read.{
  read_stream, covers_to, check_range, locate, stream_file, read,
}
use video_proxy_server.Storage.Disk.Soundness.{IsSound}
use video_proxy_server.Storage.Disk.Soundness.Metadata.{
  with_metadata-Holds, with_metadata-data_files,
}

-- What the reader of a stream has in the end: all the bytes, or the first error.
abbrev pub onto {ℓ} : {A : Type ℓ} → List A → Result (List A) → Result (List A)
onto xs (ok ys) = ok (xs ++ ys)
onto xs (err e) = err e

unfoldable pub collect : List (Result Bytes) → Result Bytes
collect [] = ok []
collect (ok chunk ∷ stream) = onto chunk (collect stream)
collect (err e ∷ stream) = err e

abbrev pub Outcome : (ℕ → Result ℕ) → Bytes → Result Bytes → Type 0
Outcome grants bytes r =
    (r ≡ ok bytes) ⊎ ((e : ProxyError) × (i : ℕ) × (r ≡ err e) × (grants i ≡ err e))

Outcome-onto :
    (grants : ℕ → Result ℕ) (rest : Bytes) (n m k : ℕ) (r : Result Bytes)
    → n + m ≡ k
    → Outcome grants (take m (drop n rest)) r
    → Outcome grants (take k rest) (onto (take n rest) r)
Outcome-onto grants rest n m k r e (inl p) = inl (rw p (ap ok (take-append-take n m k rest e)))
Outcome-onto grants rest n m k r e (inr (f, i, p, q)) = inr (f, i, rw p, q)

ok_eq {ℓ} : {A : Type ℓ} {x y : A} → ok x ≡ ok y → x ≡ y
ok_eq h = cc

Result-cases {ℓ} :
    {A : Type ℓ} (r : Result A) → ((a : A) × (r ≡ ok a)) ⊎ ((e : ProxyError) × (r ≡ err e))
Result-cases (ok a) = inl (a, refl)
Result-cases (err e) = inr (e, refl)

read_stream-Outcome :
    (fuel : ℕ) (grants : ℕ → Result ℕ) (rest : Bytes) (chunk_size bytes_read total left : ℕ)
    → total - bytes_read ≡ left
    → left < fuel
    → left ≤ length rest
    → 0 < chunk_size
    → Outcome grants
        (take left rest)
        (collect (read_stream fuel grants rest chunk_size bytes_read total))
unfolding read_stream collect
read_stream-Outcome zero grants rest chunk_size bytes_read total left e f g c = absurd (omega arith)
read_stream-Outcome (suc fuel) grants rest chunk_size bytes_read total zero e f g c =
    let done : leb total bytes_read ≡ true = ground arith in inl (rw done)
read_stream-Outcome (suc fuel) grants rest chunk_size bytes_read total (suc l) e f g c =
    let more : leb total bytes_read ≡ false = ground arith in
    elim (Result-cases (grants fuel)) [
      | inr (x, p) ↦ rw (more, p) (inr (x, fuel, refl, p))
      | inl (grant, p) ↦
          let n : ℕ = min (min chunk_size (total - bytes_read)) (min (length rest) (suc grant)) in
          let some_bytes : (n == 0) ≡ false = ground arith in
          rw (more, p, some_bytes)
            (Outcome-onto grants rest n (suc l - n) (suc l) _ (omega arith) (
              read_stream-Outcome fuel grants (drop n rest) chunk_size (bytes_read + n) total
                (suc l - n) (omega arith) (omega arith) (omega (arith, length-drop n rest)) c))
    ]

and_left : (a b : Bool) → (a && b) ≡ true → a ≡ true
and_left a b h = ground arith

stream_inversion {ℓ κ} :
    {S : Type 0} {A : Type ℓ} {B : Type κ} (o p : Option ProxyError) (r : Result A) (f : A → B)
    (d : S) (b : B)
    → ((attempt o >> (lift r >>= λ a. attempt p >> pure (f a))) d).0 ≡ ok b
    → (a : A) × (r ≡ ok a) × (f a ≡ b)
stream_inversion (some e) p r f d b h = cc
stream_inversion none p (err e) f d b h = cc
stream_inversion none (some e) (ok a) f d b h = cc
stream_inversion none none (ok a) f d b h = (a, refl, ok_eq h)

covers_to_keeps {ℓ} :
    {sys : System} (P : Disk sys → Type ℓ) (env : Env) (j : String) (start : ℕ) (o : Option ℕ)
    (d : Disk sys)
    → ((A : Type 0) (view : RangeMetadata → A) (d : Disk sys)
        → P d
        → P (with_metadata sys env j view d).1)
    → P d
    → P (covers_to sys env j start (o, d)).1
covers_to_keeps P env j start none d keep h = h
covers_to_keeps P env j start (some end) d keep h = keep Bool _ d h

module _ (sys : System) where
  -- What a look at metadata keeps, a query keeps.
  check_range_keeps {ℓ} :
      (P : Disk sys → Type ℓ) (env : Env) (j : String) (range : ℕ × ℕ) (d : Disk sys)
      → ((A : Type 0) (view : RangeMetadata → A) (d : Disk sys)
          → P d
          → P (with_metadata sys env j view d).1)
      → P d
      → P (check_range sys env j range d).1
  unfolding check_range
  check_range_keeps P env j (start, end) d keep h = elim (Bool-cases (end == open_ended)) [
    | inr closed ↦ rw closed (keep Bool _ d h)
    | inl whole ↦ rw whole (covers_to_keeps P env j start _ _ keep (keep (Option ℕ) _ d h))
  ]

  stream_file_keeps {ℓ} :
      (P : Disk sys → Type ℓ) (env : Env) (grants : ℕ → Result ℕ) (chunk_size : ℕ) (range : ℕ × ℕ)
      (file : Option Bytes) (d : Disk sys)
      → P d
      → P (stream_file sys env grants chunk_size range file d).1
  unfolding stream_file
  stream_file_keeps P env grants chunk_size range file d h = Keeps-attempt P env.open_file _ d h (
      Keeps-bind P (lift (locate sys range file)) _ d h
        (λ located _. Keeps-attempt P env.seek _ d h h))

  pub read_keeps {ℓ} :
      (P : Disk sys → Type ℓ) (env : Env) (grants : ℕ → Result ℕ) (chunk_size : ℕ) (j : String)
      (range : ℕ × ℕ) (d : Disk sys)
      → ((A : Type 0) (view : RangeMetadata → A) (d : Disk sys)
          → P d
          → P (with_metadata sys env j view d).1)
      → P d
      → P (read sys env grants chunk_size j range d).1
  unfolding read
  read_keeps P env grants chunk_size j range d keep h =
      let h' = check_range_keeps P env j range d keep h in
      elim (Bool-cases (check_range sys env j range d).0) [
        | inr miss ↦ rw miss h'
        | inl hit ↦
            rw hit (
              stream_file_keeps P env grants chunk_size range _ (check_range sys env j range d).1
                h')
      ]

  locate_inside :
      (start end : ℕ) (file : Bytes)
      → start ≤ end
      → end < open_ended
      → end < length file
      → locate sys (start, end) (some file) ≡ ok (end - start + 1, drop start file)
  unfolding locate range_length
  locate_inside start end file p q inside = ground arith

module _ (sys : System) (key : String) (origin : ℕ → ℕ) where
  -- A closed range that is reported as cached has every byte in the file.
  check_range-bytes :
      (env : Env) (start end : ℕ) (d : Disk sys)
      → IsSound sys key origin d
      → start ≤ end
      → end < open_ended
      → (check_range sys env key (start, end) d).0 ≡ true
      → (b : ℕ) → start ≤ b
      → b ≤ end
      → get_elem? (content (d.data_files (get_file_path sys key))) b ≡ some (origin b)
  unfolding check_range
  check_range-bytes env start end d s p q h b lo hi =
      let closed : (end == open_ended) ≡ false = ground arith in
      let covered = and_left _ _ (rw closed at h) in
      let (m, yes_to_all, holds) = with_metadata-Holds sys key origin env _ d s covered in
      holds.bytes b ((is_covered_iff m.completed start end holds.table p).0 yes_to_all b lo hi)

  -- A stream that is made holds the bytes of the resource, for a closed range whose bytes are there.
  stream_file-Outcome :
      (env : Env) (grants : ℕ → Result ℕ) (chunk_size start end : ℕ) (file : Option Bytes)
      (d : Disk sys) (chunks : List (Result Bytes))
      → start ≤ end
      → end < open_ended
      → 0 < chunk_size
      → ((b : ℕ) → start ≤ b → b ≤ end → get_elem? (content file) b ≡ some (origin b))
      → (stream_file sys env grants chunk_size (start, end) file d).0 ≡ ok chunks
      → (bytes : Bytes) × Matches origin start bytes
        × (length bytes ≡ end - start + 1)
        × Outcome grants bytes (collect chunks)
  unfolding stream_file
  stream_file-Outcome env grants chunk_size start end none d chunks p q c all h =
      absurd (omega (arith, get_elem?-lt start [] _ (all start (omega arith) p)))
  stream_file-Outcome env grants chunk_size start end (some file) d chunks p q c all h =
      let inside = get_elem?-lt end file _ (all end p (omega arith)) in
      let (located, l, made) =
        stream_inversion env.open_file env.seek (locate sys (start, end) (some file)) _ d chunks
          h in
      let same = ok_eq (sym (locate_inside sys start end file p q inside) ∙ l) in
      let n : ℕ = end - start + 1 in
      let (m, long) = Matches-slice origin n start file (λ b lo hi. all b lo (omega arith)) in
      (
        take n (drop start file),
        m,
        long,
        rw (← made, ← same)
            (read_stream-Outcome (suc n) grants (drop start file) chunk_size 0 n n (omega arith)
              (omega arith) (omega (arith, length-drop start file)) c),
      )

check_range-data_files :
    (sys : System) (env : Env) (j : String) (range : ℕ × ℕ) (d : Disk sys)
    → (check_range sys env j range d).1.data_files ≡ d.data_files
check_range-data_files sys env j range d =
    check_range_keeps sys (λ (e : Disk sys). e.data_files ≡ d.data_files) env j range d
      (λ A view e h. with_metadata-data_files sys env j view e ∙ h) refl

-- From a cache that is truthful, a read of a closed range that succeeds streams exactly the bytes
-- of the resource in that range, in however many chunks: what its reader has in the end is all of
-- them, or else an error of the file system.
pub read_exact :
    (sys : System) (key : String) (origin : ℕ → ℕ) (env : Env) (grants : ℕ → Result ℕ)
    (chunk_size start end : ℕ) (d : Disk sys) (chunks : List (Result Bytes))
    → IsSound sys key origin d
    → start ≤ end
    → end < open_ended
    → 0 < chunk_size
    → (read sys env grants chunk_size key (start, end) d).0 ≡ ok chunks
    → (bytes : Bytes) × Matches origin start bytes
      × (length bytes ≡ end - start + 1)
      × Outcome grants bytes (collect chunks)
unfolding read
read_exact sys key origin env grants chunk_size start end d chunks s p q c h =
    elim (Bool-cases (check_range sys env key (start, end) d).0) [
      | inr miss ↦ cc (rw miss at h)
      | inl hit ↦
          let d' = (check_range sys env key (start, end) d).1 in
          stream_file-Outcome sys key origin env grants chunk_size start end
            (d'.data_files (get_file_path sys key)) d' chunks p q c
            (λ b lo hi.
              rw (check_range-data_files sys env key (start, end) d)
                (check_range-bytes sys key origin env start end d s p q hit b lo hi))
            (rw hit at h)
    ]
