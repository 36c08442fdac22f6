-- ===== src/Storage/Disk/File/Origin.antt =====
-- Bytes that come from a resource: `origin` gives the byte at each position of it.
use video_proxy_server.Prelude.{
  ℕ, zero, suc, ◌+◌, ◌≤◌, ◌<◌, ◌≡◌, refl, ap, ◌∙◌, some, [], ◌∷◌, ◌++◌, arith, length, get_elem?,
  take, drop,
}
use video_proxy_server.Storage.Disk.File.{Bytes, overlay, seek_overlay, write_at}

-- The bytes are those of the resource from a position on.
abbrev pub Matches : (ℕ → ℕ) → ℕ → Bytes → Type 0
Matches origin pos [] = Unit
Matches origin pos (b ∷ bytes) = (b ≡ origin pos) × Matches origin (suc pos) bytes

module _ (origin : ℕ → ℕ) where
  pub Matches-append :
      (xs ys : Bytes) (pos next : ℕ)
      → pos + length xs ≡ next
      → Matches origin pos xs
      → Matches origin next ys
      → Matches origin pos (xs ++ ys)
  Matches-append [] ys pos next e hx hy = let e' : next ≡ pos = omega arith in rw (← e') hy
  Matches-append (x ∷ xs) ys pos next e hx hy =
      (hx.0, Matches-append xs ys (suc pos) next (omega arith) hx.1 hy)

  pub Matches-take :
      (n : ℕ) (xs : Bytes) (pos : ℕ) → Matches origin pos xs → Matches origin pos (take n xs)
  Matches-take zero xs pos h = tt
  Matches-take (suc n) [] pos h = tt
  Matches-take (suc n) (x ∷ xs) pos h = (h.0, Matches-take n xs (suc pos) h.1)

  -- Writing bytes of the resource at their position keeps a byte that was right.
  overlay-keeps :
      (bytes file : Bytes) (pos i k : ℕ)
      → Matches origin pos bytes
      → pos + i ≡ k
      → get_elem? file i ≡ some (origin k)
      → get_elem? (overlay bytes file) i ≡ some (origin k)
  unfolding overlay
  overlay-keeps [] file pos i k m e h = h
  overlay-keeps (b ∷ bytes) [] pos i k m e h = cc
  overlay-keeps (b ∷ bytes) (x ∷ file) pos zero k m e h =
      let e' : pos ≡ k = omega arith in ap some m.0 ∙ ap (λ n. some (origin n)) e'
  overlay-keeps (b ∷ bytes) (x ∷ file) pos (suc i) k m e h =
      overlay-keeps bytes file (suc pos) i k m.1 (omega arith) h

  seek_overlay-keeps :
      (offset : ℕ) (bytes file : Bytes) (pos at i k : ℕ)
      → pos + offset ≡ at
      → Matches origin at bytes
      → pos + i ≡ k
      → get_elem? file i ≡ some (origin k)
      → get_elem? (seek_overlay offset bytes file) i ≡ some (origin k)
  unfolding seek_overlay
  seek_overlay-keeps zero bytes file pos at i k p m e h =
      overlay-keeps bytes file at i k m (omega arith) h
  seek_overlay-keeps (suc n) bytes [] pos at i k p m e h = cc
  seek_overlay-keeps (suc n) bytes (x ∷ file) pos at zero k p m e h = h
  seek_overlay-keeps (suc n) bytes (x ∷ file) pos at (suc i) k p m e h =
      seek_overlay-keeps n bytes file (suc pos) at i k (omega arith) m (omega arith) h

  pub write_at-keeps :
      (file : Bytes) (offset : ℕ) (bytes : Bytes) (i : ℕ)
      → Matches origin offset bytes
      → get_elem? file i ≡ some (origin i)
      → get_elem? (write_at file offset bytes) i ≡ some (origin i)
  unfolding write_at
  write_at-keeps file offset [] i m h = h
  write_at-keeps file offset (b ∷ bytes) i m h =
      seek_overlay-keeps offset (b ∷ bytes) file 0 offset i i (omega arith) m (omega arith) h

  -- What was written is there.
  overlay-new :
      (bytes file : Bytes) (pos i k : ℕ)
      → Matches origin pos bytes
      → pos + i ≡ k
      → i < length bytes
      → get_elem? (overlay bytes file) i ≡ some (origin k)
  unfolding overlay
  overlay-new [] file pos i k m e h = absurd (omega arith)
  overlay-new (b ∷ bytes) [] pos zero k m e h =
      let e' : pos ≡ k = omega arith in ap some m.0 ∙ ap (λ n. some (origin n)) e'
  overlay-new (b ∷ bytes) (x ∷ file) pos zero k m e h =
      let e' : pos ≡ k = omega arith in ap some m.0 ∙ ap (λ n. some (origin n)) e'
  overlay-new (b ∷ bytes) [] pos (suc i) k m e h =
      overlay-new bytes [] (suc pos) i k m.1 (omega arith) (omega arith)
  overlay-new (b ∷ bytes) (x ∷ file) pos (suc i) k m e h =
      overlay-new bytes file (suc pos) i k m.1 (omega arith) (omega arith)

  seek_overlay-new :
      (offset : ℕ) (bytes file : Bytes) (pos at i k : ℕ)
      → pos + offset ≡ at
      → Matches origin at bytes
      → pos + i ≡ k
      → offset ≤ i
      → i < offset + length bytes
      → get_elem? (seek_overlay offset bytes file) i ≡ some (origin k)
  unfolding seek_overlay
  seek_overlay-new zero bytes file pos at i k p m e lo hi =
      overlay-new bytes file at i k m (omega arith) (omega arith)
  seek_overlay-new (suc n) bytes file pos at zero k p m e lo hi = absurd (omega arith)
  seek_overlay-new (suc n) bytes [] pos at (suc i) k p m e lo hi =
      seek_overlay-new n bytes [] (suc pos) at i k (omega arith) m (omega arith) (omega arith)
        (omega arith)
  seek_overlay-new (suc n) bytes (x ∷ file) pos at (suc i) k p m e lo hi =
      seek_overlay-new n bytes file (suc pos) at i k (omega arith) m (omega arith) (omega arith)
        (omega arith)

  pub write_at-new :
      (file : Bytes) (offset : ℕ) (bytes : Bytes) (i : ℕ)
      → Matches origin offset bytes
      → offset ≤ i
      → i < offset + length bytes
      → get_elem? (write_at file offset bytes) i ≡ some (origin i)
  unfolding write_at
  write_at-new file offset [] i m lo hi = absurd (omega arith)
  write_at-new file offset (b ∷ bytes) i m lo hi =
      seek_overlay-new offset (b ∷ bytes) file 0 offset i i (omega arith) m (omega arith) lo hi

  -- The bytes from a position on are those of the resource, if each of them is.
  first_byte : {x y : ℕ} → some x ≡ some y → x ≡ y
  first_byte h = cc

  Matches-take_all :
      (n : ℕ) (file : Bytes) (pos : ℕ)
      → ((i k : ℕ) → i < n → pos + i ≡ k → get_elem? file i ≡ some (origin k))
      → Matches origin pos (take n file) × (length (take n file) ≡ n)
  Matches-take_all zero file pos all = (tt, refl)
  Matches-take_all (suc n) [] pos all = cc (all 0 pos (omega arith) (omega arith))
  Matches-take_all (suc n) (x ∷ file) pos all =
      let (m, l) =
        Matches-take_all n file (suc pos) (λ i k h e. all (suc i) k (omega arith) (omega arith)) in
      ((first_byte (all 0 pos (omega arith) (omega arith)), m), ap suc l)

  Matches-slice_from :
      (n base : ℕ) (file : Bytes) (pos at : ℕ)
      → pos + base ≡ at
      → ((i k : ℕ) → base ≤ i → i < base + n → pos + i ≡ k → get_elem? file i ≡ some (origin k))
      → Matches origin at (take n (drop base file)) × (length (take n (drop base file)) ≡ n)
  Matches-slice_from n zero file pos at e all =
      let e' : pos ≡ at = omega arith in
      Matches-take_all n file at (λ i k h q. all i k (omega arith) (omega arith) (omega arith))
  Matches-slice_from zero (suc base) [] pos at e all = (tt, refl)
  Matches-slice_from (suc n) (suc base) [] pos at e all =
      cc (all (suc base) at (omega arith) (omega arith) e)
  Matches-slice_from n (suc base) (x ∷ file) pos at e all =
      Matches-slice_from n base file (suc pos) at (omega arith)
        (λ i k lo hi q. all (suc i) k (omega arith) (omega arith) (omega arith))

  pub Matches-slice :
      (n base : ℕ) (file : Bytes)
      → ((i : ℕ) → base ≤ i → i < base + n → get_elem? file i ≡ some (origin i))
      → Matches origin base (take n (drop base file)) × (length (take n (drop base file)) ≡ n)
  Matches-slice n base file all =
      Matches-slice_from n base file 0 base (omega arith)
        (λ i k lo hi e. let e' : i ≡ k = omega arith in rw (← e') (all i lo hi))
