-- ===== src/P2p/PieceCache/Order.antt =====
-- src/p2p.rs: a queue of pieces with a bound on its bytes, and what represents it.
use video_proxy_server.Prelude.{
  ℕ, ◌+◌, ◌-◌, ◌≤◌, ◌≡◌, refl, ap, sym, ◌∙◌, inl, inr, false, Option, none, some, List, [], ◌∷◌,
  ◌++◌, ltb, ==_iff, if◌then◌else◌, length, saturating_add, arith, Bool-cases,
}
use video_proxy_server.Map.{nat_eq, ◌=?◌, =?-refl, lookup, remove, lookup-remove}
use video_proxy_server.Storage.Disk.File.{Bytes}
use video_proxy_server.P2p.PieceCache.{
  max_verified_piece_cache_bytes, VerifiedPieceCache, size_of, evict_pieces,
}

-- The specification: pieces in the order of their insertion, each index once.
abbrev pub PieceQueue : Type 0
PieceQueue = List (ℕ × Bytes)

abbrev pub total : PieceQueue → ℕ
total [] = 0
total ((index, piece) ∷ queue) = length piece + total queue

abbrev pub indices : PieceQueue → List ℕ
indices [] = []
indices ((index, piece) ∷ queue) = index ∷ indices queue

-- The oldest pieces are given up until the new one fits.
unfoldable pub shorten : ℕ → PieceQueue → PieceQueue
shorten size [] = []
shorten size ((index, piece) ∷ queue) =
    let rest = shorten size queue in
    if ltb max_verified_piece_cache_bytes (total ((index, piece) ∷ queue) + size)
    then rest
    else (index, piece) ∷ queue

abbrev pub enqueue_by : ℕ → Bytes → PieceQueue → Option Bytes → Bytes × PieceQueue
enqueue_by index piece queue (some existing) = (existing, queue)
enqueue_by index piece queue none =
    if ltb max_verified_piece_cache_bytes (length piece)
    then (piece, queue)
    else (piece, shorten (length piece) queue ++ (index, piece) ∷ [])

unfoldable pub enqueue : ℕ → Bytes → PieceQueue → Bytes × PieceQueue
enqueue index piece queue = enqueue_by index piece queue (lookup index queue)

abbrev pub IsDistinct : PieceQueue → Type 0
IsDistinct [] = Unit
IsDistinct ((index, piece) ∷ queue) = (lookup index queue ≡ none) × IsDistinct queue

-- The map holds what the queue holds, the order is that of the queue, the count is its bytes, which
-- are within the bound.
pub record Represents (c : VerifiedPieceCache) (queue : PieceQueue) : Type 0 where
  pub same : (j : ℕ) → lookup j c.entries ≡ lookup j queue
  pub ordered : c.order ≡ indices queue
  pub counted : c.bytes ≡ total queue
  pub distinct : IsDistinct queue
  pub bounded : total queue ≤ max_verified_piece_cache_bytes

lookup-head :
    (index : ℕ) (piece : Bytes) (queue : PieceQueue)
    → lookup index ((index, piece) ∷ queue) ≡ some piece
unfolding lookup
lookup-head index piece queue = rw (=?-refl index) refl

tail_none :
    (index j : ℕ) (piece : Bytes) (queue : PieceQueue)
    → lookup j ((index, piece) ∷ queue) ≡ none
    → lookup j queue ≡ none
unfolding lookup
tail_none index j piece queue h = ground arith

-- Without the oldest piece.
remove_same :
    (entries : List (ℕ × Bytes)) (index : ℕ) (piece : Bytes) (queue : PieceQueue)
    → ((j : ℕ) → lookup j entries ≡ lookup j ((index, piece) ∷ queue))
    → lookup index queue ≡ none
    → (j : ℕ) → lookup j (remove index entries) ≡ lookup j queue
remove_same entries index piece queue h n j =
    lookup-remove index j entries ∙ elim (Bool-cases (index =? j)) [
      | inl e ↦
          let e' : index ≡ j = (==_iff index j).0 e in
          rw e (sym (ap (λ i. lookup i queue) (sym e') ∙ n))
      | inr e ↦ rw e (h j ∙ unfold lookup in rw e refl)
    ]

pub evict_pieces-Represents :
    (size : ℕ) (queue : PieceQueue) (entries : List (ℕ × Bytes)) (bytes : ℕ)
    → size ≤ max_verified_piece_cache_bytes
    → Represents (record { entries = entries; order = indices queue; bytes = bytes }) queue
    → Represents (evict_pieces size (indices queue) entries bytes) (shorten size queue)
      × (total (shorten size queue) + size ≤ max_verified_piece_cache_bytes)
unfolding evict_pieces shorten
evict_pieces-Represents size [] entries bytes fits r = (r, omega arith)
evict_pieces-Represents size ((index, piece) ∷ queue) entries bytes fits r =
    let n : ℕ = length piece + total queue in
    let c : bytes ≡ n = r.counted in
    let small : n ≤ max_verified_piece_cache_bytes = r.bounded in
    let found : size_of (lookup index entries) ≡ length piece =
      ap size_of (r.same index ∙ lookup-head index piece queue) in
    let sum : saturating_add bytes size ≡ n + size = omega arith in
    elim (Bool-cases (ltb max_verified_piece_cache_bytes (n + size))) [
      | inl full ↦
          rw (sum, full)
            (evict_pieces-Represents size queue (remove index entries)
              (bytes - size_of (lookup index entries)) fits
              (record {
                same = remove_same entries index piece queue r.same r.distinct.0;
                ordered = refl;
                counted = omega arith;
                distinct = r.distinct.1;
                bounded = omega arith;
              }))
      | inr room ↦ rw (sum, room) (r, ground arith)
    ]

pub shorten-none :
    (size j : ℕ) (queue : PieceQueue) → lookup j queue ≡ none → lookup j (shorten size queue) ≡ none
unfolding shorten
shorten-none size j [] h = h
shorten-none size j ((index, piece) ∷ queue) h =
    elim (Bool-cases (ltb max_verified_piece_cache_bytes (total ((index, piece) ∷ queue) + size))) [
      | inl full ↦ rw full (shorten-none size j queue (tail_none index j piece queue h))
      | inr room ↦ rw room h
    ]

pub lookup-append_self :
    (index : ℕ) (piece : Bytes) (queue : PieceQueue)
    → lookup index queue ≡ none
    → lookup index (queue ++ (index, piece) ∷ []) ≡ some piece
unfolding lookup
lookup-append_self index piece [] h = rw (=?-refl index) refl
lookup-append_self index piece ((i, p) ∷ queue) h =
    ground (arith, lookup-append_self index piece queue)

pub lookup-append_other :
    (index j : ℕ) (piece : Bytes) (queue : PieceQueue)
    → (index =? j) ≡ false
    → lookup j (queue ++ (index, piece) ∷ []) ≡ lookup j queue
unfolding lookup
lookup-append_other index j piece [] h = rw h refl
lookup-append_other index j piece ((i, p) ∷ queue) h =
    ground (arith, lookup-append_other index j piece queue h)

pub total-append :
    (index : ℕ) (piece : Bytes) (queue : PieceQueue)
    → total (queue ++ (index, piece) ∷ []) ≡ total queue + length piece
total-append index piece [] = omega arith
total-append index piece ((i, p) ∷ queue) = omega (arith, total-append index piece queue)

pub indices-append :
    (index : ℕ) (piece : Bytes) (queue : PieceQueue)
    → indices (queue ++ (index, piece) ∷ []) ≡ indices queue ++ index ∷ []
indices-append index piece [] = refl
indices-append index piece ((i, p) ∷ queue) = ap (λ xs. i ∷ xs) (indices-append index piece queue)

pub IsDistinct-append :
    (index : ℕ) (piece : Bytes) (queue : PieceQueue)
    → IsDistinct queue
    → lookup index queue ≡ none
    → IsDistinct (queue ++ (index, piece) ∷ [])
IsDistinct-append index piece [] d h = (unfold lookup in refl, tt)
IsDistinct-append index piece ((i, p) ∷ queue) (fresh, d) h =
    let apart : (index =? i) ≡ false = unfold lookup in ground arith in
    (
      lookup-append_other index i piece queue apart ∙ fresh,
      IsDistinct-append index piece queue d (tail_none i index p queue h),
    )
