-- ===== src/P2p/PieceCache/Queue.antt =====
-- src/p2p.rs: the cache of verified pieces is a queue of pieces with a bound on its bytes.
use video_proxy_server.Prelude.{
  ℕ, ◌+◌, ◌≤◌, ◌≡◌, refl, ap, sym, ◌∙◌, inl, inr, Option, none, some, List, [], ◌∷◌, ◌++◌, ltb,
  ==_iff, length, arith, Bool-cases,
}
use video_proxy_server.Map.{nat_eq, ◌=?◌, lookup, lookup-insert}
use video_proxy_server.Storage.Disk.File.{Bytes}
use video_proxy_server.P2p.PieceCache.{
  max_verified_piece_cache_bytes, VerifiedPieceCache, empty_cache, get, evict_pieces, push_piece,
  insert_by, insert,
}
use video_proxy_server.P2p.PieceCache.Order.{
  PieceQueue, total, indices, shorten, enqueue_by, enqueue, Represents, evict_pieces-Represents,
  shorten-none, lookup-append_self, lookup-append_other, total-append, indices-append,
  IsDistinct-append,
}

push_piece-Represents :
    (index : ℕ) (piece : Bytes) (c : VerifiedPieceCache) (queue : PieceQueue)
    → Represents c queue
    → lookup index queue ≡ none
    → total queue + length piece ≤ max_verified_piece_cache_bytes
    → Represents (push_piece index piece c) (queue ++ (index, piece) ∷ [])
push_piece-Represents index piece c queue r absent room = record {
  same = λ j. lookup-insert index j piece c.entries ∙ elim (Bool-cases (index =? j)) [
    | inl e ↦
        let e' : index ≡ j = (==_iff index j).0 e in
        rw e (
          sym (
            ap (λ i. lookup i (queue ++ (index, piece) ∷ [])) (sym e')
            ∙ lookup-append_self index piece queue absent))
    | inr e ↦ rw e (r.same j ∙ sym (lookup-append_other index j piece queue e))
  ];
  ordered = ap (λ xs. xs ++ index ∷ []) r.ordered ∙ sym (indices-append index piece queue);
  counted = omega (arith, total-append index piece queue, r.counted);
  distinct = IsDistinct-append index piece queue r.distinct absent;
  bounded = omega (arith, total-append index piece queue);
}

insert_by-Represents :
    (index : ℕ) (piece : Bytes) (c : VerifiedPieceCache) (queue : PieceQueue) (found : Option Bytes)
    → Represents c queue
    → lookup index queue ≡ found
    → ((insert_by index piece c found).0 ≡ (enqueue_by index piece queue found).0)
      × Represents (insert_by index piece c found).1 (enqueue_by index piece queue found).1
unfolding insert_by
insert_by-Represents index piece c queue (some existing) r h = (refl, r)
insert_by-Represents index piece c queue none r h =
    elim (Bool-cases (ltb max_verified_piece_cache_bytes (length piece))) [
      | inl large ↦ rw large (refl, r)
      | inr small ↦
          let start : Represents
              (record { entries = c.entries; order = indices queue; bytes = c.bytes }) queue =
            record {
              same = r.same;
              ordered = refl;
              counted = r.counted;
              distinct = r.distinct;
              bounded = r.bounded;
            } in
          let (kept, room) =
            evict_pieces-Represents (length piece) queue c.entries c.bytes (ground arith) start in
          let e : evict_pieces (length piece) c.order c.entries c.bytes
              ≡ evict_pieces (length piece) (indices queue) c.entries c.bytes =
            ap (λ o. evict_pieces (length piece) o c.entries c.bytes) r.ordered in
          rw (small, e)
            (
              refl,
              push_piece-Represents index piece
                  (evict_pieces (length piece) (indices queue) c.entries c.bytes)
                  (shorten (length piece) queue) kept (shorten-none (length piece) index queue h)
                  room,
            )
    ]

insert-Represents :
    (index : ℕ) (piece : Bytes) (c : VerifiedPieceCache) (queue : PieceQueue)
    → Represents c queue
    → ((insert index piece c).0 ≡ (enqueue index piece queue).0)
      × Represents (insert index piece c).1 (enqueue index piece queue).1
unfolding insert enqueue
insert-Represents index piece c queue r =
    rw (r.same index) (insert_by-Represents index piece c queue (lookup index queue) r refl)

-- Any pieces put into an empty cache, and into an empty queue.
unfoldable pub insert_all : List (ℕ × Bytes) → VerifiedPieceCache
insert_all [] = empty_cache
insert_all ((index, piece) ∷ pieces) = (insert index piece (insert_all pieces)).1

unfoldable pub enqueue_all : List (ℕ × Bytes) → PieceQueue
enqueue_all [] = []
enqueue_all ((index, piece) ∷ pieces) = (enqueue index piece (enqueue_all pieces)).1

insert_all-Represents :
    (pieces : List (ℕ × Bytes)) → Represents (insert_all pieces) (enqueue_all pieces)
unfolding insert_all enqueue_all
insert_all-Represents [] = record {
  same = λ j. refl;
  ordered = refl;
  counted = refl;
  distinct = tt;
  bounded = omega arith;
}
insert_all-Represents ((index, piece) ∷ pieces) =
    (insert-Represents index piece (insert_all pieces) (enqueue_all pieces)
      (insert_all-Represents pieces)).1

-- The cache refines a queue of pieces that is shortened at its front before a piece is appended:
-- after any insertions, `get` finds what the queue holds, an insertion returns what the queue
-- returns, and the pieces held take at most 16 MiB, which is what the cache has counted.
pub insert_all-refines :
    (pieces : List (ℕ × Bytes)) (index : ℕ) (piece : Bytes)
    → (get index (insert_all pieces) ≡ lookup index (enqueue_all pieces))
      × ((insert index piece (insert_all pieces)).0 ≡ (enqueue index piece (enqueue_all pieces)).0)
      × ((insert_all pieces).bytes ≡ total (enqueue_all pieces))
      × (total (enqueue_all pieces) ≤ max_verified_piece_cache_bytes)
unfolding get
insert_all-refines pieces index piece =
    let r = insert_all-Represents pieces in
    (
      r.same index,
      (insert-Represents index piece (insert_all pieces) (enqueue_all pieces) r).0,
      r.counted,
      r.bounded,
    )
