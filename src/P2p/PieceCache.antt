-- ===== src/P2p/PieceCache.antt =====
-- src/p2p.rs: `VerifiedPieceCache`, the pieces kept in memory, at most 16 MiB of them.
pub mod Order
pub mod Queue
use video_proxy_server.Prelude.{
  ℕ, ◌+◌, ◌-◌, Option, none, some, List, [], ◌∷◌, ◌++◌, ltb, if◌then◌else◌, length, saturating_add,
}
use video_proxy_server.Map.{nat_eq, lookup, insert as insert_entry, remove}
use video_proxy_server.Storage.Disk.File.{Bytes}

abbrev pub max_verified_piece_cache_bytes : ℕ
max_verified_piece_cache_bytes = 16777216

pub record VerifiedPieceCache : Type 0 where
  pub entries : List (ℕ × Bytes)
  pub order : List ℕ
  pub bytes : ℕ

-- `VerifiedPieceCache::default`
abbrev pub empty_cache : VerifiedPieceCache
empty_cache = record { entries = []; order = []; bytes = 0 }

unfoldable pub get : ℕ → VerifiedPieceCache → Option Bytes
get index c = lookup index c.entries

abbrev pub size_of : Option Bytes → ℕ
size_of none = 0
size_of (some removed) = length removed

-- The loop that makes room for so many bytes.
unfoldable pub evict_pieces : ℕ → List ℕ → List (ℕ × Bytes) → ℕ → VerifiedPieceCache
evict_pieces size [] entries bytes = record { entries = entries; order = []; bytes = bytes }
evict_pieces size (oldest ∷ order) entries bytes =
    let rest =
      evict_pieces size order (remove oldest entries) (bytes - size_of (lookup oldest entries)) in
    if ltb max_verified_piece_cache_bytes (saturating_add bytes size)
    then rest
    else record { entries = entries; order = oldest ∷ order; bytes = bytes }

abbrev pub push_piece : ℕ → Bytes → VerifiedPieceCache → VerifiedPieceCache
push_piece index piece c = record {
  entries = insert_entry index piece c.entries;
  order = c.order ++ index ∷ [];
  bytes = c.bytes + length piece;
}

unfoldable pub insert_by :
    ℕ → Bytes → VerifiedPieceCache → Option Bytes → Bytes × VerifiedPieceCache
insert_by index piece c (some existing) = (existing, c)
insert_by index piece c none =
    if ltb max_verified_piece_cache_bytes (length piece)
    then (piece, c)
    else (piece, push_piece index piece (evict_pieces (length piece) c.order c.entries c.bytes))

-- The piece that the caller goes on with, and the cache.
unfoldable pub insert : ℕ → Bytes → VerifiedPieceCache → Bytes × VerifiedPieceCache
insert index piece c = insert_by index piece c (lookup index c.entries)
