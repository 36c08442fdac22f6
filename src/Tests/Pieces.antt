-- ===== src/Tests/Pieces.antt =====
-- Runs of the assembler of a torrent's description and of the cache of verified pieces.
use video_proxy_server.Prelude.{ℕ, ◌≡◌, ◌≤◌, refl, none, List, [], ◌∷◌, length}
use video_proxy_server.Map.{nat_eq, lookup}
use video_proxy_server.Error.{ok}
use video_proxy_server.Storage.Disk.File.{Bytes}
use video_proxy_server.Peer.Assembler.{
  MetadataExtensionResponse, piece_data, reject, MetadataAssembler, new, insert, insert_at, fill,
  all_some, flatten, finish,
}
use video_proxy_server.Peer.Assembler.Exact.{insert_all, finish-IsExact}
use video_proxy_server.P2p.PieceCache as PieceCache
use video_proxy_server.P2p.PieceCache.{get, max_verified_piece_cache_bytes}
use video_proxy_server.P2p.PieceCache.Queue.{enqueue_all, insert_all-refines}
use video_proxy_server.P2p.PieceCache.Order.{enqueue, total}
use video_proxy_server.P2p.PieceCache.Queue as Queue

abbrev length_digest : Bytes → Bytes
length_digest bytes = length bytes ∷ []

abbrev three : Bytes
three = 1 ∷ 2 ∷ 3 ∷ []

abbrev assembler : MetadataAssembler
assembler = record { info_hash = 3 ∷ []; total_size = 3; pieces = none ∷ [] }

-- A piece of a wrong length, a rejection and the piece.
abbrev responses : List MetadataExtensionResponse
responses = piece_data 0 3 (9 ∷ []) ∷ reject 0 ∷ piece_data 0 3 three ∷ []

started : new (3 ∷ []) 3 ≡ ok assembler
unfolding new
started = refl

finished : finish length_digest (insert_all responses assembler) ≡ ok three
unfolding finish insert_all insert insert_at fill all_some flatten
finished = refl

finish-IsExact_example : (length three ≡ 3) × (length_digest three ≡ 3 ∷ [])
finish-IsExact_example =
    finish-IsExact length_digest (3 ∷ []) 3 assembler responses three started finished

abbrev pieces : List (ℕ × Bytes)
pieces = (2, three) ∷ (1, 7 ∷ []) ∷ []

insert_all-refines_example :
    (get 1 (Queue.insert_all pieces) ≡ lookup 1 (enqueue_all pieces))
    × ((PieceCache.insert 1 three (Queue.insert_all pieces)).0
        ≡ (enqueue 1 three (enqueue_all pieces)).0)
    × ((Queue.insert_all pieces).bytes ≡ total (enqueue_all pieces))
    × (total (enqueue_all pieces) ≤ max_verified_piece_cache_bytes)
insert_all-refines_example = insert_all-refines pieces 1 three
