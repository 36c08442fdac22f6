-- ===== src/Peer/Assembler.antt =====
-- src/p2p_network.rs: `MetadataAssembler`, which puts the description of a torrent together from
-- the pieces that peers send. `Sha1::digest` is a parameter.
pub mod Exact
use video_proxy_server.Prelude.{
  ℕ, zero, suc, ◌+◌, ◌-◌, ◌*◌, ◌/◌, Bool, true, false, ◌&&◌, ◌||◌, not, Option, none, some, List,
  [], ◌∷◌, ◌++◌, leb, ltb, ◌==◌, if◌then◌else◌, length, get_elem?,
}
use video_proxy_server.Map.{nat_eq, list_eq, ◌=?◌}
use video_proxy_server.Error.{Result, ok, err, refused}
use video_proxy_server.Exec.{Exec, ◌>>=◌, ◌>>◌}
use video_proxy_server.Storage.Disk.File.{Bytes}
use video_proxy_server.Peer.Scheduler.{replicate, set}

pub data MetadataExtensionResponse : Type 0 where
  piece_data : ℕ → ℕ → Bytes → MetadataExtensionResponse
  reject : ℕ → MetadataExtensionResponse

pub record MetadataAssembler : Type 0 where
  pub info_hash : Bytes
  pub total_size : ℕ
  pub pieces : List (Option Bytes)

abbrev pub metadata_piece_size : ℕ
metadata_piece_size = 16384

unfoldable pub new : Bytes → ℕ → Result MetadataAssembler
new info_hash total_size =
    if total_size == 0 || ltb 4194304 total_size
    then err (refused "invalid metadata size")
    else ok (record {
      info_hash = info_hash;
      total_size = total_size;
      pieces = replicate ((total_size + 16383) / metadata_piece_size) none;
    })

-- The length that the piece at `index` must have.
abbrev pub expected_size : MetadataAssembler → ℕ → ℕ
expected_size a index =
    if index + 1 == length a.pieces
    then a.total_size - index * metadata_piece_size
    else metadata_piece_size

unfoldable pub all_some : List (Option Bytes) → Bool
all_some [] = true
all_some (none ∷ pieces) = false
all_some (some bytes ∷ pieces) = all_some pieces

-- What is done by the slot that the index names, if there is one, and by what it holds.
unfoldable pub fill : MetadataAssembler → ℕ → Bytes → Option Bytes → Result Bool × MetadataAssembler
fill a index bytes (some existing) =
    if not (existing =? bytes)
    then (err (refused "metadata piece changed"), a)
    else (ok (all_some a.pieces), a)
fill a index bytes none =
    let pieces = set a.pieces index (some bytes) in
    (ok (all_some pieces), record a { pieces = pieces })

unfoldable pub insert_at :
    MetadataAssembler → ℕ → Bytes → Option (Option Bytes) → Result Bool × MetadataAssembler
insert_at a index bytes none = (err (refused "metadata piece index out of range"), a)
insert_at a index bytes (some slot) =
    if not (length bytes == expected_size a index)
    then (err (refused "metadata piece has wrong length"), a)
    else fill a index bytes slot

unfoldable pub insert : MetadataExtensionResponse → Exec MetadataAssembler Bool
insert (reject piece) a = (err (refused "metadata piece was rejected"), a)
insert (piece_data index total_size bytes) a =
    if not (total_size == a.total_size)
    then (err (refused "metadata total size changed"), a)
    else insert_at a index bytes (get_elem? a.pieces index)

unfoldable pub flatten : List (Option Bytes) → Bytes
flatten [] = []
flatten (none ∷ pieces) = flatten pieces
flatten (some bytes ∷ pieces) = bytes ++ flatten pieces

module _ (digest : Bytes → Bytes) where
  unfoldable pub finish : MetadataAssembler → Result Bytes
  finish a =
      let metadata = flatten a.pieces in
      if not (all_some a.pieces)
      then err (refused "metadata is incomplete")
      else if not (digest metadata =? a.info_hash)
      then err (refused "metadata InfoHash mismatch")
      else ok metadata
