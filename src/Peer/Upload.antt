-- ===== src/Peer/Upload.antt =====
-- src/p2p_network.rs: `UploadSession` and `serve_upload_requests`, what is sent to other peers and
-- how much of it.

pub mod Serving
pub mod Quota
use video_proxy_server.Prelude.{
  ℕ, zero, suc, ◌+◌, ◌-◌, Bool, true, false, ◌&&◌, ◌||◌, not, Option, none, some, List, [], ◌∷◌,
  ◌++◌, leb, ltb, ◌==◌, if◌then◌else◌, length, take, drop, get_elem?, checked_add, u64_max,
}
use video_proxy_server.Error.{ProxyError, Result, ok, err, ok_or, refused}
use video_proxy_server.Exec.{Exec, continue, ◌>>=◌, ◌>>◌, pure, raise, lift, gets, modify, attempt}
use video_proxy_server.Storage.Disk.File.{Bytes}
use video_proxy_server.Peer.Word.{u32_max}
use video_proxy_server.Peer.Message.{
  PeerMessage, keep_alive, unchoke, interested, not_interested, request, piece, cancel,
}
use video_proxy_server.Peer.Torrent.{TorrentMetadata, torrent_piece_length}
use video_proxy_server.Peer.Store.{PieceFiles, FileErrors, load}
use video_proxy_server.Peer.Connection.{Connection, send, validate_block_request}

pub record UploadSession : Type 0 where
  pub authorized : Bool
  pub max_bytes : ℕ
  pub uploaded : ℕ

unfoldable pub new : Bool → ℕ → Result UploadSession
new authorized max_bytes =
    if max_bytes == 0
    then err (refused "upload quota must be positive")
    else ok (record { authorized = authorized; max_bytes = max_bytes; uploaded = 0 })

-- The session, the files of the store and the connection that the blocks are sent on.
pub record Seeder : Type 0 where
  pub upload : UploadSession
  pub files : PieceFiles
  pub connection : Connection

abbrev pub on_files {ℓ} : {A : Type ℓ} → Exec PieceFiles A → Exec Seeder A
on_files m s = let (r, f) = m s.files in (r, record s { files = f })

abbrev pub on_connection {ℓ} : {A : Type ℓ} → Exec Connection A → Exec Seeder A
on_connection m s = let (r, c) = m s.connection in (r, record s { connection = c })

-- The connection when a message has been received.
abbrev pub heard : List (Result PeerMessage) → Seeder → Seeder
heard rest s = record s { connection = record s.connection { inbox = rest } }

-- `u32::checked_add`
abbrev pub checked_add_u32 : ℕ → ℕ → Option ℕ
checked_add_u32 a b = if leb (a + b) u32_max then some (a + b) else none

-- `piece.get(begin..end)`
abbrev pub slice : ℕ → ℕ → Bytes → Option Bytes
slice begin end bytes =
    if leb begin end && leb end (length bytes)
    then some (take (end - begin) (drop begin bytes))
    else none

module _ (digest : Bytes → Bytes) (env : ℕ → FileErrors) (metadata : TorrentMetadata) where
  -- The part of `serve_block` that reads the block, given its end and the new total.
  unfoldable pub read_block : ℕ → ℕ → ℕ → ℕ → Exec Seeder Bytes
  read_block index begin end next_total = do
    hash ←
        lift
          (ok_or (get_elem? metadata.piece_sha1 index) (refused "upload piece index out of range"))
    found ← on_files (load digest (env index) index hash)
    bytes ← lift (ok_or found (refused "upload piece is unavailable"))
    block ← lift (ok_or (slice begin end bytes) (refused "upload block range is invalid"))
    modify (λ (s : Seeder). record s { upload = record s.upload { uploaded = next_total } })
    pure block

  unfoldable pub serve_block : ℕ → ℕ → ℕ → Exec Seeder Bytes
  serve_block index begin size = do
    session ← gets (λ (s : Seeder). s.upload)
    attempt
        (if not session.authorized then some (refused "torrent upload is not authorized") else none)
    lift (validate_block_request begin size)
    piece_length ← lift (torrent_piece_length metadata index)
    end ← lift (ok_or (checked_add_u32 begin size) (refused "upload block range overflow"))
    attempt (if ltb piece_length end then some (refused "upload block exceeds piece") else none)
    next_total ← lift (ok_or (checked_add session.uploaded size) (refused "upload quota overflow"))
    attempt
        (if ltb session.max_bytes next_total then some (refused "upload quota exceeded") else none)
    read_block index begin end next_total

  unfoldable pub answer : ℕ → ℕ → ℕ → Exec Seeder (Unit {0})
  answer index begin size = do
    block ← serve_block index begin size
    on_connection (send (piece index begin block))

  -- The loop, over what the coming calls of `receive` return, with so many requests left to serve.
  unfoldable pub serve_requests : ℕ → ℕ → List (Result PeerMessage) → Exec Seeder ℕ
  serve_requests served zero inbox s = (ok served, s)
  serve_requests served (suc left) [] s = (err s.connection.silence, s)
  serve_requests served (suc left) (err e ∷ rest) s = (err e, heard rest s)
  serve_requests served (suc left) (ok (request index begin size) ∷ rest) s =
      (answer index begin size >> serve_requests (served + 1) left rest) (heard rest s)
  serve_requests served (suc left) (ok (cancel _ _ _) ∷ rest) s =
      serve_requests served (suc left) rest (heard rest s)
  serve_requests served (suc left) (ok keep_alive ∷ rest) s =
      serve_requests served (suc left) rest (heard rest s)
  serve_requests served (suc left) (ok interested ∷ rest) s =
      serve_requests served (suc left) rest (heard rest s)
  serve_requests served (suc left) (ok not_interested ∷ rest) s = (ok served, heard rest s)
  serve_requests served (suc left) (ok _ ∷ rest) s =
      (err (refused "unexpected message during upload session"), heard rest s)

  unfoldable pub serve_upload_requests : ℕ → Exec Seeder ℕ
  serve_upload_requests max_requests = do
    attempt (
        if max_requests == 0 || ltb 100000 max_requests
        then some (refused "invalid upload request limit")
        else none)
    on_connection (send unchoke)
    inbox ← gets (λ (s : Seeder). s.connection.inbox)
    serve_requests 0 max_requests inbox
