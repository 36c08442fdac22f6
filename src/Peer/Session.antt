-- ===== src/Peer/Session.antt =====
-- src/p2p_network.rs: `download_next_piece` and `download_from_peer`, the download from one peer.
pub mod Fetching
pub mod Settled
pub mod Safety
use video_proxy_server.Prelude.{
  ℕ, zero, suc, ◌+◌, Bool, true, false, ◌||◌, Option, none, some, List, [], ◌∷◌, ltb, ◌==◌,
  if◌then◌else◌, get_elem?,
}
use video_proxy_server.Error.{ProxyError, Result, ok, err, ok_or, refused}
use video_proxy_server.Exec.{Exec, continue, ◌>>=◌, ◌>>◌, pure, lift, attempt}
use video_proxy_server.Storage.Disk.File.{Bytes}
use video_proxy_server.Peer.Message.{PeerMessage, keep_alive, choke, have, bitfield}
use video_proxy_server.Peer.Torrent.{TorrentMetadata, torrent_piece_length}
use video_proxy_server.Peer.Scheduler.{
  PieceScheduler, observe_bitfield, claim_next, complete_piece, fail,
}
use video_proxy_server.Peer.Store.{PieceFiles, FileErrors, load, store}
use video_proxy_server.Peer.Connection.{Connection, listen, download_piece}

-- What `download_next_piece` takes by mutable reference, and the files of the store.
pub record Session : Type 0 where
  pub connection : Connection
  pub scheduler : PieceScheduler
  pub files : PieceFiles

abbrev pub on_connection {ℓ} : {A : Type ℓ} → Exec Connection A → Exec Session A
on_connection m s = let (r, c) = m s.connection in (r, record s { connection = c })

abbrev pub on_files {ℓ} : {A : Type ℓ} → Exec PieceFiles A → Exec Session A
on_files m s = let (r, f) = m s.files in (r, record s { files = f })

-- The scheduler's functions return the state first.
abbrev pub on_scheduler {ℓ} :
    {A : Type ℓ} → (PieceScheduler → PieceScheduler × Result A) → Exec Session A
on_scheduler m s = let (t, r) = m s.scheduler in (r, record s { scheduler = t })

-- The piece is given back to the scheduler, whatever became of it.
unfoldable pub settle : ℕ → Result (Unit {0}) × Session → Result (Option ℕ) × Session
settle index (ok _, s) = (on_scheduler (complete_piece index) >> pure (some index)) s
settle index (err e, s) = (on_scheduler (fail index) >> lift (err e)) s

-- The loop that waits for the bitfield of the peer.
unfoldable pub await_bitfield :
    List (Result PeerMessage) → ProxyError → Result Bytes × List (Result PeerMessage)
await_bitfield [] silence = (err silence, [])
await_bitfield (err e ∷ rest) silence = (err e, rest)
await_bitfield (ok (bitfield bits) ∷ rest) silence = (ok bits, rest)
await_bitfield (ok keep_alive ∷ rest) silence = await_bitfield rest silence
await_bitfield (ok (have _) ∷ rest) silence = await_bitfield rest silence
await_bitfield (ok choke ∷ rest) silence = await_bitfield rest silence
await_bitfield (ok _ ∷ rest) silence = (err (refused "peer did not provide a bitfield"), rest)

-- The errors of the file system are given by the piece that is loaded or stored.
module _ (digest : Bytes → Bytes) (env : ℕ → FileErrors) (metadata : TorrentMetadata) where
  unfoldable pub fetch_missing : ℕ → ℕ → Bytes → Option Bytes → Exec Session (Unit {0})
  fetch_missing index size expected (some bytes) = pure tt
  fetch_missing index size expected none = do
    bytes ← on_connection (download_piece digest index size expected)
    on_files (store digest (env index) index bytes expected)

  -- The inner block of `download_next_piece`.
  unfoldable pub fetch : ℕ → Exec Session (Unit {0})
  fetch index = do
    size ← lift (torrent_piece_length metadata index)
    expected ←
        lift (ok_or (get_elem? metadata.piece_sha1 index) (refused "piece hash index out of range"))
    found ← on_files (load digest (env index) index expected)
    fetch_missing index size expected found

  unfoldable pub download_claimed : Option ℕ → Exec Session (Option ℕ)
  download_claimed none s = (ok none, s)
  download_claimed (some index) s = settle index (fetch index s)

  unfoldable pub download_next_piece : Bytes → Exec Session (Option ℕ)
  download_next_piece peer_bitfield = do
    claimed ← on_scheduler (claim_next peer_bitfield)
    download_claimed claimed

  -- The loop of `download_from_peer`, with so many pieces left to download.
  unfoldable pub download_pieces : ℕ → Bytes → Exec Session ℕ
  download_pieces zero peer_bitfield = pure 0
  download_pieces (suc left) peer_bitfield =
      let more : Exec Session ℕ = do later ← download_pieces left peer_bitfield; pure (later + 1)
      in download_next_piece peer_bitfield >>= λ got. elim got [ none ↦ pure 0 | some index ↦ more ]

  -- After `PeerConnection::connect`.
  unfoldable pub download_from_peer : ℕ → Exec Session ℕ
  download_from_peer max_pieces = do
    attempt (
        if max_pieces == 0 || ltb 10000 max_pieces
        then some (refused "invalid peer download limit")
        else none)
    bits ← on_connection (listen await_bitfield)
    on_scheduler (observe_bitfield bits)
    download_pieces max_pieces bits
