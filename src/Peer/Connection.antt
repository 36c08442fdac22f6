-- ===== src/Peer/Connection.antt =====
-- src/p2p_network.rs: `PeerConnection`, and the download of blocks and pieces from a peer.
pub mod Download
pub mod Answers
use video_proxy_server.Prelude.{
  ℕ, zero, suc, ◌+◌, ◌-◌, ◌*◌, ◌/◌, min, Bool, true, false, ◌&&◌, ◌||◌, not, Option, none, some,
  List, [], ◌∷◌, ◌++◌, leb, ltb, ◌==◌, if◌then◌else◌, length, take, drop,
}
use video_proxy_server.Map.{nat_eq, list_eq}
use video_proxy_server.Error.{ProxyError, Result, ok, err, refused, malformed, network, text}
use video_proxy_server.Exec.{Exec, ◌>>=◌, ◌>>◌, pure, raise, lift, modify, gets, attempt}
use video_proxy_server.Storage.Disk.File.{Bytes}
use video_proxy_server.Peer.Word.{u32_max, from_be32}
use video_proxy_server.Peer.Message.{
  max_peer_message_bytes, PeerMessage, keep_alive, choke, unchoke, interested, not_interested, have,
  bitfield, request, piece, cancel, port, extended, parse_peer_message, encode_peer_message,
}
use video_proxy_server.Peer.Store.{verify_piece_sha1}

-- The bytes that will come before the connection is silent, and the error of a read after that
-- (closed or timed out).
pub record Incoming : Type 0 where
  pub stream : Bytes
  pub silence : ProxyError

-- `read_exact` in its timeout.
unfoldable pub read_exact : ℕ → Exec Incoming Bytes
read_exact n c =
    if ltb (length c.stream) n
    then (err c.silence, record c { stream = [] })
    else (ok (take n c.stream), record c { stream = drop n c.stream })

abbrev pub prefix_size : Bytes → ℕ
prefix_size (a ∷ b ∷ c ∷ d ∷ _) = from_be32 a b c d
prefix_size _ = 0

unfoldable pub receive_message : Exec Incoming PeerMessage
receive_message = do
  prefix ← read_exact 4
  attempt (
      if ltb max_peer_message_bytes (prefix_size prefix)
      then some (refused "peer message is too large")
      else none)
  body ← read_exact (prefix_size prefix)
  lift (parse_peer_message (prefix ++ body))

-- A connection by its calls: what the coming calls of `receive` return, what was sent, the errors
-- of the coming calls of `send` (all later ones succeed), and the error of a call of `receive` when
-- nothing more comes.
pub record Connection : Type 0 where
  pub inbox : List (Result PeerMessage)
  pub sent : List PeerMessage
  pub send_errors : List (Option ProxyError)
  pub silence : ProxyError

unfoldable pub next_message :
    List (Result PeerMessage) → Connection → Result PeerMessage × Connection
next_message [] c = (err c.silence, c)
next_message (r ∷ rest) c = (r, record c { inbox = rest })

unfoldable pub write_all : PeerMessage → List (Option ProxyError) → Exec Connection (Unit {0})
write_all message (some e ∷ rest) c = (err e, record c { send_errors = rest })
write_all message (none ∷ rest) c =
    (ok tt, record c { send_errors = rest; sent = c.sent ++ message ∷ [] })
write_all message [] c = (ok tt, record c { sent = c.sent ++ message ∷ [] })

unfoldable pub send : PeerMessage → Exec Connection (Unit {0})
send message = do
  encoded ← lift (encode_peer_message message)
  errors ← gets (λ c. c.send_errors)
  write_all message errors

abbrev pub max_request_block_bytes : ℕ
max_request_block_bytes = 16384

unfoldable pub validate_block_request : ℕ → ℕ → Result (Unit {0})
validate_block_request begin size =
    if size == 0 || (ltb max_request_block_bytes size || ltb u32_max (begin + size))
    then err (refused "invalid peer block request")
    else ok tt

abbrev pub before_unchoke : ProxyError
before_unchoke = refused "unexpected peer message before unchoke"

-- The first loop of `download_block`: what it makes of the messages that come.
unfoldable pub await_unchoke :
    List (Result PeerMessage) → ProxyError → Result (Unit {0}) × List (Result PeerMessage)
await_unchoke [] silence = (err silence, [])
await_unchoke (err e ∷ rest) silence = (err e, rest)
await_unchoke (ok unchoke ∷ rest) silence = (ok tt, rest)
await_unchoke (ok choke ∷ rest) silence = await_unchoke rest silence
await_unchoke (ok keep_alive ∷ rest) silence = await_unchoke rest silence
await_unchoke (ok (have index) ∷ rest) silence = await_unchoke rest silence
await_unchoke (ok (bitfield bits) ∷ rest) silence = await_unchoke rest silence
await_unchoke (ok _ ∷ rest) silence = (err before_unchoke, rest)

abbrev pub matching : ℕ → ℕ → ℕ → ℕ → ℕ → Bytes → Result Bytes
matching index begin size received_index received_begin block =
    if not (received_index == index)
      || (not (received_begin == begin) || not (length block == size))
    then err (refused "peer returned mismatched block")
    else ok block

-- The second loop.
unfoldable pub await_block :
    ℕ → ℕ → ℕ → List (Result PeerMessage) → ProxyError → Result Bytes × List (Result PeerMessage)
await_block index begin size [] silence = (err silence, [])
await_block index begin size (err e ∷ rest) silence = (err e, rest)
await_block index begin size (ok (piece received_index received_begin block) ∷ rest) silence =
    (matching index begin size received_index received_begin block, rest)
await_block index begin size (ok choke ∷ rest) silence =
    (err (refused "peer choked block request"), rest)
await_block index begin size (ok keep_alive ∷ rest) silence =
    await_block index begin size rest silence
await_block index begin size (ok (have _) ∷ rest) silence =
    await_block index begin size rest silence
await_block index begin size (ok _ ∷ rest) silence =
    (err (refused "unexpected peer message during block request"), rest)

-- A loop over the messages that come, as an operation on the connection.
abbrev pub listen {ℓ} :
    {A : Type ℓ}
    → (List (Result PeerMessage) → ProxyError → Result A × List (Result PeerMessage))
    → Exec Connection A
listen loop c = let (r, rest) = loop c.inbox c.silence in (r, record c { inbox = rest })

-- The timeout of the whole is one of the errors that `receive` and `send` return.
unfoldable pub download_block : ℕ → ℕ → ℕ → Exec Connection Bytes
download_block index begin size = do
  lift (validate_block_request begin size)
  send interested
  listen await_unchoke
  send (request index begin size)
  listen (await_block index begin size)

-- The loop of `download_piece` from `begin` on, with `rounds` left; `begin + size` does not
-- overflow, as both are at most the piece length.
unfoldable pub download_blocks : ℕ → ℕ → ℕ → ℕ → Exec Connection Bytes
download_blocks zero index begin piece_length = pure []
download_blocks (suc rounds) index begin piece_length =
    let size = min (piece_length - begin) max_request_block_bytes in
    let round : Exec Connection Bytes = do
      block ← download_block index begin size
      rest ← download_blocks rounds index (begin + size) piece_length
      pure (block ++ rest)
    in if ltb begin piece_length then round else pure []

-- As many rounds as blocks: enough, as `download_piece-IsExact` shows.
abbrev pub block_count : ℕ → ℕ
block_count piece_length = (piece_length + 16383) / 16384

module _ (digest : Bytes → Bytes) where
  unfoldable pub download_piece : ℕ → ℕ → Bytes → Exec Connection Bytes
  download_piece index piece_length expected_sha1 = do
    attempt (
        if piece_length == 0 || ltb 8388608 piece_length
        then some (refused "invalid BitTorrent piece length")
        else none)
    bytes ← download_blocks (block_count piece_length) index 0 piece_length
    lift (verify_piece_sha1 digest bytes expected_sha1)
    pure bytes
