-- ===== src/Peer/Message.antt =====
-- src/p2p_network.rs: the handshake and the messages of the peer protocol, and their bytes.
pub mod RoundTrip
pub mod Handshake
pub mod Inversion
pub mod Canonical
use video_proxy_server.Prelude.{
  ℕ, suc, ◌+◌, ◌-◌, Bool, true, false, ◌&&◌, ◌||◌, not, String, List, [], ◌∷◌, ◌++◌, leb, ltb, ◌==◌,
  if◌then◌else◌, length, take, drop, codes,
}
use video_proxy_server.Map.{nat_eq, list_eq, ◌=?◌}
use video_proxy_server.Error.{Result, ok, err, ◌>>=◌, malformed, refused}
use video_proxy_server.Strings.{is_empty}
use video_proxy_server.Storage.Disk.File.{Bytes}
use video_proxy_server.Peer.Word.{u32_max, be16, from_be16, be32, from_be32}

abbrev pub max_peer_message_bytes : ℕ
max_peer_message_bytes = 1048576

pub record BitTorrentHandshake : Type 0 where
  pub reserved : Bytes
  pub info_hash : Bytes
  pub peer_id : Bytes

abbrev pub protocol : Bytes
protocol = codes "BitTorrent protocol"

unfoldable pub encode_handshake : BitTorrentHandshake → Bytes
encode_handshake h = 19 ∷ (protocol ++ (h.reserved ++ (h.info_hash ++ h.peer_id)))

-- After the first byte.
unfoldable pub parse_after_length : ℕ → Bytes → Result BitTorrentHandshake
parse_after_length first rest =
    if length rest == 67 && (first == 19 && (take 19 rest =? protocol))
    then ok (record {
      reserved = take 8 (drop 19 rest);
      info_hash = take 20 (drop 27 rest);
      peer_id = take 20 (drop 47 rest);
    })
    else err (malformed "invalid BitTorrent handshake")

unfoldable pub parse_handshake : Bytes → Result BitTorrentHandshake
parse_handshake [] = err (malformed "invalid BitTorrent handshake")
parse_handshake (first ∷ rest) = parse_after_length first rest

pub data PeerMessage : Type 0 where
  keep_alive : PeerMessage
  choke : PeerMessage
  unchoke : PeerMessage
  interested : PeerMessage
  not_interested : PeerMessage
  have : ℕ → PeerMessage
  bitfield : Bytes → PeerMessage
  request : ℕ → ℕ → ℕ → PeerMessage
  piece : ℕ → ℕ → Bytes → PeerMessage
  cancel : ℕ → ℕ → ℕ → PeerMessage
  port : ℕ → PeerMessage
  extended : ℕ → Bytes → PeerMessage

unfoldable pub u32_at : Bytes → Result ℕ
u32_at (a ∷ b ∷ c ∷ d ∷ []) = ok (from_be32 a b c d)
u32_at _ = err (malformed "invalid peer message fields")

abbrev pub bad_message : Result PeerMessage
bad_message = err (malformed "unsupported or malformed peer message")

-- The three fields of a request or a cancel.
unfoldable pub parse_fields : (ℕ → ℕ → ℕ → PeerMessage) → Bytes → Result PeerMessage
parse_fields message body = do
  index ← u32_at (take 4 body)
  begin ← u32_at (take 4 (drop 4 body))
  size ← u32_at (drop 8 body)
  ok (message index begin size)

unfoldable pub parse_piece : Bytes → Result PeerMessage
parse_piece body = do
  index ← u32_at (take 4 body)
  begin ← u32_at (take 4 (drop 4 body))
  ok (piece index begin (drop 8 body))

unfoldable pub parse_port : Bytes → Result PeerMessage
parse_port (a ∷ b ∷ []) = ok (port (from_be16 a b))
parse_port _ = bad_message

unfoldable pub parse_extended : Bytes → Result PeerMessage
parse_extended [] = bad_message
parse_extended (extension_id ∷ payload) = ok (extended extension_id payload)

unfoldable pub parse_body : ℕ → Bytes → Result PeerMessage
parse_body id body =
    if id == 0 && is_empty body
    then ok choke
    else if id == 1 && is_empty body
    then ok unchoke
    else if id == 2 && is_empty body
    then ok interested
    else if id == 3 && is_empty body
    then ok not_interested
    else if id == 4
    then (u32_at body >>= λ index. ok (have index))
    else if id == 5
    then ok (bitfield body)
    else if id == 6 && length body == 12
    then parse_fields request body
    else if id == 7 && leb 8 (length body)
    then parse_piece body
    else if id == 8 && length body == 12
    then parse_fields cancel body
    else if id == 9
    then parse_port body
    else if id == 20
    then parse_extended body
    else bad_message

unfoldable pub parse_payload : Bytes → Result PeerMessage
parse_payload [] = ok keep_alive
parse_payload (id ∷ body) = parse_body id body

-- The declared length, and the bytes after it.
unfoldable pub parse_frame : ℕ → Bytes → Result PeerMessage
parse_frame size payload =
    if ltb max_peer_message_bytes size || not (length payload == size)
    then err (malformed "invalid peer message length")
    else parse_payload payload

unfoldable pub parse_peer_message : Bytes → Result PeerMessage
parse_peer_message (a ∷ b ∷ c ∷ d ∷ payload) = parse_frame (from_be32 a b c d) payload
parse_peer_message _ = err (malformed "truncated peer message length")

-- `u32::try_from` of the length, and the two parts of the output.
unfoldable pub frame : Bytes → Result Bytes
frame payload =
    if leb (length payload) u32_max
    then ok (be32 (length payload) ++ payload)
    else err (refused "peer message is too large")

-- The payload, unless the variable part is longer than `room`.
unfoldable pub frame_within : ℕ → Bytes → String → Bytes → Result Bytes
frame_within room part reason payload =
    if ltb room (length part) then err (refused reason) else frame payload

unfoldable pub encode_peer_message : PeerMessage → Result Bytes
encode_peer_message keep_alive = ok (0 ∷ 0 ∷ 0 ∷ 0 ∷ [])
encode_peer_message choke = frame (0 ∷ [])
encode_peer_message unchoke = frame (1 ∷ [])
encode_peer_message interested = frame (2 ∷ [])
encode_peer_message not_interested = frame (3 ∷ [])
encode_peer_message (have index) = frame (4 ∷ be32 index)
encode_peer_message (bitfield bits) =
    frame_within (max_peer_message_bytes - 1) bits "peer bitfield is too large" (5 ∷ bits)
encode_peer_message (request index begin size) =
    frame (6 ∷ (be32 index ++ (be32 begin ++ be32 size)))
encode_peer_message (piece index begin block) =
    frame_within (max_peer_message_bytes - 9) block "peer block is too large"
      (7 ∷ (be32 index ++ (be32 begin ++ block)))
encode_peer_message (cancel index begin size) =
    frame (8 ∷ (be32 index ++ (be32 begin ++ be32 size)))
encode_peer_message (port n) = frame (9 ∷ be16 n)
encode_peer_message (extended extension_id payload) =
    frame_within (max_peer_message_bytes - 2) payload "extended peer message is too large"
      (20 ∷ extension_id ∷ payload)
