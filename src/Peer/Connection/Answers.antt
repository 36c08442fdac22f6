-- ===== src/Peer/Connection/Answers.antt =====
-- src/p2p_network.rs: a piece is downloaded from a peer that answers every request.
use video_proxy_server.Prelude.{
  ℕ, zero, suc, ◌+◌, ◌-◌, ◌≤◌, ◌<◌, ◌≡◌, refl, ap, ◌∙◌, min, true, false, ◌||◌, List, [], ◌∷◌, ◌++◌,
  ltb, ◌==◌, length, length-take, length-drop, take, drop, arith,
}
use video_proxy_server.Map.{nat_eq, list_eq, =?-refl}
use video_proxy_server.Error.{ok_eq, ProxyError, Result, ok, err}
use video_proxy_server.Exec.{continue, ◌>>◌, pure, lift}
use video_proxy_server.Storage.Disk.File.{Bytes}
use video_proxy_server.Peer.Word.{be32, u32_max}
use video_proxy_server.Peer.Message.{
  PeerMessage, unchoke, interested, request, piece, encode_peer_message, frame,
}
use video_proxy_server.Peer.Message.Inversion.{take-drop}
use video_proxy_server.Peer.Store.{verify_piece_sha1}
use video_proxy_server.Peer.Connection.{
  Connection, write_all, send, max_request_block_bytes, validate_block_request, await_unchoke,
  matching, await_block, download_block, download_blocks, block_count, download_piece,
}
use video_proxy_server.Peer.Connection.Download.{Inbox}

-- A connection on which every message can be sent.
abbrev pub open_to : Inbox → List PeerMessage → ProxyError → Connection
open_to inbox sent silence = record {
  inbox = inbox;
  sent = sent;
  send_errors = [];
  silence = silence;
}

-- A peer that unchokes and answers, block by block.
unfoldable pub answers : ℕ → ℕ → ℕ → Bytes → Inbox
answers zero index begin bytes = []
answers (suc rounds) index begin bytes =
    ok unchoke
    ∷ ok (piece index begin (take max_request_block_bytes bytes))
    ∷ answers rounds index (begin + min (length bytes) max_request_block_bytes)
        (drop max_request_block_bytes bytes)

send_open :
    (message : PeerMessage) (encoded : Bytes) (inbox : Inbox) (sent : List PeerMessage)
    (silence : ProxyError)
    → encode_peer_message message ≡ ok encoded
    → send message (open_to inbox sent silence)
      ≡ (ok tt, open_to inbox (sent ++ message ∷ []) silence)
unfolding send write_all
send_open message encoded inbox sent silence e = rw e refl

request_encoded :
    (index begin size : ℕ)
    → (out : Bytes) × (encode_peer_message (request index begin size) ≡ ok out)
unfolding encode_peer_message frame be32
request_encoded index begin size = (_, refl)

interested_encoded : (out : Bytes) × (encode_peer_message interested ≡ ok out)
unfolding encode_peer_message frame be32
interested_encoded = (_, refl)

block_answered :
    (index begin size : ℕ) (block : Bytes) (inbox : Inbox) (sent : List PeerMessage)
    (silence : ProxyError)
    → 0 < size
    → size ≤ max_request_block_bytes
    → begin + size ≤ u32_max
    → length block ≡ size
    → download_block index begin size
        (open_to (ok unchoke ∷ ok (piece index begin block) ∷ inbox) sent silence)
      ≡ (
        ok block,
        open_to inbox ((sent ++ interested ∷ []) ++ request index begin size ∷ []) silence,
      )
unfolding download_block await_unchoke await_block
block_answered index begin size block inbox sent silence lo hi fits l =
    let v : validate_block_request begin size ≡ ok tt =
      unfold validate_block_request in ground arith in
    let (out, e) = interested_encoded in
    let (out', e') = request_encoded index begin size in
    let m : matching index begin size index begin block ≡ ok block = ground arith in
    rw
      (
        v,
        send_open interested out _ sent silence e,
        send_open (request index begin size) out' _ (sent ++ interested ∷ []) silence e',
        m,
      )
      refl

then_append :
    (r : Result Bytes) (c : Connection) (block rest : Bytes)
    → r ≡ ok rest
    → (continue (r, c) (λ out. pure (block ++ out))).0 ≡ ok (block ++ rest)
then_append (ok out) c block rest h = cc
then_append (err e) c block rest h = cc

rounds_left :
    (rounds : ℕ) (n : ℕ)
    → suc rounds ≡ block_count n
    → (0 < n) × (rounds ≡ block_count (n - min n max_request_block_bytes))
rounds_left rounds n h = (omega arith, omega arith)

module _ (index piece_length : ℕ) (silence : ProxyError) (fits : piece_length ≤ 8388608) where
  blocks_answered :
      (rounds begin : ℕ) (bytes : Bytes) (sent : List PeerMessage)
      → begin + length bytes ≡ piece_length
      → rounds ≡ block_count (length bytes)
      → (download_blocks rounds index begin piece_length
          (open_to (answers rounds index begin bytes) sent silence)).0
        ≡ ok bytes
  unfolding download_blocks answers
  blocks_answered zero begin [] sent e r = refl
  blocks_answered zero begin (b ∷ bytes) sent e r = absurd (omega arith)
  blocks_answered (suc rounds) begin bytes sent e r =
      let n : ℕ = length bytes in
      let size : ℕ = min n max_request_block_bytes in
      let (some_left, r') = rounds_left rounds n r in
      let more : ltb begin piece_length ≡ true = ground arith in
      let left : piece_length - begin ≡ n = omega arith in
      let block = take max_request_block_bytes bytes in
      let rest = drop max_request_block_bytes bytes in
      let l : length block ≡ size = omega (arith, length-take max_request_block_bytes bytes) in
      let l' : length rest ≡ n - size = omega (arith, length-drop max_request_block_bytes bytes) in
      let sent' = (sent ++ interested ∷ []) ++ request index begin size ∷ [] in
      let first =
        block_answered index begin size block (answers rounds index (begin + size) rest) sent
          silence (omega arith) (omega arith) (omega arith) l in
      let second = blocks_answered rounds (begin + size) rest sent' (omega arith) (rw l' r') in
      rw (more, left, first)
        (then_append _ _ block rest second ∙ ap ok (take-drop max_request_block_bytes bytes))

then_verified :
    (digest : Bytes → Bytes) (bytes : Bytes) (r : Result Bytes) (c : Connection)
    → r ≡ ok bytes
    → (continue (r, c) (λ out. lift (verify_piece_sha1 digest out (digest bytes)) >> pure out)).0
      ≡ ok bytes
unfolding verify_piece_sha1
then_verified digest bytes (ok out) c h = rw (ok_eq h, =?-refl (digest bytes)) refl
then_verified digest bytes (err e) c h = cc

-- From a peer that answers every request, with an unchoke before each block, a piece of at least
-- one byte and at most 8 MiB with the expected hash is downloaded whole.
pub download_piece-answers :
    (digest : Bytes → Bytes) (index : ℕ) (bytes : Bytes) (sent : List PeerMessage)
    (silence : ProxyError)
    → 0 < length bytes
    → length bytes ≤ 8388608
    → (download_piece digest index
        (length bytes)
        (digest bytes)
        (open_to (answers (block_count (length bytes)) index 0 bytes) sent silence)).0
      ≡ ok bytes
unfolding download_piece
download_piece-answers digest index bytes sent silence lo hi =
    let valid : (length bytes == 0 || ltb 8388608 (length bytes)) ≡ false = ground arith in
    rw valid (
      then_verified digest bytes _ _ (
        blocks_answered index (length bytes) silence hi (block_count (length bytes)) 0 bytes sent
          (omega arith) refl))
