-- ===== src/Peer/Message/RoundTrip.antt =====
-- src/p2p_network.rs: what is encoded is parsed back.
use video_proxy_server.Prelude.{
  ℕ, String, ◌-◌, ◌^◌, ◌≤◌, ◌<◌, ◌≡◌, refl, ap, true, false, ◌||◌, not, [], ◌∷◌, ◌++◌, leb, ltb,
  ◌==◌, length, arith,
}
use video_proxy_server.Map.{nat_eq, list_eq}
use video_proxy_server.Error.{ok}
use video_proxy_server.Storage.Disk.File.{Bytes}
use video_proxy_server.Peer.Word.{u32_max, be16, be32, from_be32, from_be32-be32, from_be16-be16}
use video_proxy_server.Peer.Message.{
  max_peer_message_bytes, PeerMessage, keep_alive, choke, unchoke, interested, not_interested, have,
  bitfield, request, piece, cancel, port, extended, u32_at, parse_fields, parse_piece, parse_port,
  parse_extended, parse_body, parse_payload, parse_frame, parse_peer_message, frame, frame_within,
  encode_peer_message,
}

abbrev pub IsU32 : ℕ → Type 0
IsU32 n = n < 2 ^ 32

-- The numbers of a message fit their fields, and its variable part fits into a message.
abbrev pub FitsWire : PeerMessage → Type 0
FitsWire (have index) = IsU32 index
FitsWire (bitfield bits) = length bits ≤ max_peer_message_bytes - 1
FitsWire (request index begin size) = IsU32 index × IsU32 begin × IsU32 size
FitsWire (piece index begin block) =
    IsU32 index × IsU32 begin × (length block ≤ max_peer_message_bytes - 9)
FitsWire (cancel index begin size) = IsU32 index × IsU32 begin × IsU32 size
FitsWire (port n) = n < 65536
FitsWire (extended extension_id payload) = length payload ≤ max_peer_message_bytes - 2
FitsWire _ = Unit

u32_at-be32 : (n : ℕ) → IsU32 n → u32_at (be32 n) ≡ ok n
unfolding u32_at be32
u32_at-be32 n h = ap ok (from_be32-be32 n h)

-- A framed payload, read back.
Framed : Bytes → PeerMessage → Type 0
Framed payload message =
    (output : Bytes) × (frame payload ≡ ok output) × (parse_peer_message output ≡ ok message)

frame_lem :
    (payload : Bytes) (message : PeerMessage)
    → length payload ≤ max_peer_message_bytes
    → parse_payload payload ≡ ok message
    → Framed payload message
unfolding Framed frame parse_peer_message parse_frame be32
frame_lem payload message h e =
    let small : leb (length payload) u32_max ≡ true = ground arith in
    let same = from_be32-be32 (length payload) (omega arith) in
    let fits : (ltb max_peer_message_bytes (length payload)
          || not (length payload == length payload))
        ≡ false =
      ground arith in
    (be32 (length payload) ++ payload, rw small refl, rw (same, fits) e)

Framed-within :
    (room : ℕ) (part payload : Bytes) (reason : String) (message : PeerMessage)
    → length part ≤ room
    → Framed payload message
    → (output : Bytes) × (frame_within room part reason payload ≡ ok output)
      × (parse_peer_message output ≡ ok message)
unfolding Framed frame_within
Framed-within room part payload reason message h f =
    let fits : ltb room (length part) ≡ false = ground arith in rw fits f

parse_fields-be32 :
    (message : ℕ → ℕ → ℕ → PeerMessage) (index begin size : ℕ)
    → IsU32 index × IsU32 begin × IsU32 size
    → parse_fields message (be32 index ++ (be32 begin ++ be32 size)) ≡ ok (message index begin size)
unfolding parse_fields be32 u32_at
parse_fields-be32 message index begin size (hi, hb, hs) =
    rw (from_be32-be32 index hi, from_be32-be32 begin hb, from_be32-be32 size hs) refl

parse_piece-be32 :
    (index begin : ℕ) (block : Bytes)
    → IsU32 index
    → IsU32 begin
    → parse_piece (be32 index ++ (be32 begin ++ block)) ≡ ok (piece index begin block)
unfolding parse_piece be32 u32_at
parse_piece-be32 index begin block hi hb =
    rw (from_be32-be32 index hi, from_be32-be32 begin hb) refl

parse_payload-piece :
    (index begin : ℕ) (block : Bytes)
    → IsU32 index
    → IsU32 begin
    → parse_payload (7 ∷ (be32 index ++ (be32 begin ++ block))) ≡ ok (piece index begin block)
unfolding parse_payload parse_body
parse_payload-piece index begin block hi hb =
    let enough : leb 8 (length (be32 index ++ (be32 begin ++ block))) ≡ true =
      unfold be32 in ground arith in
    rw enough (parse_piece-be32 index begin block hi hb)

-- A message whose numbers fit their fields and whose variable part fits into a message is encoded,
-- and the bytes are parsed back as that message.
pub parse_peer_message-encode_peer_message :
    (message : PeerMessage)
    → FitsWire message
    → (output : Bytes) × (encode_peer_message message ≡ ok output)
      × (parse_peer_message output ≡ ok message)
unfolding encode_peer_message Framed parse_payload parse_body
parse_peer_message-encode_peer_message keep_alive h =
    (0 ∷ 0 ∷ 0 ∷ 0 ∷ [], refl, unfold parse_peer_message parse_frame from_be32 in refl)
parse_peer_message-encode_peer_message choke h = frame_lem (0 ∷ []) choke (omega arith) refl
parse_peer_message-encode_peer_message unchoke h = frame_lem (1 ∷ []) unchoke (omega arith) refl
parse_peer_message-encode_peer_message interested h =
    frame_lem (2 ∷ []) interested (omega arith) refl
parse_peer_message-encode_peer_message not_interested h =
    frame_lem (3 ∷ []) not_interested (omega arith) refl
parse_peer_message-encode_peer_message (have index) h =
    frame_lem (4 ∷ be32 index) (have index) (unfold be32 in omega arith)
      (rw (u32_at-be32 index h) refl)
parse_peer_message-encode_peer_message (bitfield bits) h =
    Framed-within _ bits (5 ∷ bits) _ (bitfield bits) h
      (frame_lem (5 ∷ bits) (bitfield bits) (omega arith) refl)
parse_peer_message-encode_peer_message (request index begin size) h =
    frame_lem (6 ∷ (be32 index ++ (be32 begin ++ be32 size))) (request index begin size)
      (unfold be32 in omega arith) (unfold be32 in parse_fields-be32 request index begin size h)
parse_peer_message-encode_peer_message (piece index begin block) (hi, hb, h) =
    Framed-within _ block (7 ∷ (be32 index ++ (be32 begin ++ block))) _ (piece index begin block) h
      (frame_lem (7 ∷ (be32 index ++ (be32 begin ++ block))) (piece index begin block)
        (unfold be32 in omega arith) (parse_payload-piece index begin block hi hb))
parse_peer_message-encode_peer_message (cancel index begin size) h =
    frame_lem (8 ∷ (be32 index ++ (be32 begin ++ be32 size))) (cancel index begin size)
      (unfold be32 in omega arith) (unfold be32 in parse_fields-be32 cancel index begin size h)
parse_peer_message-encode_peer_message (port n) h =
    frame_lem (9 ∷ be16 n) (port n) (unfold be16 in omega arith)
      (unfold be16 in unfold parse_port in ap (λ k. ok (port k)) (from_be16-be16 n h))
parse_peer_message-encode_peer_message (extended extension_id payload) h =
    Framed-within _ payload (20 ∷ extension_id ∷ payload) _ (extended extension_id payload) h (
      frame_lem (20 ∷ extension_id ∷ payload) (extended extension_id payload) (omega arith)
        (unfold parse_extended in refl))
