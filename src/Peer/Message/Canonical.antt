-- ===== src/Peer/Message/Canonical.antt =====
-- src/p2p_network.rs: a message has one encoding, the bytes that are parsed as it.
use video_proxy_server.Prelude.{
  both_true, ℕ, String, ◌-◌, ◌≤◌, ◌<◌, ◌≡◌, refl, ap, sym, ◌∙◌, Bool, true, false, ◌&&◌, [], ◌∷◌,
  ◌++◌, leb, ltb, ◌==◌, ==_iff, if◌then◌else◌, length, length-drop, leb→le, drop, arith, All,
}
use video_proxy_server.Error.{ok_eq, ProxyError, Result, ok, err, ◌>>=◌}
use video_proxy_server.Strings.{is_empty}
use video_proxy_server.Storage.Disk.File.{Bytes}
use video_proxy_server.Peer.Word.{IsByte, u32_max, be32, from_be32, be32-from_be32, be16-from_be16}
use video_proxy_server.Peer.Message.{
  max_peer_message_bytes, PeerMessage, choke, unchoke, interested, not_interested, have, bitfield,
  request, cancel, u32_at, parse_fields, parse_piece, parse_port, parse_extended, parse_body,
  parse_payload, parse_frame, parse_peer_message, frame, frame_within, encode_peer_message,
}
use video_proxy_server.Peer.Message.Inversion.{empty_eq, u32_at-ok, bind_ok, fields_ok, piece_ok}

err_ne_ok : (e : ProxyError) (m : PeerMessage) → err e ≡ ok m → ⊥
err_ne_ok e m h = cc

-- One branch of `parse_body` taken, or the rest of them.
branch {ℓ} :
    {P : Type ℓ} (b : Bool) (x y : Result PeerMessage) (m : PeerMessage)
    → (if b then x else y) ≡ ok m
    → (b ≡ true → x ≡ ok m → P)
    → (y ≡ ok m → P)
    → P
branch true x y m h first rest = first refl h
branch false x y m h first rest = rest h

-- A message with no body.
bare :
    (id code : ℕ) (body : Bytes) (message m : PeerMessage)
    → ((id == code) && is_empty body) ≡ true
    → ok message ≡ ok m
    → encode_peer_message message ≡ frame (code ∷ [])
    → encode_peer_message m ≡ frame (id ∷ body)
bare id code body message m h e k =
    let (hi, hb) = both_true _ _ h in
    let same : id ≡ code = (==_iff _ _).0 hi in rw (← ok_eq e, same, empty_eq body hb) k

within :
    (room : ℕ) (part : Bytes) (reason : String) (payload : Bytes)
    → length part ≤ room
    → frame_within room part reason payload ≡ frame payload
unfolding frame_within
within room part reason payload h =
    let fits : ltb room (length part) ≡ false = ground arith in rw fits refl

parse_have :
    (body : Bytes) (m : PeerMessage)
    → All IsByte body
    → (u32_at body >>= λ index. ok (have index)) ≡ ok m
    → encode_peer_message m ≡ frame (4 ∷ body)
unfolding encode_peer_message
parse_have body m h e =
    let (index, ei, e₁) = bind_ok (u32_at body) (λ index. ok (have index)) m e in
    rw (← ok_eq e₁, u32_at-ok body index h ei) refl

encode-parse_port :
    (body : Bytes) (m : PeerMessage)
    → All IsByte body
    → parse_port body ≡ ok m
    → encode_peer_message m ≡ frame (9 ∷ body)
unfolding encode_peer_message parse_port
encode-parse_port [] m h e = cc
encode-parse_port (a ∷ []) m h e = cc
encode-parse_port (a ∷ b ∷ []) m (ha, (hb, _)) e = rw (← ok_eq e, be16-from_be16 a b ha hb) refl
encode-parse_port (a ∷ b ∷ c ∷ body) m h e = cc

encode-parse_extended :
    (body : Bytes) (m : PeerMessage)
    → length body < max_peer_message_bytes
    → parse_extended body ≡ ok m
    → encode_peer_message m ≡ frame (20 ∷ body)
unfolding encode_peer_message parse_extended
encode-parse_extended [] m h e = cc
encode-parse_extended (extension_id ∷ payload) m h e =
    rw (← ok_eq e) (within _ payload _ _ (omega arith))

no_result {ℓ} : {P : Type ℓ} (e : ProxyError) (m : PeerMessage) → err e ≡ ok m → P
no_result e m h = absurd (err_ne_ok e m h)

encode-parse_request :
    (body : Bytes) (m : PeerMessage)
    → All IsByte body
    → parse_fields request body ≡ ok m
    → encode_peer_message m ≡ frame (6 ∷ body)
encode-parse_request body m h e =
    let (index, begin, size, em, eb) = fields_ok request body m h e in
    ap encode_peer_message em ∙ unfold encode_peer_message in ap (λ bs. frame (6 ∷ bs)) eb

encode-parse_cancel :
    (body : Bytes) (m : PeerMessage)
    → All IsByte body
    → parse_fields cancel body ≡ ok m
    → encode_peer_message m ≡ frame (8 ∷ body)
encode-parse_cancel body m h e =
    let (index, begin, size, em, eb) = fields_ok cancel body m h e in
    ap encode_peer_message em ∙ unfold encode_peer_message in ap (λ bs. frame (8 ∷ bs)) eb

encode-parse_piece :
    (body : Bytes) (m : PeerMessage)
    → All IsByte body
    → length body < max_peer_message_bytes
    → leb 8 (length body) ≡ true
    → parse_piece body ≡ ok m
    → encode_peer_message m ≡ frame (7 ∷ body)
encode-parse_piece body m h short t e =
    let (index, begin, em, eb) = piece_ok body m h e in
    let room : length (drop 8 body) ≤ max_peer_message_bytes - 9 =
      omega (arith, length-drop 8 body, leb→le 8 (length body) t) in
    ap encode_peer_message em
    ∙ unfold encode_peer_message in (within _ (drop 8 body) _ _ room ∙ ap (λ bs. frame (7 ∷ bs)) eb)

module _ (id : ℕ) (body : Bytes) (m : PeerMessage) (bytes : All IsByte body)
    (short : length body < max_peer_message_bytes) where
  at_id :
      (code : ℕ)
      → (id == code) ≡ true
      → encode_peer_message m ≡ frame (code ∷ body)
      → encode_peer_message m ≡ frame (id ∷ body)
  at_id code h e = let same : id ≡ code = (==_iff _ _).0 h in rw same e

  encode-bitfield : ok (bitfield body) ≡ ok m → encode_peer_message m ≡ frame (5 ∷ body)
  encode-bitfield e =
      ap encode_peer_message (sym (ok_eq e))
      ∙ unfold encode_peer_message in within _ body _ _ (omega arith)

  encode-parse_body : parse_body id body ≡ ok m → encode_peer_message m ≡ frame (id ∷ body)
  unfolding parse_body encode_peer_message
  encode-parse_body h =
      branch _ _ _ m h (λ t e. bare id 0 body choke m t e refl)
        λ h.
          branch _ _ _ m h (λ t e. bare id 1 body unchoke m t e refl)
            λ h.
              branch _ _ _ m h (λ t e. bare id 2 body interested m t e refl)
                λ h.
                  branch _ _ _ m h (λ t e. bare id 3 body not_interested m t e refl)
                    λ h.
                      branch _ _ _ m h (λ t e. at_id 4 t (parse_have body m bytes e))
                        λ h.
                          branch _ _ _ m h (λ t e. at_id 5 t (encode-bitfield e))
                            λ h.
                              branch (id == 6 && length body == 12) _ _ m h
                                (λ t e.
                                  at_id 6 (both_true _ (length body == 12) t).0
                                    (encode-parse_request body m bytes e))
                                λ h.
                                  branch (id == 7 && leb 8 (length body)) _ _ m h
                                    (λ t e.
                                      let (at, long) = both_true _ (leb 8 (length body)) t in
                                      at_id 7 at (encode-parse_piece body m bytes short long e))
                                    λ h.
                                      branch (id == 8 && length body == 12) _ _ m h
                                        (λ t e.
                                          at_id 8 (both_true _ (length body == 12) t).0
                                            (encode-parse_cancel body m bytes e))
                                        λ h.
                                          branch _ _ _ m h
                                            (λ t e. at_id 9 t (encode-parse_port body m bytes e))
                                            λ h.
                                              branch _ _ _ m h
                                                (λ t e.
                                                  at_id 20 t (encode-parse_extended body m short e))
                                                λ h. no_result _ m h

encode-parse_payload :
    (payload : Bytes) (m : PeerMessage)
    → All IsByte payload
    → length payload ≤ max_peer_message_bytes
    → parse_payload payload ≡ ok m
    → encode_peer_message m ≡ frame payload
unfolding parse_payload
encode-parse_payload [] m h short e =
    ap encode_peer_message (sym (ok_eq e)) ∙ unfold encode_peer_message frame be32 in refl
encode-parse_payload (id ∷ body) m (hi, hb) short e = encode-parse_body id body m hb (omega arith) e

-- The test of the length, read back.
frame_ok :
    (size : ℕ) (payload : Bytes) (m : PeerMessage)
    → parse_frame size payload ≡ ok m
    → (size ≤ max_peer_message_bytes) × (length payload ≡ size) × (parse_payload payload ≡ ok m)
unfolding parse_frame
frame_ok size payload m h = ground arith

-- Bytes that are parsed as a message are the encoding of that message.
pub encode_peer_message-parse_peer_message :
    (input : Bytes) (m : PeerMessage)
    → All IsByte input
    → parse_peer_message input ≡ ok m
    → encode_peer_message m ≡ ok input
unfolding parse_peer_message
encode_peer_message-parse_peer_message [] m h e = cc
encode_peer_message-parse_peer_message (a ∷ []) m h e = cc
encode_peer_message-parse_peer_message (a ∷ b ∷ []) m h e = cc
encode_peer_message-parse_peer_message (a ∷ b ∷ c ∷ []) m h e = cc
encode_peer_message-parse_peer_message (a ∷ b ∷ c ∷ d ∷ payload) m (ha, (hb, (hc, (hd, hp)))) e =
    let (small, size, e₁) = frame_ok (from_be32 a b c d) payload m e in
    let fits : leb (length payload) u32_max ≡ true = ground arith in
    encode-parse_payload payload m hp (omega arith) e₁
    ∙ unfold frame in
      rw fits (ap (λ bs. ok (bs ++ payload)) (ap be32 size ∙ be32-from_be32 a b c d ha hb hc hd))
