-- ===== src/Peer/Message/Handshake.antt =====
-- src/p2p_network.rs: the handshake that is sent is the one that is read.
use video_proxy_server.Prelude.{
  ℕ, zero, suc, ◌+◌, ◌≡◌, refl, ap, sym, ◌∙◌, true, [], ◌∷◌, ◌++◌, append-nil, length,
  length-append, take, drop, arith, ◌==◌,
}
use native.Mathlib.Nat.{suc-add, zero-add}
use video_proxy_server.Map.{nat_eq, list_eq}
use video_proxy_server.Error.{ok}
use video_proxy_server.Storage.Disk.File.{Bytes}
use video_proxy_server.Peer.Message.{
  BitTorrentHandshake, encode_handshake, parse_after_length, parse_handshake,
}

take-append : (n : ℕ) (xs ys : Bytes) → length xs ≡ n → take n (xs ++ ys) ≡ xs
take-append zero [] ys h = refl
take-append zero (x ∷ xs) ys h = absurd (omega arith)
take-append (suc n) [] ys h = absurd (omega arith)
take-append (suc n) (x ∷ xs) ys h = ap (λ bs. x ∷ bs) (take-append n xs ys (omega arith))

drop-append : (n : ℕ) (xs ys : Bytes) → length xs ≡ n → drop n (xs ++ ys) ≡ ys
drop-append zero [] ys h = refl
drop-append zero (x ∷ xs) ys h = absurd (omega arith)
drop-append (suc n) [] ys h = absurd (omega arith)
drop-append (suc n) (x ∷ xs) ys h = drop-append n xs ys (omega arith)

drop_more : (n m : ℕ) (xs ys : Bytes) → length xs ≡ n → drop (n + m) (xs ++ ys) ≡ drop m ys
drop_more zero m [] ys h = rw zero-add refl
drop_more zero m (x ∷ xs) ys h = absurd (omega arith)
drop_more (suc n) m [] ys h = absurd (omega arith)
drop_more (suc n) m (x ∷ xs) ys h = rw suc-add (drop_more n m xs ys (omega arith))

-- The three fields have the lengths of their arrays.
abbrev pub IsHandshake : BitTorrentHandshake → Type 0
IsHandshake h = (length h.reserved ≡ 8) × (length h.info_hash ≡ 20) × (length h.peer_id ≡ 20)

-- A handshake with fields of 8, 20 and 20 bytes is read back from its 68 bytes.
pub parse_handshake-encode_handshake :
    (h : BitTorrentHandshake)
    → IsHandshake h
    → (length (encode_handshake h) ≡ 68) × (parse_handshake (encode_handshake h) ≡ ok h)
unfolding encode_handshake parse_handshake parse_after_length
parse_handshake-encode_handshake h (hr, hi, hp) =
    let tail : Bytes = h.info_hash ++ h.peer_id in
    let body : Bytes = h.reserved ++ tail in
    let size : length body ≡ 48 =
      omega (arith, length-append h.reserved tail, length-append h.info_hash h.peer_id) in
    let fits : (suc (
            suc (
              suc (
                suc (
                  suc (
                    suc (
                      suc (
                        suc (
                          suc (
                            suc (
                              suc (
                                suc
                                  (suc (suc (suc (suc (suc (suc (suc (length body)))))))))))))))))))
          == 67)
        ≡ true =
      ground arith in
    let e₁ : take 8 body ≡ h.reserved = take-append 8 h.reserved tail hr in
    let e₂ : take 20 (drop 8 body) ≡ h.info_hash =
      ap (take 20) (drop-append 8 h.reserved tail hr) ∙ take-append 20 h.info_hash h.peer_id hi in
    let e₃ : take 20 (drop 28 body) ≡ h.peer_id =
      ap (take 20) (drop_more 8 20 h.reserved tail hr ∙ drop-append 20 h.info_hash h.peer_id hi)
      ∙ ap (take 20) (sym (append-nil h.peer_id))
      ∙ take-append 20 h.peer_id [] hp in
    (omega arith, rw (fits, e₁, e₂, e₃) refl)
