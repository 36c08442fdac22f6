-- ===== src/Peer/Connection/Download.antt =====
-- src/p2p_network.rs: what a successful download of a block or a piece returns, and what it took.
use video_proxy_server.Prelude.{
  ℕ, zero, suc, ◌+◌, ◌-◌, ◌*◌, ◌≤◌, ◌<◌, ◌≡◌, refl, ap, sym, subst, ◌∙◌, inl, inr, min, Bool, ◌||◌,
  Option, none, some, List, [], ◌∷◌, ltb, ◌==◌, length, length-append, arith, Bool-cases,
}
use video_proxy_server.Map.{nat_eq, list_eq}
use video_proxy_server.Error.{ok_eq, ProxyError, Result, ok, err}
use video_proxy_server.Exec.{◌>>=◌, lift, gets}
use video_proxy_server.Exec.Ensures.{Ensures, Ensures-bind, Ensures-check}
use video_proxy_server.Storage.Disk.File.{Bytes}
use video_proxy_server.Peer.Message.{
  PeerMessage, keep_alive, choke, unchoke, interested, not_interested, have, bitfield, request,
  piece, cancel, port, extended, encode_peer_message,
}
use video_proxy_server.Peer.Store.{verify_piece_sha1}
use video_proxy_server.Peer.Store.Verified.{verify_piece_sha1-ok}
use video_proxy_server.Peer.Connection.{
  Connection, write_all, send, max_request_block_bytes, validate_block_request, await_unchoke,
  matching, await_block, listen, download_block, download_blocks, block_count, download_piece,
}

abbrev pub Inbox : Type 0
Inbox = List (Result PeerMessage)

abbrev pub is_unchoke : Result PeerMessage → ℕ
is_unchoke (ok unchoke) = 1
is_unchoke _ = 0

-- How often the peer unchokes in what comes.
abbrev pub unchokes : Inbox → ℕ
unchokes [] = 0
unchokes (r ∷ rest) = is_unchoke r + unchokes rest

await_unchoke-unchokes :
    (inbox : Inbox) (silence : ProxyError)
    → (await_unchoke inbox silence).0 ≡ ok tt
    → unchokes (await_unchoke inbox silence).1 + 1 ≡ unchokes inbox
unfolding await_unchoke
await_unchoke-unchokes [] silence h = cc
await_unchoke-unchokes (err e ∷ rest) silence h = cc
await_unchoke-unchokes (ok unchoke ∷ rest) silence h = omega arith
await_unchoke-unchokes (ok choke ∷ rest) silence h =
    omega (arith, await_unchoke-unchokes rest silence h)
await_unchoke-unchokes (ok keep_alive ∷ rest) silence h =
    omega (arith, await_unchoke-unchokes rest silence h)
await_unchoke-unchokes (ok (have index) ∷ rest) silence h =
    omega (arith, await_unchoke-unchokes rest silence h)
await_unchoke-unchokes (ok (bitfield bits) ∷ rest) silence h =
    omega (arith, await_unchoke-unchokes rest silence h)
await_unchoke-unchokes (ok interested ∷ rest) silence h = cc
await_unchoke-unchokes (ok not_interested ∷ rest) silence h = cc
await_unchoke-unchokes (ok (request a b c) ∷ rest) silence h = cc
await_unchoke-unchokes (ok (piece a b c) ∷ rest) silence h = cc
await_unchoke-unchokes (ok (cancel a b c) ∷ rest) silence h = cc
await_unchoke-unchokes (ok (port a) ∷ rest) silence h = cc
await_unchoke-unchokes (ok (extended a b) ∷ rest) silence h = cc

matching-length :
    (index begin size i b : ℕ) (block bytes : Bytes)
    → matching index begin size i b block ≡ ok bytes
    → length bytes ≡ size
matching-length index begin size i b block bytes h = ground arith

module _ (index begin size : ℕ) (silence : ProxyError) (bytes : Bytes) where
  await_block-ok :
      (inbox : Inbox)
      → (await_block index begin size inbox silence).0 ≡ ok bytes
      → (length bytes ≡ size)
        × (unchokes (await_block index begin size inbox silence).1 ≤ unchokes inbox)
  unfolding await_block
  await_block-ok [] h = cc
  await_block-ok (err e ∷ rest) h = cc
  await_block-ok (ok (piece i b block) ∷ rest) h =
      (matching-length index begin size i b block bytes h, omega arith)
  await_block-ok (ok choke ∷ rest) h = cc
  await_block-ok (ok keep_alive ∷ rest) h = omega (arith, await_block-ok rest h)
  await_block-ok (ok (have i) ∷ rest) h = omega (arith, await_block-ok rest h)
  await_block-ok (ok unchoke ∷ rest) h = cc
  await_block-ok (ok (bitfield bits) ∷ rest) h = cc
  await_block-ok (ok interested ∷ rest) h = cc
  await_block-ok (ok not_interested ∷ rest) h = cc
  await_block-ok (ok (request a b c) ∷ rest) h = cc
  await_block-ok (ok (cancel a b c) ∷ rest) h = cc
  await_block-ok (ok (port a) ∷ rest) h = cc
  await_block-ok (ok (extended a b) ∷ rest) h = cc

write_all-inbox :
    (message : PeerMessage) (errors : List (Option ProxyError)) (c : Connection)
    → (write_all message errors c).1.inbox ≡ c.inbox
unfolding write_all
write_all-inbox message [] c = refl
write_all-inbox message (none ∷ errors) c = refl
write_all-inbox message (some e ∷ errors) c = refl

send_by :
    (encoded : Result Bytes) (message : PeerMessage) (c : Connection)
    → ((lift encoded >>= λ _. gets (λ c. c.send_errors) >>= λ errors. write_all message errors)
        c).1.inbox
      ≡ c.inbox
send_by (ok encoded) message c = write_all-inbox message c.send_errors c
send_by (err e) message c = refl

send-inbox : (message : PeerMessage) (c : Connection) → (send message c).1.inbox ≡ c.inbox
unfolding send
send-inbox message c = send_by (encode_peer_message message) message c

-- A block of the size asked for, at the cost of an unchoke.
abbrev pub Taken : ℕ → Connection → Bytes → Connection → Type 0
Taken size c bytes c' = (length bytes ≡ size) × (unchokes c'.inbox + 1 ≤ unchokes c.inbox)

download_block-ok :
    (index begin size : ℕ) (c : Connection)
    → Ensures (Taken size c) (download_block index begin size c)
unfolding download_block
download_block-ok index begin size c =
    let c₁ = (send interested c).1 in
    let c₂ = (listen await_unchoke c₁).1 in
    let c₃ = (send (request index begin size) c₂).1 in
    Ensures-bind (Taken size c) (lift (validate_block_request begin size)) _ c λ _ _.
      Ensures-bind (Taken size c) (send interested) _ c λ _ _.
        Ensures-bind (Taken size c) (listen await_unchoke) _ c₁ λ _ free.
          Ensures-bind (Taken size c) (send (request index begin size)) _ c₂ λ _ _ bytes got.
            let (l, u) = await_block-ok index begin size c₃.silence bytes c₃.inbox got in
            let e₁ : unchokes c₁.inbox ≡ unchokes c.inbox = ap unchokes (send-inbox interested c) in
            let e₃ : unchokes c₃.inbox ≡ unchokes c₂.inbox =
              ap unchokes (send-inbox (request index begin size) c₂) in
            (l, omega (arith, await_unchoke-unchokes c₁.inbox c₁.silence free))

-- The bytes from `begin` on, at the cost of an unchoke for each block.
abbrev pub TakenFrom : ℕ → Connection → Bytes → Connection → Type 0
TakenFrom missing c bytes c' =
    (length bytes ≡ missing) × (unchokes c'.inbox + block_count missing ≤ unchokes c.inbox)

one_block_less :
    (missing size : ℕ)
    → 0 < missing
    → size ≡ min missing max_request_block_bytes
    → block_count missing ≤ block_count (missing - size) + 1
one_block_less missing size h e = omega arith

no_more : (missing : ℕ) (c : Connection) → missing ≡ 0 → Ensures (TakenFrom missing c) (ok [], c)
no_more missing c e bytes h =
    let l : length bytes ≡ 0 = ap length (sym (ok_eq h)) in (omega arith, omega arith)

download_blocks-ok :
    (rounds index begin piece_length : ℕ) (c : Connection)
    → piece_length ≤ begin + rounds * 16384
    → Ensures
        (TakenFrom (piece_length - begin) c)
        (download_blocks rounds index begin piece_length c)
unfolding download_blocks
download_blocks-ok zero index begin piece_length c enough =
    no_more (piece_length - begin) c (omega arith)
download_blocks-ok (suc rounds) index begin piece_length c enough =
    elim (Bool-cases (ltb begin piece_length)) [
      | inr done ↦ rw done (no_more (piece_length - begin) c (ground arith))
      | inl more ↦ rw more (
          let size : ℕ = min (piece_length - begin) max_request_block_bytes in
          let c₁ = (download_block index begin size c).1 in
          Ensures-bind (TakenFrom (piece_length - begin) c) (download_block index begin size) _ c
            λ block got.
              Ensures-bind (TakenFrom (piece_length - begin) c)
                (download_blocks rounds index (begin + size) piece_length) _ c₁
                λ rest gots bytes h.
                  let (l₁, u₁) = download_block-ok index begin size c block got in
                  let (l₂, u₂) =
                    download_blocks-ok rounds index (begin + size) piece_length c₁ (ground arith)
                      rest gots in
                  let l : length bytes ≡ length block + length rest =
                    ap length (sym (ok_eq h)) ∙ length-append block rest in
                  let room : begin < piece_length = ground arith in
                  let fewer = one_block_less (piece_length - begin) size (omega arith) refl in
                  let left : piece_length - begin - size ≡ piece_length - (begin + size) =
                    omega arith in
                  (omega arith, omega arith))
    ]

abbrev invalid_length : ℕ → Bool
invalid_length piece_length = piece_length == 0 || ltb 8388608 piece_length

-- A piece that is downloaded has the length asked for, which is at least 1 and at most 8 MiB, and
-- the expected hash; and the peer sent at least one unchoke for each of its blocks of 16 KiB.
pub download_piece-IsExact :
    (digest : Bytes → Bytes) (index piece_length : ℕ) (expected_sha1 : Bytes) (c : Connection)
    (bytes : Bytes)
    → (download_piece digest index piece_length expected_sha1 c).0 ≡ ok bytes
    → (length bytes ≡ piece_length)
      × (digest bytes ≡ expected_sha1)
      × (0 < piece_length)
      × (piece_length ≤ 8388608)
      × (block_count piece_length ≤ unchokes c.inbox)
unfolding download_piece
download_piece-IsExact digest index piece_length expected_sha1 c bytes h =
    let P : Bytes → Connection → Type 0 = λ out _.
      (length out ≡ piece_length)
      × (digest out ≡ expected_sha1)
      × (0 < piece_length)
      × (piece_length ≤ 8388608)
      × (block_count piece_length ≤ unchokes c.inbox) in
    Ensures-check P (invalid_length piece_length) _ _ c
      (λ fits.
        Ensures-bind P (download_blocks (block_count piece_length) index 0 piece_length) _ c
          λ out got.
            let c₁ = (download_blocks (block_count piece_length) index 0 piece_length c).1 in
            let (l, u) =
              download_blocks-ok (block_count piece_length) index 0 piece_length c (omega arith) out
                got in
            Ensures-bind P (lift (verify_piece_sha1 digest out expected_sha1)) _ c₁ λ _ same last e.
              let d : digest out ≡ expected_sha1 =
                verify_piece_sha1-ok digest out expected_sha1 same in
              let o : out ≡ last = ok_eq e in
              subst (λ b. P b c) o (omega arith, d, ground arith, ground arith, omega arith))
      bytes h
