-- ===== src/Peer/Upload/Quota.antt =====
-- src/p2p_network.rs: an upload session keeps its quota.
use video_proxy_server.Prelude.{
  ℕ, zero, suc, ◌+◌, ◌≤◌, ◌≡◌, refl, ap, sym, ◌∙◌, Bool, true, false, ◌||◌, Option, none, some,
  List, [], ◌∷◌, ◌++◌, ltb, ◌==◌, length, arith,
}
use video_proxy_server.Error.{ProxyError, Result, ok, err, refused}
use video_proxy_server.Exec.{lift}
use video_proxy_server.Exec.Keeps.{Keeps-bind, Keeps-check}
use video_proxy_server.Storage.Disk.File.{Bytes}
use video_proxy_server.Peer.Message.{
  PeerMessage, keep_alive, choke, unchoke, interested, not_interested, have, bitfield, request,
  piece, cancel, port, extended, encode_peer_message,
}
use video_proxy_server.Peer.Torrent.{TorrentMetadata}
use video_proxy_server.Peer.Store.{FileErrors}
use video_proxy_server.Peer.Connection.{Connection, send, write_all}
use video_proxy_server.Peer.Upload.{
  Seeder, on_connection, serve_block, answer, serve_requests, heard, serve_upload_requests,
}
use video_proxy_server.Peer.Upload.Serving.{Grown, serve_block-Grown, serve_block-Paid}

-- The bytes of a block in a message.
abbrev pub size_in : PeerMessage → ℕ
size_in (piece index begin block) = length block
size_in _ = 0

-- The bytes of the blocks among the messages that were sent.
abbrev pub block_bytes : List PeerMessage → ℕ
block_bytes [] = 0
block_bytes (message ∷ sent) = size_in message + block_bytes sent

true_ne_false : true ≡ false → ⊥
true_ne_false h = cc

block_bytes-append :
    (sent : List PeerMessage) (message : PeerMessage)
    → block_bytes (sent ++ message ∷ []) ≡ block_bytes sent + size_in message
block_bytes-append [] message = omega arith
block_bytes-append (first ∷ sent) message = omega (arith, block_bytes-append sent message)

write_all-blocks :
    (message : PeerMessage) (errors : List (Option ProxyError)) (c : Connection)
    → block_bytes (write_all message errors c).1.sent ≤ block_bytes c.sent + size_in message
unfolding write_all
write_all-blocks message [] c = omega (arith, block_bytes-append c.sent message)
write_all-blocks message (none ∷ errors) c = omega (arith, block_bytes-append c.sent message)
write_all-blocks message (some e ∷ errors) c = omega arith

send-blocks :
    (message : PeerMessage) (c : Connection)
    → block_bytes (send message c).1.sent ≤ block_bytes c.sent + size_in message
unfolding send
send-blocks message c =
    Keeps-bind (λ (d : Connection). block_bytes d.sent ≤ block_bytes c.sent + size_in message)
      (lift (encode_peer_message message)) _ c (omega arith)
      λ _ _. write_all-blocks message c.send_errors c

module _ (digest : Bytes → Bytes) (env : ℕ → FileErrors) (metadata : TorrentMetadata)
    (start : Seeder) where
  -- What was sent since the start is paid for out of the quota.
  record InQuota (t : Seeder) : Type 0 where
    pub limit : t.upload.max_bytes ≡ start.upload.max_bytes
    pub allowed : t.upload.authorized ≡ start.upload.authorized
    pub within : t.upload.uploaded ≤ start.upload.max_bytes
    pub paid :
        block_bytes t.connection.sent + start.upload.uploaded
        ≤ block_bytes start.connection.sent + t.upload.uploaded
    pub denied :
        start.upload.authorized ≡ false
        → block_bytes t.connection.sent ≤ block_bytes start.connection.sent

  heard-InQuota :
      (rest : List (Result PeerMessage)) (t : Seeder) → InQuota t → InQuota (heard rest t)
  heard-InQuota rest t q = record {
    limit = q.limit;
    allowed = q.allowed;
    within = q.within;
    paid = q.paid;
    denied = q.denied;
  }

  Grown-InQuota : (t u : Seeder) → InQuota t → Grown digest env metadata t u → InQuota u
  Grown-InQuota t u q g =
      let same : block_bytes u.connection.sent ≡ block_bytes t.connection.sent =
        ap (λ (c : Connection). block_bytes c.sent) g.quiet in
      record {
        limit = g.limit ∙ q.limit;
        allowed = g.allowed ∙ q.allowed;
        within = omega (arith, q.limit, g.within);
        paid = omega (arith, q.paid, g.more);
        denied = λ h. omega (arith, q.denied h);
      }

  not_denied {ℓ} : {P : Type ℓ} (b : Bool) → b ≡ true → b ≡ false → P
  not_denied b h k = absurd (true_ne_false (sym h ∙ k))

  answer-InQuota :
      (index begin size : ℕ) (t : Seeder)
      → InQuota t
      → InQuota (answer digest env metadata index begin size t).1
  unfolding answer
  answer-InQuota index begin size t q =
      let u = (serve_block digest env metadata index begin size t).1 in
      let within : t.upload.uploaded ≤ t.upload.max_bytes = omega (arith, q.limit, q.within) in
      let g = serve_block-Grown digest env metadata t index begin size within in
      let r = Grown-InQuota t u q g in
      Keeps-bind InQuota (serve_block digest env metadata index begin size) _ t r λ block served.
        let (cost, authorized) =
          serve_block-Paid digest env metadata t index begin size block served in
        let same : block_bytes u.connection.sent ≡ block_bytes t.connection.sent =
          ap (λ (c : Connection). block_bytes c.sent) g.quiet in
        let sent = send-blocks (piece index begin block) u.connection in
        record {
          limit = r.limit;
          allowed = r.allowed;
          within = r.within;
          paid = omega (arith, q.paid);
          denied = λ h. not_denied t.upload.authorized authorized (q.allowed ∙ h);
        }

  requests-InQuota :
      (served left : ℕ) (inbox : List (Result PeerMessage)) (t : Seeder)
      → InQuota t
      → InQuota (serve_requests digest env metadata served left inbox t).1
  unfolding serve_requests
  requests-InQuota served zero inbox t q = q
  requests-InQuota served (suc left) [] t q = q
  requests-InQuota served (suc left) (err e ∷ rest) t q = heard-InQuota rest t q
  requests-InQuota served (suc left) (ok (request index begin size) ∷ rest) t q =
      let u = heard rest t in
      let after = answer-InQuota index begin size u (heard-InQuota rest t q) in
      Keeps-bind InQuota (answer digest env metadata index begin size) _ u after λ _ _.
        requests-InQuota (served + 1) left rest (answer digest env metadata index begin size u).1
          after
  requests-InQuota served (suc left) (ok (cancel _ _ _) ∷ rest) t q =
      requests-InQuota served (suc left) rest (heard rest t) (heard-InQuota rest t q)
  requests-InQuota served (suc left) (ok keep_alive ∷ rest) t q =
      requests-InQuota served (suc left) rest (heard rest t) (heard-InQuota rest t q)
  requests-InQuota served (suc left) (ok interested ∷ rest) t q =
      requests-InQuota served (suc left) rest (heard rest t) (heard-InQuota rest t q)
  requests-InQuota served (suc left) (ok not_interested ∷ rest) t q = heard-InQuota rest t q
  requests-InQuota served (suc left) (ok choke ∷ rest) t q = heard-InQuota rest t q
  requests-InQuota served (suc left) (ok unchoke ∷ rest) t q = heard-InQuota rest t q
  requests-InQuota served (suc left) (ok (have _) ∷ rest) t q = heard-InQuota rest t q
  requests-InQuota served (suc left) (ok (bitfield _) ∷ rest) t q = heard-InQuota rest t q
  requests-InQuota served (suc left) (ok (piece _ _ _) ∷ rest) t q = heard-InQuota rest t q
  requests-InQuota served (suc left) (ok (port _) ∷ rest) t q = heard-InQuota rest t q
  requests-InQuota served (suc left) (ok (extended _ _) ∷ rest) t q = heard-InQuota rest t q

-- However a session of uploads ends, the bytes of the blocks that it sent are counted as uploaded,
-- and the count stays within the quota if it was within it before; a session that is not authorised
-- sends no block.
pub serve_upload_requests-quota :
    (digest : Bytes → Bytes) (env : ℕ → FileErrors) (metadata : TorrentMetadata) (max_requests : ℕ)
    (s : Seeder)
    → s.upload.uploaded ≤ s.upload.max_bytes
    → let t = (serve_upload_requests digest env metadata max_requests s).1 in
      (block_bytes t.connection.sent + s.upload.uploaded
        ≤ block_bytes s.connection.sent + t.upload.uploaded)
      × (t.upload.uploaded ≤ s.upload.max_bytes)
      × (s.upload.authorized ≡ false
          → block_bytes t.connection.sent ≤ block_bytes s.connection.sent)
unfolding serve_upload_requests
serve_upload_requests-quota digest env metadata max_requests s h =
    let Q : Seeder → Type 0 = InQuota digest env metadata s in
    let q : Q s = record {
      limit = refl;
      allowed = refl;
      within = h;
      paid = omega arith;
      denied = λ _. omega arith;
    } in
    let u = (on_connection (send unchoke) s).1 in
    let b = send-blocks unchoke s.connection in
    let p : Q u = record {
      limit = refl;
      allowed = refl;
      within = h;
      paid = omega arith;
      denied = λ _. omega arith;
    } in
    let r : Q (serve_upload_requests digest env metadata max_requests s).1 =
      Keeps-check Q (max_requests == 0 || ltb 100000 max_requests)
        (refused "invalid upload request limit") _ s q
        λ _.
          Keeps-bind Q (on_connection (send unchoke)) _ s p
            λ _ _. requests-InQuota digest env metadata s 0 max_requests u.connection.inbox u p in
    (r.paid, r.within, r.denied)
