-- ===== src/Peer/Upload/Serving.antt =====
-- src/p2p_network.rs: `serve_block` of an upload session.
use video_proxy_server.Prelude.{
  ℕ, ◌+◌, ◌-◌, ◌≤◌, ◌≡◌, refl, ap, true, not, Option, none, some, ltb, length, length-take,
  length-drop, drop, get_elem?, checked_add, arith,
}
use video_proxy_server.Error.{ProxyError, ok, ok_or, ok_eq, refused}
use video_proxy_server.Exec.{lift}
use video_proxy_server.Exec.Keeps.{Keeps-bind, Keeps-check}
use video_proxy_server.Exec.Ensures.{Ensures, Ensures-bind, Ensures-check}
use video_proxy_server.Storage.Disk.File.{Bytes}
use video_proxy_server.Peer.Torrent.{TorrentMetadata, torrent_piece_length}
use video_proxy_server.Peer.Store.{FileErrors, load}
use video_proxy_server.Peer.Connection.{validate_block_request}
use video_proxy_server.Peer.Upload.{
  Seeder, on_files, checked_add_u32, slice, read_block, serve_block,
}

some_or : {A : Type 0} (o : Option A) (e : ProxyError) (a : A) → ok_or o e ≡ ok a → o ≡ some a
some_or none e a h = cc
some_or (some x) e a h = cc

checked_add-some : (a b n : ℕ) → checked_add a b ≡ some n → n ≡ a + b
checked_add-some a b n h = ground arith

checked_add_u32-some : (a b n : ℕ) → checked_add_u32 a b ≡ some n → n ≡ a + b
checked_add_u32-some a b n h = ground arith

slice-length :
    (begin end : ℕ) (bytes block : Bytes)
    → begin ≤ end
    → slice begin end bytes ≡ some block
    → length block ≡ end - begin
slice-length begin end bytes block h e =
    ground (arith, length-take (end - begin) (drop begin bytes), length-drop begin bytes)

module _ (digest : Bytes → Bytes) (env : ℕ → FileErrors) (metadata : TorrentMetadata)
    (s : Seeder) where
  -- The connection is left alone, and what was uploaded grows within the quota.
  pub record Grown (t : Seeder) : Type 0 where
    pub quiet : t.connection ≡ s.connection
    pub limit : t.upload.max_bytes ≡ s.upload.max_bytes
    pub allowed : t.upload.authorized ≡ s.upload.authorized
    pub more : s.upload.uploaded ≤ t.upload.uploaded
    pub within : t.upload.uploaded ≤ s.upload.max_bytes

  read_block-Grown :
      (index begin end next_total : ℕ)
      → s.upload.uploaded ≤ next_total
      → next_total ≤ s.upload.max_bytes
      → Grown (read_block digest env metadata index begin end next_total s).1
  unfolding read_block
  read_block-Grown index begin end next_total lo hi =
      let g : Grown s = record {
        quiet = refl;
        limit = refl;
        allowed = refl;
        more = omega arith;
        within = omega arith;
      } in
      Keeps-bind Grown
        (lift
          (ok_or (get_elem? metadata.piece_sha1 index) (refused "upload piece index out of range")))
        _ s g
        λ hash _.
          let s₁ = (on_files (load digest (env index) index hash) s).1 in
          let g₁ : Grown s₁ = record {
            quiet = refl;
            limit = refl;
            allowed = refl;
            more = omega arith;
            within = omega arith;
          } in
          Keeps-bind Grown (on_files (load digest (env index) index hash)) _ s g₁ λ found _.
            Keeps-bind Grown (lift (ok_or found (refused "upload piece is unavailable"))) _ s₁ g₁
              λ bytes _.
                Keeps-bind Grown
                  (lift (ok_or (slice begin end bytes) (refused "upload block range is invalid"))) _
                  s₁ g₁
                  λ block _. record {
                    quiet = refl;
                    limit = refl;
                    allowed = refl;
                    more = lo;
                    within = hi;
                  }

  pub serve_block-Grown :
      (index begin size : ℕ)
      → s.upload.uploaded ≤ s.upload.max_bytes
      → Grown (serve_block digest env metadata index begin size s).1
  unfolding serve_block
  serve_block-Grown index begin size within =
      let g : Grown s = record {
        quiet = refl;
        limit = refl;
        allowed = refl;
        more = omega arith;
        within = within;
      } in
      Keeps-check Grown (not s.upload.authorized) (refused "torrent upload is not authorized") _ s g
        λ _. Keeps-bind Grown (lift (validate_block_request begin size)) _ s g λ _ _.
          Keeps-bind Grown (lift (torrent_piece_length metadata index)) _ s g λ piece_length _.
            Keeps-bind Grown
              (lift (ok_or (checked_add_u32 begin size) (refused "upload block range overflow"))) _
              s g
              λ end _.
                Keeps-check Grown (ltb piece_length end) (refused "upload block exceeds piece") _ s
                  g
                  λ _.
                    Keeps-bind Grown
                      (lift (
                        ok_or (checked_add s.upload.uploaded size)
                          (refused "upload quota overflow")))
                      _ s g
                      λ next_total total.
                        Keeps-check Grown (ltb s.upload.max_bytes next_total)
                          (refused "upload quota exceeded") _ s g
                          λ fits.
                            let e : next_total ≡ s.upload.uploaded + size =
                              checked_add-some _ size next_total (some_or _ _ next_total total) in
                            read_block-Grown index begin end next_total (omega arith) (ground arith)

  -- A block that is served is paid for.
  abbrev pub Paid : Bytes → Seeder → Type 0
  Paid block t =
      (t.upload.uploaded ≡ s.upload.uploaded + length block) × (s.upload.authorized ≡ true)

  read_block-Paid :
      (index begin end next_total size : ℕ)
      → end ≡ begin + size
      → next_total ≡ s.upload.uploaded + size
      → s.upload.authorized ≡ true
      → Ensures Paid (read_block digest env metadata index begin end next_total s)
  unfolding read_block
  read_block-Paid index begin end next_total size he hn allowed =
      Ensures-bind Paid
        (lift
          (ok_or (get_elem? metadata.piece_sha1 index) (refused "upload piece index out of range")))
        _ s
        λ hash _.
          let s₁ = (on_files (load digest (env index) index hash) s).1 in
          Ensures-bind Paid (on_files (load digest (env index) index hash)) _ s λ found _.
            Ensures-bind Paid (lift (ok_or found (refused "upload piece is unavailable"))) _ s₁
              λ bytes _.
                Ensures-bind Paid
                  (lift (ok_or (slice begin end bytes) (refused "upload block range is invalid"))) _
                  s₁
                  λ block cut out e.
                    let l : length block ≡ end - begin =
                      slice-length begin end bytes block (omega arith) (some_or _ _ block cut) in
                    let same : length block ≡ length out = ap length (ok_eq e) in
                    (omega arith, allowed)

  pub serve_block-Paid :
      (index begin size : ℕ) → Ensures Paid (serve_block digest env metadata index begin size s)
  unfolding serve_block
  serve_block-Paid index begin size =
      Ensures-check Paid (not s.upload.authorized) (refused "torrent upload is not authorized") _ s
        λ allowed. Ensures-bind Paid (lift (validate_block_request begin size)) _ s λ _ _.
          Ensures-bind Paid (lift (torrent_piece_length metadata index)) _ s λ piece_length _.
            Ensures-bind Paid
              (lift (ok_or (checked_add_u32 begin size) (refused "upload block range overflow"))) _
              s
              λ end ends.
                Ensures-check Paid (ltb piece_length end) (refused "upload block exceeds piece") _ s
                  λ _.
                    Ensures-bind Paid
                      (lift (
                        ok_or (checked_add s.upload.uploaded size)
                          (refused "upload quota overflow")))
                      _ s
                      λ next_total total.
                        Ensures-check Paid (ltb s.upload.max_bytes next_total)
                          (refused "upload quota exceeded") _ s
                          λ fits.
                            read_block-Paid index begin end next_total size
                              (checked_add_u32-some begin size end (some_or _ _ end ends))
                              (checked_add-some _ size next_total (some_or _ _ next_total total))
                              (ground arith)
