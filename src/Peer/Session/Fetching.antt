-- ===== src/Peer/Session/Fetching.antt =====
-- src/p2p_network.rs: what fetching one piece does to the scheduler and to the files.
use video_proxy_server.Prelude.{ℕ, ◌≡◌, ◌≢◌, refl, ap, sym, ◌∙◌, Option, none, some, get_elem?}
use video_proxy_server.Map.{nat_eq, list_eq, lookup, insert, =?-refl, lookup-insert}
use video_proxy_server.Error.{ProxyError, ok, ok_or, refused}
use video_proxy_server.Exec.{lift}
use video_proxy_server.Exec.Keeps.{Keeps-bind}
use video_proxy_server.Exec.Ensures.{Ensures, Ensures-bind}
use video_proxy_server.Storage.Disk.File.{Bytes}
use video_proxy_server.Peer.Torrent.{TorrentMetadata, torrent_piece_length}
use video_proxy_server.Peer.Store.{PieceFiles, FileErrors, load}
use video_proxy_server.Peer.Store.Verified.{load-IsPiece, stored_by}
use video_proxy_server.Peer.Store.Others.{load-other, store-other, load-lookup}
use video_proxy_server.Peer.Connection.{download_piece}
use video_proxy_server.Peer.Session.{Session, on_connection, on_files, fetch_missing, fetch}

-- A file of the piece that has the hash of the torrent.
abbrev pub Holds : (Bytes → Bytes) → TorrentMetadata → ℕ → PieceFiles → Type 0
Holds digest metadata index files =
    (bytes : Bytes) × (lookup index files ≡ some bytes)
    × (get_elem? metadata.piece_sha1 index ≡ some (digest bytes))

module _ (digest : Bytes → Bytes) (env : ℕ → FileErrors) (metadata : TorrentMetadata)
    (index : ℕ) where
  fetch_missing-scheduler :
      (size : ℕ) (expected : Bytes) (found : Option Bytes) (s : Session)
      → (fetch_missing digest env metadata index size expected found s).1.scheduler ≡ s.scheduler
  unfolding fetch_missing
  fetch_missing-scheduler size expected (some bytes) s = refl
  fetch_missing-scheduler size expected none s =
      Keeps-bind (λ (t : Session). t.scheduler ≡ s.scheduler)
        (on_connection (download_piece digest index size expected)) _ s refl λ _ _. refl

  pub fetch-scheduler :
      (s : Session) → (fetch digest env metadata index s).1.scheduler ≡ s.scheduler
  unfolding fetch
  fetch-scheduler s =
      let P : Session → Type 0 = λ t. t.scheduler ≡ s.scheduler in
      Keeps-bind P (lift (torrent_piece_length metadata index)) _ s refl λ size _.
        Keeps-bind P
          (lift
            (ok_or (get_elem? metadata.piece_sha1 index) (refused "piece hash index out of range")))
          _ s refl
          λ expected _.
            Keeps-bind P (on_files (load digest (env index) index expected)) _ s refl
              λ found _. fetch_missing-scheduler size expected found _

  fetch_missing-other :
      (j : ℕ) (n : j ≢ index) (size : ℕ) (expected : Bytes) (found : Option Bytes) (s : Session)
      → lookup j (fetch_missing digest env metadata index size expected found s).1.files
        ≡ lookup j s.files
  unfolding fetch_missing
  fetch_missing-other j n size expected (some bytes) s = refl
  fetch_missing-other j n size expected none s =
      Keeps-bind (λ (t : Session). lookup j t.files ≡ lookup j s.files)
        (on_connection (download_piece digest index size expected)) _ s refl
        λ bytes _. store-other digest (env index) index j n expected s.files bytes

  -- The files of the other pieces stay as they were.
  pub fetch-other :
      (j : ℕ) (n : j ≢ index) (s : Session)
      → lookup j (fetch digest env metadata index s).1.files ≡ lookup j s.files
  unfolding fetch
  fetch-other j n s =
      let P : Session → Type 0 = λ t. lookup j t.files ≡ lookup j s.files in
      Keeps-bind P (lift (torrent_piece_length metadata index)) _ s refl λ size _.
        Keeps-bind P
          (lift
            (ok_or (get_elem? metadata.piece_sha1 index) (refused "piece hash index out of range")))
          _ s refl
          λ expected _.
            Keeps-bind P (on_files (load digest (env index) index expected)) _ s
              (load-other digest (env index) index j n expected s.files)
              λ found _.
                (fetch_missing-other j n size expected found _
                  ∙ load-other digest (env index) index j n expected s.files)

  ok_or-some :
      (o : Option Bytes) (e : ProxyError) (expected : Bytes)
      → ok_or o e ≡ ok expected
      → o ≡ some expected
  ok_or-some none e expected h = cc
  ok_or-some (some x) e expected h = cc

  fetch_missing-Holds :
      (size : ℕ) (expected : Bytes) (found : Option Bytes) (s : Session)
      → get_elem? metadata.piece_sha1 index ≡ some expected
      → ((bytes : Bytes)
          → found ≡ some bytes
          → (lookup index s.files ≡ some bytes) × (digest bytes ≡ expected))
      → Ensures {A = Unit {0}}
          (λ _ t. Holds digest metadata index t.files)
          (fetch_missing digest env metadata index size expected found s)
  unfolding fetch_missing
  fetch_missing-Holds size expected (some bytes) s known was =
      λ _ _. let (l, d) = was bytes refl in (bytes, l, known ∙ ap some (sym d))
  fetch_missing-Holds size expected none s known was =
      Ensures-bind {A = Bytes} (λ (_ : Unit {0}) t. Holds digest metadata index t.files)
        (on_connection (download_piece digest index size expected)) _ s
        λ bytes _ done h.
          let (_, d, e) = stored_by digest (env index) index bytes expected s.files done h in
          let l : lookup index (insert index bytes s.files) ≡ some bytes =
            lookup-insert index index bytes s.files ∙ rw (=?-refl index) refl in
          (bytes, rw e l, known ∙ ap some (sym d))

  loaded :
      (files : PieceFiles) (expected bytes : Bytes)
      → (load digest (env index) index expected files).0 ≡ ok (some bytes)
      → (lookup index (load digest (env index) index expected files).1 ≡ some bytes)
        × (digest bytes ≡ expected)
  loaded files expected bytes h =
      let (d, _, _, same) = load-IsPiece digest (env index) index expected bytes files h in
      (rw same (load-lookup digest index expected bytes files (env index) h), d)

  pub fetch-Holds :
      (s : Session)
      → Ensures (λ _ t. Holds digest metadata index t.files) (fetch digest env metadata index s)
  unfolding fetch
  fetch-Holds s =
      let P : Unit {0} → Session → Type 0 = λ _ t. Holds digest metadata index t.files in
      Ensures-bind P (lift (torrent_piece_length metadata index)) _ s λ size _.
        Ensures-bind P
          (lift
            (ok_or (get_elem? metadata.piece_sha1 index) (refused "piece hash index out of range")))
          _ s
          λ expected known.
            Ensures-bind P (on_files (load digest (env index) index expected)) _ s λ found got.
              fetch_missing-Holds size expected found _ (ok_or-some _ _ expected known)
                (λ bytes e. loaded s.files expected bytes (got ∙ ap ok e))
