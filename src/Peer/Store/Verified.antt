-- ===== src/Peer/Store/Verified.antt =====
-- src/p2p_network.rs: what `TorrentPieceStore` returns is verified.
use video_proxy_server.Prelude.{
  ℕ, ◌≤◌, ◌<◌, ◌≡◌, ◌≢◌, refl, ==_iff, true, false, Option, none, some, [], ◌∷◌, length, arith,
}
use video_proxy_server.Map.{
  nat_eq, list_eq, ◌=?◌, =?-refl, lookup, insert, list_beq_iff, lookup-insert,
}
use video_proxy_server.Error.{ProxyError, ok}
use video_proxy_server.Exec.{◌>>=◌, ◌>>◌, lift, gets, attempt}
use video_proxy_server.Exec.Ensures.{Ensures, Ensures-bind, Ensures-check, Ensures-attempt}
use video_proxy_server.Storage.Disk.File.{Bytes}
use video_proxy_server.Peer.Store.{
  PieceFiles, FileErrors, max_piece_bytes, invalid_size, verify_piece_sha1, store, accept,
  load_found, load,
}

pub verify_piece_sha1-ok :
    (digest : Bytes → Bytes) (bytes expected : Bytes)
    → verify_piece_sha1 digest bytes expected ≡ ok tt
    → digest bytes ≡ expected
unfolding verify_piece_sha1
verify_piece_sha1-ok digest bytes expected h = ground (arith, list_beq_iff (digest bytes) expected)

module _ (digest : Bytes → Bytes) (index : ℕ) (expected_sha1 : Bytes) where
  -- What makes a file a piece.
  abbrev IsPiece : Bytes → Type 0
  IsPiece bytes =
      (digest bytes ≡ expected_sha1) × (0 < length bytes) × (length bytes ≤ max_piece_bytes)

  accept-ok :
      (removal : Option ProxyError) (found bytes : Bytes) (files : PieceFiles)
      → (accept digest removal index expected_sha1 found files).0 ≡ ok (some bytes)
      → IsPiece bytes × ((accept digest removal index expected_sha1 found files).1 ≡ files)
  unfolding accept invalid_size
  accept-ok removal [] bytes files h = cc
  accept-ok removal (b ∷ found) bytes files h =
      ground (arith, list_beq_iff (digest (b ∷ found)) expected_sha1)

  load_found-ok :
      (removal : Option ProxyError) (found : Option Bytes) (bytes : Bytes) (files : PieceFiles)
      → (load_found digest removal index expected_sha1 found files).0 ≡ ok (some bytes)
      → IsPiece bytes × ((load_found digest removal index expected_sha1 found files).1 ≡ files)
  unfolding load_found
  load_found-ok removal none bytes files h = cc
  load_found-ok removal (some found) bytes files h = accept-ok removal found bytes files h

  load_by :
      (removal : Option ProxyError) (read_error : Option ProxyError) (bytes : Bytes)
      (files : PieceFiles)
      → ((attempt read_error
            >> (gets (lookup index) >>= λ found.
                load_found digest removal index expected_sha1 found))
          files).0
        ≡ ok (some bytes)
      → IsPiece bytes
        × (((attempt read_error
                >> (gets (lookup index) >>= λ found.
                    load_found digest removal index expected_sha1 found))
              files).1
            ≡ files)
  load_by removal none bytes files h = load_found-ok removal (lookup index files) bytes files h
  load_by removal (some e) bytes files h = cc

-- Whatever the files hold, a piece that is loaded has the expected hash and a valid size, and
-- loading it leaves the files as they were.
pub load-IsPiece :
    (digest : Bytes → Bytes) (env : FileErrors) (index : ℕ) (expected_sha1 bytes : Bytes)
    (files : PieceFiles)
    → (load digest env index expected_sha1 files).0 ≡ ok (some bytes)
    → (digest bytes ≡ expected_sha1)
      × (0 < length bytes)
      × (length bytes ≤ max_piece_bytes)
      × ((load digest env index expected_sha1 files).1 ≡ files)
unfolding load
load-IsPiece digest env index expected_sha1 bytes files h =
    let ((d, lo, hi), e) =
      load_by digest index expected_sha1 env.remove_error env.read_error bytes files h in
    (d, lo, hi, e)

accept-piece :
    (digest : Bytes → Bytes) (removal : Option ProxyError) (index : ℕ) (expected_sha1 bytes : Bytes)
    (files : PieceFiles)
    → invalid_size bytes ≡ false
    → digest bytes ≡ expected_sha1
    → accept digest removal index expected_sha1 bytes files ≡ (ok (some bytes), files)
unfolding accept
accept-piece digest removal index expected_sha1 bytes files v e =
    let same : (digest bytes =? expected_sha1) ≡ true =
      (list_beq_iff (digest bytes) expected_sha1).1 e in
    rw (v, same) refl

-- What a store that succeeded left.
pub stored_by :
    (digest : Bytes → Bytes) (env : FileErrors) (index : ℕ) (bytes expected_sha1 : Bytes)
    (files : PieceFiles)
    → Ensures {A = Unit {0}}
        (λ _ after.
          (invalid_size bytes ≡ false)
          × (digest bytes ≡ expected_sha1)
          × (after ≡ insert index bytes files))
        (store digest env index bytes expected_sha1 files)
unfolding store
stored_by digest env index bytes expected_sha1 files =
    let P : Unit {0} → PieceFiles → Type 0 = λ _ after.
      (invalid_size bytes ≡ false)
      × (digest bytes ≡ expected_sha1)
      × (after ≡ insert index bytes files) in
    Ensures-check P (invalid_size bytes) _ _ files λ valid.
      Ensures-bind P (lift (verify_piece_sha1 digest bytes expected_sha1)) _ files λ _ same.
        Ensures-attempt P env.write_error _ files (
          Ensures-attempt P env.rename_error _ files
            λ _ _. (valid, verify_piece_sha1-ok digest bytes expected_sha1 same, refl))

load_found-insert :
    (digest : Bytes → Bytes) (removal : Option ProxyError) (index : ℕ) (bytes expected_sha1 : Bytes)
    (files : PieceFiles)
    → invalid_size bytes ≡ false
    → digest bytes ≡ expected_sha1
    → load_found digest removal index expected_sha1
        (lookup index (insert index bytes files))
        (insert index bytes files)
      ≡ (ok (some bytes), insert index bytes files)
unfolding load_found
load_found-insert digest removal index bytes expected_sha1 files v e =
    let found : lookup index (insert index bytes files) ≡ some bytes =
      rw (lookup-insert index index bytes files, =?-refl index) refl in
    rw found (accept-piece digest removal index expected_sha1 bytes (insert index bytes files) v e)

pub lookup-insert_other :
    (index j : ℕ) (bytes : Bytes) (files : PieceFiles)
    → j ≢ index
    → lookup j (insert index bytes files) ≡ lookup j files
lookup-insert_other index j bytes files n =
    let other : (index =? j) ≡ false = ground (arith, ==_iff index j) in
    rw (lookup-insert index j bytes files, other) refl

-- A piece that was stored is loaded again, if it can be read, and no other piece is touched.
pub load-store :
    (digest : Bytes → Bytes) (env env' : FileErrors) (index : ℕ) (bytes expected_sha1 : Bytes)
    (files : PieceFiles)
    → (store digest env index bytes expected_sha1 files).0 ≡ ok tt
    → env'.read_error ≡ none
    → let after = (store digest env index bytes expected_sha1 files).1 in
      (load digest env' index expected_sha1 after ≡ (ok (some bytes), after))
      × ((j : ℕ) → j ≢ index → lookup j after ≡ lookup j files)
unfolding load
load-store digest env env' index bytes expected_sha1 files h r =
    let (v, d, e) = stored_by digest env index bytes expected_sha1 files tt h in
    rw (e, r)
      (
        load_found-insert digest env'.remove_error index bytes expected_sha1 files v d,
        λ j n. lookup-insert_other index j bytes files n,
      )
