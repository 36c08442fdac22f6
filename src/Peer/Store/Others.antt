-- ===== src/Peer/Store/Others.antt =====
-- src/p2p_network.rs: loading and storing a piece leaves the other pieces alone, and what is loaded
-- or stored is what the files hold.
use video_proxy_server.Prelude.{
  ℕ, ◌≡◌, ◌≢◌, refl, ap, inl, inr, false, ◌||◌, not, Option, none, some, if◌then◌else◌, arith,
  Bool-cases, ==_iff,
}
use video_proxy_server.Map.{nat_eq, list_eq, ◌=?◌, lookup, remove, lookup-remove}
use video_proxy_server.Error.{ProxyError, ok, storage, text}
use video_proxy_server.Exec.{◌>>=◌, ◌>>◌, lift, gets, attempt}
use video_proxy_server.Exec.Keeps.{Keeps-bind, Keeps-attempt}
use video_proxy_server.Storage.Disk.File.{Bytes}
use video_proxy_server.Peer.Store.{
  PieceFiles, FileErrors, invalid_size, verify_piece_sha1, store, discard, accept, load_found, load,
}
use video_proxy_server.Peer.Store.Verified.{lookup-insert_other}

module _ (digest : Bytes → Bytes) (env : FileErrors) (index j : ℕ) (n : j ≢ index)
    (expected_sha1 : Bytes) (files : PieceFiles) where
  -- The file of `j` is what it was.
  abbrev Same : PieceFiles → Type 0
  Same after = lookup j after ≡ lookup j files

  lookup-remove_other : lookup j (remove index files) ≡ lookup j files
  lookup-remove_other =
      let other : (index =? j) ≡ false = ground (arith, ==_iff index j) in
      rw (lookup-remove index j files, other) refl

  discard-other : (removal : Option ProxyError) → Same (discard digest removal index files)
  discard-other none = lookup-remove_other
  discard-other (some e) = refl

  accept-other :
      (removal : Option ProxyError) (bytes : Bytes)
      → Same (accept digest removal index expected_sha1 bytes files).1
  unfolding accept
  accept-other removal bytes =
      elim (Bool-cases (invalid_size bytes || not (digest bytes =? expected_sha1))) [
        | inl e ↦ rw e (discard-other removal)
        | inr e ↦ rw e refl
      ]

  load_found-other :
      (removal : Option ProxyError) (found : Option Bytes)
      → Same (load_found digest removal index expected_sha1 found files).1
  unfolding load_found
  load_found-other removal none = refl
  load_found-other removal (some bytes) = accept-other removal bytes

  pub load-other : Same (load digest env index expected_sha1 files).1
  unfolding load
  load-other =
      Keeps-attempt Same env.read_error _ files refl
        (load_found-other env.remove_error (lookup index files))

  pub store-other : (bytes : Bytes) → Same (store digest env index bytes expected_sha1 files).1
  unfolding store
  store-other bytes =
      Keeps-attempt Same
        (if invalid_size bytes then some (storage (text "invalid torrent piece size")) else none) _
        files refl
        (Keeps-bind Same (lift (verify_piece_sha1 digest bytes expected_sha1)) _ files refl λ _ _.
          Keeps-attempt Same env.write_error _ files refl (
            Keeps-attempt Same env.rename_error _ files refl
              (lookup-insert_other index j bytes files n)))

module _ (digest : Bytes → Bytes) (index : ℕ) (expected_sha1 bytes : Bytes)
    (files : PieceFiles) where
  accept-same :
      (removal : Option ProxyError) (found : Bytes)
      → (accept digest removal index expected_sha1 found files).0 ≡ ok (some bytes)
      → found ≡ bytes
  unfolding accept
  accept-same removal found h = ground arith

  load_found-same :
      (removal : Option ProxyError) (found : Option Bytes)
      → (load_found digest removal index expected_sha1 found files).0 ≡ ok (some bytes)
      → found ≡ some bytes
  unfolding load_found
  load_found-same removal none h = cc
  load_found-same removal (some found) h = ap some (accept-same removal found h)

  load_same :
      (removal : Option ProxyError) (read_error : Option ProxyError)
      → ((attempt read_error
            >> (gets (lookup index) >>= λ found.
                load_found digest removal index expected_sha1 found))
          files).0
        ≡ ok (some bytes)
      → lookup index files ≡ some bytes
  load_same removal none h = load_found-same removal (lookup index files) h
  load_same removal (some e) h = cc

  pub load-lookup :
      (env : FileErrors)
      → (load digest env index expected_sha1 files).0 ≡ ok (some bytes)
      → lookup index files ≡ some bytes
  unfolding load
  load-lookup env h = load_same env.remove_error env.read_error h
