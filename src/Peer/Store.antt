-- ===== src/Peer/Store.antt =====
-- src/p2p_network.rs: `TorrentPieceStore`, the pieces of one torrent on disk. The hash `Sha1::digest`
-- is a parameter. A piece is written to a file of its own name with `.tmp` and renamed; the
-- temporary files are never read, so the state is what the final files hold.
pub mod Verified
pub mod Others
use video_proxy_server.Prelude.{
  ℕ, suc, ◌+◌, ◌≤◌, ◌<◌, ◌≡◌, Bool, true, false, ◌||◌, not, Option, none, some, List, [], ◌∷◌, leb,
  ltb, if◌then◌else◌, length,
}
use video_proxy_server.Map.{nat_eq, list_eq, ◌=?◌, lookup, insert, remove}
use video_proxy_server.Error.{ProxyError, Result, ok, err, refused, storage, text}
use video_proxy_server.Exec.{Exec, ◌>>=◌, ◌>>◌, pure, lift, modify, gets, attempt}
use video_proxy_server.Strings.{is_empty}
use video_proxy_server.Storage.Disk.File.{Bytes}

abbrev pub max_piece_bytes : ℕ
max_piece_bytes = 8388608

abbrev pub PieceFiles : Type 0
PieceFiles = List (ℕ × Bytes)

-- The errors that the calls of the system return.
pub record FileErrors : Type 0 where
  pub write_error : Option ProxyError
  pub rename_error : Option ProxyError
  pub read_error : Option ProxyError
  pub remove_error : Option ProxyError

unfoldable pub invalid_size : Bytes → Bool
invalid_size bytes = is_empty bytes || ltb max_piece_bytes (length bytes)

module _ (digest : Bytes → Bytes) where
  unfoldable pub verify_piece_sha1 : Bytes → Bytes → Result (Unit {0})
  verify_piece_sha1 piece expected =
      if not (digest piece =? expected)
      then err (refused "BitTorrent piece SHA-1 mismatch")
      else ok tt

  unfoldable pub store : FileErrors → ℕ → Bytes → Bytes → Exec PieceFiles (Unit {0})
  store env index bytes expected_sha1 = do
    attempt
        (if invalid_size bytes then some (storage (text "invalid torrent piece size")) else none)
    lift (verify_piece_sha1 bytes expected_sha1)
    attempt env.write_error
    attempt env.rename_error
    modify (insert index bytes)

  -- `let _ = remove_file(path)`: a removal that fails leaves the file.
  abbrev pub discard : Option ProxyError → ℕ → PieceFiles → PieceFiles
  discard none index files = remove index files
  discard (some e) index files = files

  -- What a file that was read is taken for, and how its removal would end.
  unfoldable pub accept : Option ProxyError → ℕ → Bytes → Bytes → Exec PieceFiles (Option Bytes)
  accept removal index expected_sha1 bytes files =
      if invalid_size bytes || not (digest bytes =? expected_sha1)
      then (ok none, discard removal index files)
      else (ok (some bytes), files)

  unfoldable pub load_found :
      Option ProxyError → ℕ → Bytes → Option Bytes → Exec PieceFiles (Option Bytes)
  load_found removal index expected_sha1 none = pure none
  load_found removal index expected_sha1 (some bytes) = accept removal index expected_sha1 bytes

  unfoldable pub load : FileErrors → ℕ → Bytes → Exec PieceFiles (Option Bytes)
  load env index expected_sha1 = do
    attempt env.read_error
    found ← gets (lookup index)
    load_found env.remove_error index expected_sha1 found

  abbrev add_found : ℕ → Option Bytes → List ℕ → List ℕ
  add_found index none later = later
  add_found index (some bytes) later = index ∷ later

  -- The loop of `completed` from `index` on; each read may fail in its own way.
  unfoldable pub completed : (ℕ → FileErrors) → ℕ → List Bytes → Exec PieceFiles (List ℕ)
  completed env index [] = pure []
  completed env index (hash ∷ hashes) = do
    found ← load (env index) index hash
    later ← completed env (suc index) hashes
    pure (add_found index found later)
